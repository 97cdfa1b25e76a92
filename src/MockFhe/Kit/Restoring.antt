-- ===== src/MockFhe/Kit/Restoring.antt =====
-- A kit of mock_fhe that is made from the context which another kit wrote.
use heu.Base.{◌<◌}
use heu.Base.{
  ℕ, ◌^◌, ◌≡◌, ◌≢◌, ◌⊎◌, inl, inr, refl, sym, ap, ◌∙◌, subst, Bool, true, false, some, none,
  if◌then◌else◌, ◌||◌, Bool-cases, Result, ok, err,
}
use heu.Base.{missing_arg, wrong_schema}
use Prim.Native.String.{String}
use heu.Spi.Schema.{Schema, mock_bfv, mock_ckks, schema_2_string, string_2_schema-schema_2_string}
use heu.MockFhe.Evaluator.{is_ckks}
use heu.MockFhe.Kit.{
  Serializer, Args, Kit, check, exists_arg, serialize, deserialize, context_of, create_kit,
}
use heu.MockFhe.Kit.Creation.{create_kit_cases}

-- DeserializeVarsTo reads what SerializeVarsTo wrote, for words of 64 bits.
pub record IsSerializer {Buffer : Type 0} (io : Serializer Buffer) : Type 0 where
  pub restores :
      (n : ℕ) (name : String) (s : ℕ)
      → n < 2 ^ 64
      → s < 2 ^ 64
      → io.deserialize_vars (io.serialize_vars n name s) ≡ ok (n, name, s)

module _ {Buffer : Type 0} (io : Serializer Buffer) where
  deserialize-serialize :
      IsSerializer io
      → (kit : Kit) → kit.poly_degree < 2 ^ 64
      → kit.scale < 2 ^ 64
      → deserialize io (serialize io kit) ≡ ok (kit.poly_degree, kit.schema, kit.scale)
  unfolding deserialize serialize
  deserialize-serialize laws kit degree_fits scale_fits =
      rw
        (laws.restores kit.poly_degree (schema_2_string kit.schema) kit.scale degree_fits
          scale_fits)
        (ap (λ s. ok (kit.poly_degree, s, kit.scale)) (string_2_schema-schema_2_string kit.schema))

  -- A kit that is created read its context.
  create_kit_context :
      (schema : Schema) (args : Args Buffer) (kit : Kit)
      → create_kit io schema args ≡ ok kit
      → (n : ℕ) × (named : Schema) × (s : ℕ) × (context_of io args.params_from ≡ ok (n, named, s))
  unfolding create_kit
  create_kit_context schema args kit h = elim (Bool-cases (check schema)) [
    | inl allowed ↦ elim (Bool-cases (exists_arg args.gen_new_pk_sk || args.pk_from)) [
      | inl keyed ↦ go allowed keyed (context_of io args.params_from) refl
      | inr no_key ↦
          let fails : create_kit io schema args ≡ err missing_arg = rw (allowed, no_key) refl in cc
    ]
    | inr refused ↦ let fails : create_kit io schema args ≡ err wrong_schema = rw refused refl in cc
  ]
    where
      go :
          check schema ≡ true
          → (exists_arg args.gen_new_pk_sk || args.pk_from) ≡ true
          → (r : Result (ℕ × Schema × ℕ)) → context_of io args.params_from ≡ r
          → (n : ℕ) × (named : Schema) × (s : ℕ) × (context_of io args.params_from
              ≡ ok (n, named, s))
      go allowed keyed (ok (n, named, s)) read = (n, named, s, read)
      go allowed keyed (err error) read =
          let fails : create_kit io schema args ≡ err error = rw (allowed, keyed, read) refl in cc

  -- A kit that is created has a degree and a scale that are accepted again.
  created_is :
      (schema : Schema) (args : Args Buffer) (kit : Kit)
      → create_kit io schema args ≡ ok kit
      → ((kit.schema ≡ mock_bfv) ⊎ ((kit.schema ≡ mock_ckks) × (kit.scale ≢ 0)))
        × ((k : ℕ) × (kit.poly_degree ≡ 2 ^ k))
        × (kit.evaluator.poly_degree ≡ kit.poly_degree)
        × (kit.evaluator.scale ≡ kit.scale)
  created_is schema args kit h =
      let (n, named, s, read) = create_kit_context schema args kit h in
      elim (create_kit_cases io schema args n s named read) [
        | inl (made, run, accepted, is_kit) ↦
            let e : made ≡ kit = cc in
            subst
              (λ k.
                ((k.schema ≡ mock_bfv) ⊎ ((k.schema ≡ mock_ckks) × (k.scale ≢ 0)))
                × ((j : ℕ) × (k.poly_degree ≡ 2 ^ j))
                × (k.evaluator.poly_degree ≡ k.poly_degree)
                × (k.evaluator.scale ≡ k.scale))
              e
              (
                elim accepted.allowed [
                  | inl bfv ↦ inl (is_kit.schema_is ∙ bfv)
                  | inr (ckks, some_scale) ↦ inr (
                    is_kit.schema_is ∙ ckks,
                    λ z. some_scale (sym (rw ckks at is_kit.scale_is) ∙ z),
                  )
                ],
                (accepted.exponent, is_kit.degree_is ∙ accepted.is_power),
                ap (λ v. v.poly_degree) is_kit.evaluator_is ∙ sym is_kit.degree_is,
                ap (λ v. v.scale) is_kit.evaluator_is ∙ sym is_kit.scale_is,
              )
        | inr (error, run, refused) ↦ cc
      ]

  -- For a serializer that reads what it wrote, and a kit that was created with a degree and a scale
  -- below 2^64: from the buffer that the kit writes, its degree, schema and scale are read; and
  -- arguments with this buffer and a public key, and no degree and no scale of their own, create a kit
  -- of the same schema, with the same degree and scale, also in the evaluator.
  pub create_kit-serialize :
      IsSerializer io
      → (schema : Schema) (args : Args Buffer) (kit : Kit) → create_kit io schema args ≡ ok kit
      → kit.poly_degree < 2 ^ 64
      → kit.scale < 2 ^ 64
      → (later : Args Buffer) → later.params_from ≡ some (serialize io kit)
      → later.poly_modulus_degree ≡ none
      → later.scale ≡ none
      → later.pk_from ≡ true
      → (deserialize io (serialize io kit) ≡ ok (kit.poly_degree, kit.schema, kit.scale))
        × (again : Kit) × (create_kit io kit.schema later ≡ ok again)
        × (again.poly_degree ≡ kit.poly_degree)
        × (again.scale ≡ kit.scale)
        × (again.evaluator.poly_degree ≡ kit.evaluator.poly_degree)
        × (again.evaluator.scale ≡ kit.evaluator.scale)
  unfolding context_of
  create_kit-serialize laws schema args kit h degree_fits scale_fits later from no_degree no_scale
        keyed =
      let (allowed, (k, power), same_degree, same_scale) = created_is schema args kit h in
      let restored = deserialize-serialize laws kit degree_fits scale_fits in
      let read : context_of io later.params_from ≡ ok (kit.poly_degree, kit.schema, kit.scale) =
        rw from restored in
      elim (create_kit_cases io kit.schema later kit.poly_degree kit.scale kit.schema read) [
        | inl (again, run, accepted, is_kit) ↦
            let degree : again.poly_degree ≡ kit.poly_degree = rw no_degree at is_kit.degree_is in
            let scale : again.scale ≡ kit.scale =
              is_kit.scale_is ∙ rw no_scale (if_same (is_ckks kit.schema) kit.scale) in
            (
              restored,
              again,
              run,
              degree,
              scale,
              ap (λ v. v.poly_degree) is_kit.evaluator_is
                  ∙ (sym is_kit.degree_is ∙ (degree ∙ sym same_degree)),
              ap (λ v. v.scale) is_kit.evaluator_is
                  ∙ (sym is_kit.scale_is ∙ (scale ∙ sym same_scale)),
            )
        | inr (error, run, refused) ↦ absurd (
            refused (record {
              allowed = rw no_scale allowed;
              exponent = k;
              is_power = rw no_degree power;
              keyed = inr keyed;
            }))
      ]
    where
      if_same : (b : Bool) (x : ℕ) → (if b then x else x) ≡ x
      if_same true x = refl
      if_same false x = refl
