-- ===== src/MockFhe/Kit/Creation.antt =====
-- When a kit of mock_fhe is created and what it holds.
use heu.Base.{
  ℕ, ◌/◌, ◌^◌, ◌≡◌, ◌≢◌, ◌⊎◌, inl, inr, refl, Bool, true, false, not, ◌||◌, Option, some, none,
  ◌==◌, if◌then◌else◌, ok, err, Error, Bool-cases, arith,
}
use heu.Base.{missing_arg, wrong_schema, illegal_degree, zero_scale}
use heu.Spi.Schema.{Schema, mock_bfv, mock_ckks}
use heu.MockFhe.Evaluator.{is_ckks, is_power_of_2, create}
use heu.MockFhe.Degree.{is_power_of_2_iff}
use heu.MockFhe.Kit.{
  Serializer, Args, Kit, Keys, check, exists_arg, or_default, generate, context_of, process_keys,
  init_operators, create_kit, chosen_scale,
}

module _ {Buffer : Type 0} where
  -- What a user must give: one of the two schemas, for CKKS with a scale other than 0, a degree that is
  -- a power of two, and new keys or a public key. The degree and the scale of the context serve where
  -- the arguments name none.
  pub record IsAccepted (schema : Schema) (args : Args Buffer) (degree scale : ℕ) : Type 0 where
    pub allowed : (schema ≡ mock_bfv) ⊎ ((schema ≡ mock_ckks) × (or_default args.scale scale ≢ 0))
    pub exponent : ℕ
    pub is_power : or_default args.poly_modulus_degree degree ≡ 2 ^ exponent
    pub keyed : (args.gen_new_pk_sk ≡ some true) ⊎ (args.pk_from ≡ true)

  -- What the kit holds: the evaluator has the kit's degree, schema and scale, and each key is new or
  -- restored.
  pub record IsKit (schema : Schema) (args : Args Buffer) (degree scale : ℕ) (kit : Kit)
      : Type 0 where
    pub degree_is : kit.poly_degree ≡ or_default args.poly_modulus_degree degree
    pub schema_is : kit.schema ≡ schema
    pub scale_is : kit.scale ≡ (if is_ckks schema then or_default args.scale scale else scale)
    pub evaluator_is : kit.evaluator ≡ record {
      poly_degree = or_default args.poly_modulus_degree degree;
      schema = schema;
      scale = if is_ckks schema then or_default args.scale scale else scale;
      rlk = kit.rlk;
      glk = kit.glk;
      bsk = kit.bsk;
      half_degree = or_default args.poly_modulus_degree degree / 2;
    }
    pub sk_is : kit.sk ≡ (generate args.gen_new_pk_sk || args.sk_from)
    pub rlk_is :
        kit.rlk
        ≡ (if generate args.gen_new_pk_sk then or_default args.gen_new_rlk false else args.rlk_from)
    pub glk_is :
        kit.glk
        ≡ (if generate args.gen_new_pk_sk then or_default args.gen_new_glk false else args.glk_from)
    pub bsk_is :
        kit.bsk
        ≡ (if generate args.gen_new_pk_sk then or_default args.gen_new_bsk false else args.bsk_from)
    pub decryptor_is : kit.decryptor ≡ kit.sk

abbrev IsAllowed : Schema → ℕ → Type 0
IsAllowed schema t = (schema ≡ mock_bfv) ⊎ ((schema ≡ mock_ckks) × (t ≢ 0))

-- The check of the schema and that of the scale: `t` is the scale that the arguments ask for.
schema_cases :
    (schema : Schema) (t s : ℕ)
    → ((check schema ≡ true)
        × ((if is_ckks schema then not ((if is_ckks schema then t else s) == 0) else true) ≡ true)
        × IsAllowed schema t)
      ⊎ (((check schema ≡ true)
            × ((if is_ckks schema then not ((if is_ckks schema then t else s) == 0) else true)
                ≡ false)
            × ¬ IsAllowed schema t)
          ⊎ ((check schema ≡ false) × ¬ IsAllowed schema t))
unfolding check
schema_cases Schema.mock_bfv t s = inl (refl, refl, inl refl)
schema_cases Schema.mock_ckks t s = elim (Bool-cases (t == 0)) [
  | inl zero_t ↦
      inr (
        inl
          (refl, rw zero_t refl, λ a. elim a [ inl e ↦ cc | inr p ↦ absurd (p.1 (ground arith)) ]))
  | inr some_t ↦ inl (refl, rw some_t refl, inr (refl, λ e. ground arith))
]
schema_cases _ t s = inr (inr (refl, λ a. elim a [ inl e ↦ cc | inr p ↦ cc ]))

module _ {Buffer : Type 0} where
  abbrev IsKeyed : Args Buffer → Type 0
  IsKeyed args = (args.gen_new_pk_sk ≡ some true) ⊎ (args.pk_from ≡ true)

  record AreKeys (args : Args Buffer) (keys : Keys) : Type 0 where
    sk_is : keys.sk ≡ (generate args.gen_new_pk_sk || args.sk_from)
    rlk_is :
        keys.rlk
        ≡ (if generate args.gen_new_pk_sk then or_default args.gen_new_rlk false else args.rlk_from)
    glk_is :
        keys.glk
        ≡ (if generate args.gen_new_pk_sk then or_default args.gen_new_glk false else args.glk_from)
    bsk_is :
        keys.bsk
        ≡ (if generate args.gen_new_pk_sk then or_default args.gen_new_bsk false else args.bsk_from)

  restored : Args Buffer → Keys
  restored args = record {
    sk = args.sk_from;
    rlk = args.rlk_from;
    glk = args.glk_from;
    bsk = args.bsk_from;
  }

  -- The two checks of the key arguments.
  key_cases :
      (args : Args Buffer) (gen : Option Bool) (pk : Bool)
      → args.gen_new_pk_sk ≡ gen
      → args.pk_from ≡ pk
      → (((exists_arg args.gen_new_pk_sk || args.pk_from) ≡ true)
          × IsKeyed args
          × (keys : Keys) × (process_keys args ≡ ok keys)
          × AreKeys args keys)
        ⊎ ((((exists_arg args.gen_new_pk_sk || args.pk_from) ≡ true)
              × (process_keys args ≡ err missing_arg)
              × ¬ IsKeyed args)
            ⊎ (((exists_arg args.gen_new_pk_sk || args.pk_from) ≡ false) × ¬ IsKeyed args))
  unfolding process_keys restored
  key_cases args (some true) pk g p = inl (
    rw g refl,
    inl g,
    record {
      sk = true;
      rlk = or_default args.gen_new_rlk false;
      glk = or_default args.gen_new_glk false;
      bsk = or_default args.gen_new_bsk false;
    },
    rw g refl,
    record { sk_is = rw g refl; rlk_is = rw g refl; glk_is = rw g refl; bsk_is = rw g refl },
  )
  key_cases args (some false) true g p = inl (
    rw g refl,
    inr p,
    restored args,
    rw (g, p) refl,
    record { sk_is = rw g refl; rlk_is = rw g refl; glk_is = rw g refl; bsk_is = rw g refl },
  )
  key_cases args none true g p = inl (
    rw (g, p) refl,
    inr p,
    restored args,
    rw (g, p) refl,
    record { sk_is = rw g refl; rlk_is = rw g refl; glk_is = rw g refl; bsk_is = rw g refl },
  )
  key_cases args (some false) false g p =
      inr (inl (rw g refl, rw (g, p) refl, λ k. elim k [ inl e ↦ cc | inr e ↦ cc ]))
  key_cases args none false g p =
      inr (inr (rw (g, p) refl, λ k. elim k [ inl e ↦ cc | inr e ↦ cc ]))

module _ {Buffer : Type 0} (io : Serializer Buffer) (schema : Schema) (args : Args Buffer) (n s : ℕ)
    (named : Schema) (read : context_of io args.params_from ≡ ok (n, named, s)) where
  -- For arguments whose context, if they have one, can be read, with the degree n and the scale s (zeros
  -- without a context): where the schema is BFV or is CKKS with a scale other than 0, the degree is a
  -- power of two and new keys or a public key are given, the kit is created, and its members and those
  -- of its evaluator are what the arguments and else the context ask for; otherwise the creation
  -- throws.
  pub create_kit_cases :
      ((kit : Kit) × (create_kit io schema args ≡ ok kit)
        × IsAccepted schema args n s
        × IsKit schema args n s kit)
      ⊎ ((e : Error) × (create_kit io schema args ≡ err e) × ¬ IsAccepted schema args n s)
  unfolding create_kit init_operators create
  create_kit_cases = elim (schema_cases schema (or_default args.scale s) s) [
    | inl (allowed, scaled, is_allowed) ↦
        elim (key_cases args args.gen_new_pk_sk args.pk_from refl refl) [
          | inl (keyed, is_keyed, keys, processed, are_keys) ↦
              elim (Bool-cases (is_power_of_2 degree)) [
                | inl power ↦
                    let (k, e) = (is_power_of_2_iff degree).0 power in
                    inl (
                      made keys,
                      rw (allowed, keyed, read, power, scaled, processed) refl,
                      record { allowed = is_allowed; exponent = k; is_power = e; keyed = is_keyed },
                      record {
                        degree_is = refl;
                        schema_is = refl;
                        scale_is = refl;
                        evaluator_is = refl;
                        sk_is = are_keys.sk_is;
                        rlk_is = are_keys.rlk_is;
                        glk_is = are_keys.glk_is;
                        bsk_is = are_keys.bsk_is;
                        decryptor_is = refl;
                      },
                    )
                | inr no_power ↦ inr (
                  illegal_degree,
                  rw (allowed, keyed, read, no_power) refl,
                  λ a. let power = (is_power_of_2_iff degree).1 (a.exponent, a.is_power) in cc,
                )
              ]
          | inr (inl (keyed, missing, no_key)) ↦ elim (Bool-cases (is_power_of_2 degree)) [
            | inl power ↦ inr (
              missing_arg,
              rw (allowed, keyed, read, power, scaled, missing) refl,
              λ a. no_key a.keyed,
            )
            | inr no_power ↦
                inr (illegal_degree, rw (allowed, keyed, read, no_power) refl, λ a. no_key a.keyed)
          ]
          | inr (inr (keyed, no_key)) ↦
              inr (missing_arg, rw (allowed, keyed) refl, λ a. no_key a.keyed)
        ]
    | inr (inl (allowed, zero_scaled, refused)) ↦
        let (e, fails) = no_scale allowed zero_scaled in inr (e, fails, λ a. refused a.allowed)
    | inr (inr (not_allowed, refused)) ↦
        inr (wrong_schema, rw not_allowed refl, λ a. refused a.allowed)
  ]
    where
      degree : ℕ
      degree = or_default args.poly_modulus_degree n

      made : Keys → Kit
      made keys = record {
        poly_degree = degree;
        schema = schema;
        scale = chosen_scale schema args s;
        sk = keys.sk;
        rlk = keys.rlk;
        glk = keys.glk;
        bsk = keys.bsk;
        evaluator = record {
          poly_degree = degree;
          schema = schema;
          scale = chosen_scale schema args s;
          rlk = keys.rlk;
          glk = keys.glk;
          bsk = keys.bsk;
          half_degree = degree / 2;
        };
        decryptor = keys.sk;
      }

      no_scale :
          check schema ≡ true
          → (if is_ckks schema then not (chosen_scale schema args s == 0) else true) ≡ false
          → (e : Error) × (create_kit io schema args ≡ err e)
      no_scale allowed zero_scaled =
          elim (Bool-cases (exists_arg args.gen_new_pk_sk || args.pk_from)) [
            | inl keyed ↦ elim (Bool-cases (is_power_of_2 degree)) [
              | inl power ↦ (zero_scale, rw (allowed, keyed, read, power, zero_scaled) refl)
              | inr no_power ↦ (illegal_degree, rw (allowed, keyed, read, no_power) refl)
            ]
            | inr no_key ↦ (missing_arg, rw (allowed, no_key) refl)
          ]
