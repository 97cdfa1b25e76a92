-- ===== src/MockFhe/Multiply/Arrays.antt =====
-- The product of two vectors of the evaluator's size as a function without errors, its entries,
-- and its associativity.
use heu.Base.{
  ℕ, suc, ◌+◌, ◌*◌, ◌<◌, ◌≡◌, refl, sym, ◌∙◌, ap, ap₂, inl, inr, List, [], ◌∷◌, length, get_or,
  replicate, zip_with, length-replicate, if◌then◌else◌, ok, Bool-cases, ==_refl, le→leb, arith,
}
use heu.Base.Words.{mul64, mul64_assoc}
use heu.Base.Complex.{re_assoc, im_assoc}
use heu.MockFhe.Objects.{Double, MockObj}
use heu.MockFhe.Evaluator.{Evaluator, is_bfv}
use heu.MockFhe.Multiply.Defs.{
  Alias, separate, out_is_a, out_is_both, real_part, imag_part, ckks_loop, initial_output, do_mul,
}
use heu.MockFhe.Slots.{ext_slots}
use heu.MockFhe.Multiply.Ckks.{Done, ckks_loop-Done}

pub ckks_array : ℕ → List ℕ → List ℕ → List ℕ
ckks_array half a b = ckks_loop half separate a b (replicate (length a) 0)

unfoldable pub mul_array : Evaluator → List ℕ → List ℕ → List ℕ
mul_array e a b = if is_bfv e.schema then zip_with mul64 a b else ckks_array e.half_degree a b

module _ (half : ℕ) (a b : List ℕ) (size : length a ≡ 2 * half) where
  ckks_progress : Done half a b (replicate (length a) 0) (ckks_array half a b)
  unfolding ckks_array
  ckks_progress = ckks_loop-Done half separate a b (omega arith) (λ e. cc)

  pub length-ckks_array : length (ckks_array half a b) ≡ 2 * half
  length-ckks_array = ckks_progress.size ∙ (length-replicate {A = ℕ} (length a) 0 ∙ size)

  -- The real and the imaginary part of slot `j` of the product.
  pub ckks_array_parts :
      (j : ℕ)
      → j < half
      → (get_or (ckks_array half a b) j 0 ≡ real_part half a b j)
        × (get_or (ckks_array half a b) (j + half) 0 ≡ imag_part half a b j)
  ckks_array_parts j h = ckks_progress.done j h

-- Writing over an operand gives what a fresh output gives.
pub ckks_loop_alias :
    (half : ℕ) (alias : Alias) (a b : List ℕ)
    → length a ≡ 2 * half
    → (alias ≡ out_is_both → b ≡ a)
    → ckks_loop half alias a b (initial_output alias a) ≡ ckks_array half a b
ckks_loop_alias half alias a b size same =
    ext_slots half _ _ (p.size ∙ (sizes alias ∙ size)) (length-ckks_array half a b size) λ j h.
      let parts = ckks_array_parts half a b size j h in
      ((p.done j h).0 ∙ sym parts.0, (p.done j h).1 ∙ sym parts.1)
  where
    p : Done half a b (initial_output alias a) (ckks_loop half alias a b (initial_output alias a))
    p = ckks_loop-Done half alias a b (omega arith) same

    sizes : (al : Alias) → length (initial_output al a) ≡ length a
    sizes separate = length-replicate (length a) 0
    sizes out_is_a = refl
    sizes out_is_both = refl

ckks_array_assoc :
    (half : ℕ) (a b c : List ℕ)
    → length a ≡ 2 * half
    → length b ≡ 2 * half
    → ckks_array half (ckks_array half a b) c ≡ ckks_array half a (ckks_array half b c)
ckks_array_assoc half a b c ea eb =
    ext_slots half _ _ (length-ckks_array half ab c eab) (length-ckks_array half a bc ea) slot
  where
    ab : List ℕ
    ab = ckks_array half a b

    bc : List ℕ
    bc = ckks_array half b c

    eab : length ab ≡ 2 * half
    eab = length-ckks_array half a b ea

    slot :
        (j : ℕ)
        → j < half
        → (get_or (ckks_array half ab c) j 0 ≡ get_or (ckks_array half a bc) j 0)
          × (get_or (ckks_array half ab c) (j + half) 0
              ≡ get_or (ckks_array half a bc) (j + half) 0)
    slot j h =
        let l = ckks_array_parts half ab c eab j h in
        let r = ckks_array_parts half a bc ea j h in
        let (x, y) = ckks_array_parts half a b ea j h in
        let (z, w) = ckks_array_parts half b c eb j h in
        (
          rw (l.0, r.0, x, y, z, w) (re_assoc _ _ _ _ _ _),
          rw (l.1, r.1, x, y, z, w) (im_assoc _ _ _ _ _ _),
        )

zip_mul64_assoc :
    (a b c : List ℕ) → zip_with mul64 (zip_with mul64 a b) c ≡ zip_with mul64 a (zip_with mul64 b c)
zip_mul64_assoc [] b c = refl
zip_mul64_assoc (x ∷ a) [] c = refl
zip_mul64_assoc (x ∷ a) (y ∷ b) [] = refl
zip_mul64_assoc (x ∷ a) (y ∷ b) (z ∷ c) = ap₂ ◌∷◌ (mul64_assoc x y z) (zip_mul64_assoc a b c)

pub length-zip_with :
    (f : ℕ → ℕ → ℕ) (a b : List ℕ) → length a ≡ length b → length (zip_with f a b) ≡ length a
length-zip_with f [] b h = refl
length-zip_with f (x ∷ a) [] h = absurd (omega arith)
length-zip_with f (x ∷ a) (y ∷ b) h = ap suc (length-zip_with f a b (omega arith))

-- A vector that the evaluator works on: two rows of `half_degree`.
abbrev pub IsFull : Evaluator → List ℕ → Type 0
IsFull e a = length a ≡ 2 * e.half_degree

module _ (e : Evaluator) (a b : List ℕ) (fa : IsFull e a) (fb : IsFull e b) where
  pub mul_array-IsFull : IsFull e (mul_array e a b)
  unfolding mul_array
  mul_array-IsFull = elim (Bool-cases (is_bfv e.schema)) [
    | inl t ↦ rw t (length-zip_with mul64 a b (fa ∙ sym fb) ∙ fa)
    | inr t ↦ rw t (length-ckks_array e.half_degree a b fa)
  ]

  pub mul_array_assoc :
      (c : List ℕ) → mul_array e (mul_array e a b) c ≡ mul_array e a (mul_array e b c)
  unfolding mul_array
  mul_array_assoc c = elim (Bool-cases (is_bfv e.schema)) [
    | inl t ↦ rw t (zip_mul64_assoc a b c)
    | inr t ↦ rw t (ckks_array_assoc e.half_degree a b c fa fb)
  ]

module _ {F : Type 0} (d : Double F) (e : Evaluator) where
  abbrev pub mul_scale : MockObj F → MockObj F → F
  mul_scale a b = if is_bfv e.schema then d.one else d.mul a.scale b.scale

  -- On two vectors of two full rows `DoMul` succeeds, with the same result whether the output is a
  -- new object, the first operand, or both operands when they are the same vector.
  pub do_mul_full :
      (alias : Alias) (a b : MockObj F)
      → IsFull e a.array
      → IsFull e b.array
      → (alias ≡ out_is_both → b.array ≡ a.array)
      → do_mul d e alias a b
        ≡ ok (record { array = mul_array e a.array b.array; scale = mul_scale a b })
  unfolding do_mul mul_array
  do_mul_full alias a b fa fb same =
      rw (fa ∙ sym fb, ==_refl (length b.array))
        (elim (Bool-cases (is_bfv e.schema)) [
          | inl t ↦ rw t refl
          | inr t ↦
              rw (t, fb, le→leb (2 * e.half_degree) (2 * e.half_degree) (omega arith))
                (ap (λ s. ok (record { array = s; scale = d.mul a.scale b.scale }))
                  (ckks_loop_alias e.half_degree alias a.array b.array fa same))
        ])
