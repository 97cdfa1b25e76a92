-- ===== src/PaillierFloat/Codec.antt =====
-- The codec of internal/codec.cc: what encoding and decoding do to each other.
use heu.Base.{
  ℕ, suc, ◌+◌, ◌-◌, ◌/◌, ◌^◌, ◌<◌, ◌≤◌, ◌≡◌, refl, arith, ltb, sym, ◌∙◌, ap, number_corrupted,
  overflow_detected, Error, ok-injective, ltb→lt, leb, le→leb, leb→le, if◌then◌else◌,
  plaintext_out_of_range, ◌↔◌, inl, inr, Bool-cases, ok, err, ◌>>=◌,
}
use native.Mathlib.Nat.{mod-eq_of_lt, add-zero, one-le-pow}
use heu.Base.Int.{ℤ, pos, negsuc, pos_part, neg_part, neg_ℤ, ◌-ℤ◌, ◌*ℤ◌}
use heu.Base.Int.Residue.{residue}
use heu.PaillierFloat.{
  Integers, IsIntegers, EncodedNumber, init, encode, get_mantissa, decode, scaled,
}

no_value {ℓ} : {A : Type ℓ} (error : Error) {a : A} → err error ≡ ok a → ⊥
no_value error h = cc

-- The residue of m - n.
mantissa_wrap : (n m : ℕ) → m < n → residue n (negsuc (n - m - 1)) ≡ m
mantissa_wrap n m h = rw (mod-eq_of_lt {n = n - m - 1} {m = n} (omega arith)) (omega arith)

base_power : (k : ℕ) → 0 < 16 ^ k
base_power k = one-le-pow k 16 (omega arith)

-- s * 16^e, rounded towards 0.
unfoldable pub carried : ℤ → ℤ → ℤ
carried s (pos k) = s *ℤ pos (16 ^ k)
carried (pos a) (negsuc k) = pos (a / 16 ^ suc k)
carried (negsuc a) (negsuc k) = neg_ℤ (pos (suc a / 16 ^ suc k))

module _ (b : Integers) (laws : IsIntegers b) where
  max_int-init : (n : ℕ) → (init b (pos n)).max_int ≡ pos (n / 3)
  unfolding init
  max_int-init n = laws.div_is n 3 (omega arith)

  -- The mantissa of the residue of a number within a third of the modulus is the number.
  pub get_mantissa-residue :
      (n : ℕ) (s e : ℤ)
      → 0 < n
      → pos_part s + neg_part s ≤ n / 3
      → get_mantissa b (init b (pos n)) (record { encoding = pos (residue n s); exponent = e })
        ≡ ok s
  unfolding get_mantissa init ◌-ℤ◌
  get_mantissa-residue n (pos a) e h small =
      rw (laws.div_is n 3 (omega arith), mod-eq_of_lt {n = a} {m = n} (omega arith)) (ground arith)
  get_mantissa-residue n (negsuc a) e h small =
      rw (laws.div_is n 3 (omega arith), mod-eq_of_lt {n = a} {m = n} (omega arith)) (ground arith)

  encode_lem :
      (n : ℕ) (s e : ℤ)
      → 0 < n
      → encode b (init b (pos n)) s e ≡ (
          if leb (pos_part s + neg_part s) (n / 3)
          then ok (record { encoding = pos (residue n s); exponent = e })
          else err plaintext_out_of_range)
  unfolding encode init
  encode_lem n s e h = elim (Bool-cases (leb (pos_part s + neg_part s) (n / 3))) [
    | inl t ↦ rw (laws.div_is n 3 (omega arith), laws.rem_is s n h, add-zero (n / 3), t) refl
    | inr t ↦ rw (laws.div_is n 3 (omega arith), laws.rem_is s n h, add-zero (n / 3), t) refl
  ]

  pub encode_small :
      (n : ℕ) (s e : ℤ)
      → 0 < n
      → pos_part s + neg_part s ≤ n / 3
      → encode b (init b (pos n)) s e ≡ ok (record { encoding = pos (residue n s); exponent = e })
  encode_small n s e h small = rw (encode_lem n s e h, le→leb _ _ small) refl

  scaled-carried : (s e : ℤ) → scaled b s e ≡ carried s e
  unfolding scaled carried
  scaled-carried s (pos k) = rw (laws.pow_is 16 k) refl
  scaled-carried (pos a) (negsuc k) =
      ap (b.div (pos a)) (laws.pow_is 16 (suc k)) ∙ laws.div_is a (16 ^ suc k) (base_power (suc k))
  scaled-carried (negsuc a) (negsuc k) =
      ap (b.div (negsuc a)) (laws.pow_is 16 (suc k))
      ∙ laws.div_neg_is a (16 ^ suc k) (base_power (suc k))

  -- For big integers as documented and a positive modulus, a number within a third of the modulus
  -- that is encoded with an exponent and decoded again is multiplied by the power of 16 where the
  -- exponent is not negative, and otherwise divided by the power of 16 and rounded towards 0; a
  -- number that is not within a third of the modulus is refused as out of range.
  pub decode-encode :
      (n : ℕ) (s e : ℤ)
      → 0 < n
      → (encode b (init b (pos n)) s e >>= decode b (init b (pos n))) ≡ (
          if leb (pos_part s + neg_part s) (n / 3)
          then ok (carried s e)
          else err plaintext_out_of_range)
  unfolding decode
  decode-encode n s e h = elim (Bool-cases (leb (pos_part s + neg_part s) (n / 3))) [
    | inl t ↦
        rw
          (encode_lem n s e h, t, get_mantissa-residue n s e h (leb→le _ _ t), ← scaled-carried s e)
          refl
    | inr t ↦ rw (encode_lem n s e h, t) refl
  ]

  mantissa_lem :
      (n m : ℕ) (e : ℤ)
      → 0 < n
      → get_mantissa b (init b (pos n)) (record { encoding = pos m; exponent = e }) ≡ (
          if ltb m n
          then if leb m (n / 3)
            then ok (pos m)
            else if leb (n - n / 3) m
            then ok (negsuc (n - m - 1))
            else err overflow_detected
          else err number_corrupted)
  unfolding get_mantissa init ◌-ℤ◌
  mantissa_lem n m e h = rw (laws.div_is n 3 (omega arith)) (ground arith)

  mantissa_forth :
      (n m : ℕ) (s e : ℤ)
      → 0 < n
      → get_mantissa b (init b (pos n)) (record { encoding = pos m; exponent = e }) ≡ ok s
      → (pos_part s + neg_part s ≤ n / 3) × (residue n s ≡ m)
  mantissa_forth n m s e h r = elim (Bool-cases (ltb m n)) [
    | inl below ↦ elim (Bool-cases (leb m (n / 3))) [
      | inl t ↦
          let same : pos m ≡ s =
            ok-injective _ _ (sym (mantissa_lem n m e h ∙ rw (below, t) refl) ∙ r) in
          rw (sym same)
            (omega (arith, leb→le _ _ t), mod-eq_of_lt {n = m} {m = n} (ltb→lt _ _ below))
      | inr t ↦ elim (Bool-cases (leb (n - n / 3) m)) [
        | inl u ↦
            let same : negsuc (n - m - 1) ≡ s =
              ok-injective _ _ (sym (mantissa_lem n m e h ∙ rw (below, t, u) refl) ∙ r) in
            rw (sym same)
              (ground (arith, leb→le _ _ u, ltb→lt _ _ below), mantissa_wrap n m (ltb→lt _ _ below))
        | inr u ↦
            absurd
              (no_value overflow_detected (sym (mantissa_lem n m e h ∙ rw (below, t, u) refl) ∙ r))
      ]
    ]
    | inr above ↦
        absurd (no_value number_corrupted (sym (mantissa_lem n m e h ∙ rw above refl) ∙ r))
  ]

  -- For big integers as documented and a positive modulus, the mantissa of a natural number is s
  -- exactly when s is encoded as that number.
  pub get_mantissa_iff :
      (n m : ℕ) (s e : ℤ)
      → 0 < n
      → (get_mantissa b (init b (pos n)) (record { encoding = pos m; exponent = e }) ≡ ok s)
        ↔ (encode b (init b (pos n)) s e ≡ ok (record { encoding = pos m; exponent = e }))
  get_mantissa_iff n m s e h = (forth, back)
    where
      forth :
          get_mantissa b (init b (pos n)) (record { encoding = pos m; exponent = e }) ≡ ok s
          → encode b (init b (pos n)) s e ≡ ok (record { encoding = pos m; exponent = e })
      forth r =
          let (small, same) = mantissa_forth n m s e h r in
          rw (encode_lem n s e h, le→leb _ _ small, same) refl

      back :
          encode b (init b (pos n)) s e ≡ ok (record { encoding = pos m; exponent = e })
          → get_mantissa b (init b (pos n)) (record { encoding = pos m; exponent = e }) ≡ ok s
      back r = elim (Bool-cases (leb (pos_part s + neg_part s) (n / 3))) [
        | inl t ↦
            let same : ok (record { encoding = pos (residue n s); exponent = e })
                ≡ ok (record { encoding = pos m; exponent = e }) =
              sym (encode_lem n s e h ∙ rw t refl) ∙ r in
            let encoding_same : pos (residue n s) ≡ pos m =
              ap (λ (c : EncodedNumber). c.encoding) (ok-injective _ _ same) in
            rw (sym encoding_same) (get_mantissa-residue n s e h (leb→le _ _ t))
        | inr t ↦
            absurd (no_value plaintext_out_of_range (sym (encode_lem n s e h ∙ rw t refl) ∙ r))
      ]
