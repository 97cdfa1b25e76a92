-- ===== src/PaillierFloat/Evaluator/Aligned.antt =====
-- Sums and differences of encrypted numbers with exponents.
use heu.Base.{
  ℕ, ◌+◌, ◌-◌, subst, ◌*◌, ◌/◌, ◌%◌, ◌^◌, ◌<◌, ◌≤◌, ◌≡◌, refl, arith, if◌then◌else◌, true, false,
  inl, inr, Bool-cases, ok,
}
use native.Mathlib.Nat.{mod-eq_of_lt, mul-pos, pow-zero, one-mul}
use heu.Base.Int.{ℤ, pos, negsuc, pos_part, neg_part, ltb_ℤ, ◌+ℤ◌, ◌-ℤ◌}
use heu.Base.Int.Ring.{pos-mul}
use heu.Base.Int.Residue.{residue}
use heu.Base.Modular.{cong_sym, cong_mod}
use heu.Paillier.Numbers.{Encodes}
use heu.Paillier.Numbers.Encodings.{Encodes-same, Encodes-mul, Encodes-pow}
use heu.PaillierFloat.{Integers, IsIntegers, at_most, PublicKey, init}
use heu.PaillierFloat.Codec.{encode_small}
use heu.PaillierFloat.Evaluator.{
  Ciphertext, add_raw, mul_raw, decrease_exponent_to, add, mul, negate, sub,
}

-- How far one exponent lies above another.
abbrev pub above : ℤ → ℤ → ℕ
above x y = pos_part (x -ℤ y)

abbrev pub lower : ℤ → ℤ → ℤ
lower x y = if ltb_ℤ y x then y else x

-- The number of a ciphertext is a natural one, which encrypts v modulo p * q.
pub record Holds (p q v : ℕ) (c : ℤ) : Type 0 where
  pub at : ℕ
  pub is_pos : c ≡ pos at
  pub encodes : Encodes p q v at

above_lem : (x y : ℤ) → ltb_ℤ y x ≡ true → (at_most y x ≡ true) × (above y x ≡ 0)
unfolding ◌-ℤ◌
above_lem x y h = (ground arith, ground arith)

above_same : (x y : ℤ) → ltb_ℤ y x ≡ false → above x y ≡ 0
unfolding ◌-ℤ◌
above_same x y h = ground arith

add_zero : (x : ℤ) → x +ℤ pos 0 ≡ x
unfolding ◌+ℤ◌
add_zero x = ground arith

module _ (b : Integers) (laws : IsIntegers b) (p q : ℕ) (positive : 0 < p * q) where
  abbrev key : PublicKey
  key = init b (pos (p * q))

  square_positive : 0 < p * q * (p * q)
  square_positive = mul-pos positive positive

  square_is : key.n_square ≡ pos (p * q * (p * q))
  unfolding init
  square_is = pos-mul (p * q) (p * q)

  Holds-add_raw :
      {v w : ℕ} {x y : ℤ} → Holds p q v x → Holds p q w y → Holds p q (v + w) (add_raw b key x y)
  Holds-add_raw hx hy = record {
    at = hx.at * hy.at % (p * q * (p * q));
    is_pos = rw (hx.is_pos, hy.is_pos, square_is) (laws.mul_mod_is hx.at hy.at _ square_positive);
    encodes = Encodes-same p q (cong_sym (cong_mod _ _)) (Encodes-mul p q hx.encodes hy.encodes);
  }

  Holds-mul_raw :
      {v : ℕ} {x : ℤ} (k : ℕ) → Holds p q v x → Holds p q (k * v) (mul_raw b key x (pos k))
  Holds-mul_raw k hx = record {
    at = hx.at ^ k % (p * q * (p * q));
    is_pos = rw (hx.is_pos, square_is) (laws.pow_mod_is hx.at k _ square_positive);
    encodes = Encodes-same p q (cong_sym (cong_mod _ _)) (Encodes-pow p q k hx.encodes);
  }

  -- Lowering an exponent multiplies what is encrypted by a power of 16.
  pub decrease_lem :
      {v : ℕ} (x : Ciphertext) (e : ℤ)
      → Holds p q v x.c
      → at_most e x.exponent ≡ true
      → 16 ^ above x.exponent e ≤ p * q / 3
      → (z : ℤ) × (decrease_exponent_to b key x e ≡ ok (record { c = z; exponent = e }))
        × Holds p q (16 ^ above x.exponent e * v) z
  unfolding decrease_exponent_to
  decrease_lem x e holds order small =
      let f = 16 ^ above x.exponent e in
      (
        mul_raw b key x.c (pos f),
        rw
            (
              order,
              laws.pow_is 16 (above x.exponent e),
              encode_small b laws (p * q) (pos f) (pos 0) positive (omega arith),
              mod-eq_of_lt {n = f} {m = p * q} (omega arith),
            )
            refl,
        Holds-mul_raw f holds,
      )

  -- A sum is encrypted at the lower of both exponents, with both numbers brought to it.
  pub add-Holds :
      {v w : ℕ} (x y : Ciphertext)
      → Holds p q v x.c
      → Holds p q w y.c
      → 16 ^ above x.exponent y.exponent ≤ p * q / 3
      → 16 ^ above y.exponent x.exponent ≤ p * q / 3
      → (z : ℤ) × (add b key x y ≡ ok (record { c = z; exponent = lower x.exponent y.exponent }))
        × Holds p q (16 ^ above x.exponent y.exponent * v + 16 ^ above y.exponent x.exponent * w) z
  unfolding add
  add-Holds {v = v} {w = w} x y hx hy sx sy = elim (Bool-cases (ltb_ℤ y.exponent x.exponent)) [
    | inl t ↦
        let (order, zero) = above_lem x.exponent y.exponent t in
        let (z, run, holds) = decrease_lem x y.exponent hx order sx in
        (
          add_raw b key z y.c,
          rw (t, run) refl,
          rw (zero, pow-zero 16, one-mul w) (Holds-add_raw holds hy),
        )
    | inr t ↦ elim (Bool-cases (ltb_ℤ x.exponent y.exponent)) [
      | inl u ↦
          let (order, zero) = above_lem y.exponent x.exponent u in
          let (z, run, holds) = decrease_lem y x.exponent hy order sy in
          (
            add_raw b key x.c z,
            rw (t, u, run) refl,
            rw (zero, pow-zero 16, one-mul v) (Holds-add_raw hx holds),
          )
      | inr u ↦ (
        add_raw b key x.c y.c,
        rw (t, u) refl,
        rw
            (
              above_same x.exponent y.exponent t,
              above_same y.exponent x.exponent u,
              pow-zero 16,
              one-mul v,
              one-mul w,
            )
            (Holds-add_raw hx hy),
      )
    ]
  ]

  minus_one : residue (p * q) (negsuc 0) ≡ p * q - 1
  minus_one = omega arith

  pub mul-Holds :
      {v : ℕ} (x : Ciphertext) (s : ℤ)
      → Holds p q v x.c
      → pos_part s + neg_part s ≤ p * q / 3
      → (z : ℤ) × (mul b key x s ≡ ok (record { c = z; exponent = x.exponent }))
        × Holds p q (residue (p * q) s * v) z
  unfolding mul
  mul-Holds x s holds small = (
    mul_raw b key x.c (pos (residue (p * q) s)),
    rw (encode_small b laws (p * q) s (pos 0) positive small, add_zero x.exponent) refl,
    Holds-mul_raw (residue (p * q) s) holds,
  )

  -- For big integers as documented and a positive modulus p * q: where the powers of 16 between the
  -- exponents, and 1, are within a third of p * q, the difference of two ciphertexts succeeds and
  -- stands at the lower exponent. It encrypts, modulo p * q, the difference of the numbers
  -- brought to that exponent, where -1 is p * q - 1.
  pub sub-Holds :
      {v w : ℕ} (x y : Ciphertext)
      → Holds p q v x.c
      → Holds p q w y.c
      → 16 ^ above x.exponent y.exponent ≤ p * q / 3
      → 16 ^ above y.exponent x.exponent ≤ p * q / 3
      → 1 ≤ p * q / 3
      → (z : ℤ) × (sub b key x y ≡ ok (record { c = z; exponent = lower x.exponent y.exponent }))
        × Holds p q
            (16 ^ above x.exponent y.exponent * v
              + 16 ^ above y.exponent x.exponent * ((p * q - 1) * w))
            z
  unfolding sub negate
  sub-Holds {w = w} x y hx hy sx sy one =
      let (m, run, holds) = mul-Holds y (negsuc 0) hy one in
      let opposite : Ciphertext = record { c = m; exponent = y.exponent } in
      let negated : Holds p q ((p * q - 1) * w) m =
        subst (λ (t : ℕ). Holds p q (t * w) m) minus_one holds in
      let (z, sum, held) = add-Holds x opposite hx negated sx sy in (z, rw run sum, held)
