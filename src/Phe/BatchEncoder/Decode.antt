-- ===== src/Phe/BatchEncoder/Decode.antt =====
-- Decoding a sum of encodings.
use heu.Base.{
  ℕ, ◌+◌, ◌*◌, ◌/◌, ◌%◌, ◌^◌, ◌<◌, ◌≤◌, ◌≡◌, ap, ◌∙◌, List, [], ◌∷◌, length, inl, inr, arith,
}
use native.Mathlib.Nat.{
  pow-zero, mod-lt, eq-zero-or-pos, div-one, div-eq_of_lt, mul-add-div_right, add-zero,
  mul-le-mul_right,
}
use heu.Base.Int.{ℤ, pos, ◌*ℤ◌}
use heu.Base.Int.Residue.{residue, residue-lt}
use heu.Base.Modular.{Cong, cong, cong_trans, cong_mod, cong_unique, pow-add}
use heu.Phe.BatchEncoder.{PlaintextOps, BatchEncoder, cast, trunc_div, encode, decode, do_encode}
use heu.Phe.BatchEncoder.Sums.{
  IsPlaintext, Fits, power_positive, signed-residue, residue-cast, sum_encoded, sum_first,
  sum_second, trunc_div-mul, word, words_first, words_second, words_first_lem, words_second_lem,
}

module _ (ops : PlaintextOps) (laws : IsPlaintext ops) (e : BatchEncoder) (w : ℕ)
    (some_bits : 0 < w) where
  abbrev width : ℕ
  width = w + e.padding_bits

  encode_lem :
      (x y : ℤ)
      → encode ops e w x y
        ≡ word w some_bits (cast w e.scale) y * 2 ^ width + word w some_bits (cast w e.scale) x
  unfolding encode do_encode word
  encode_lem x y =
      let s = cast w e.scale in
      let small = residue-lt (2 ^ w) (x *ℤ s) (power_positive w) in
      let more = mul-le-mul_right (2 ^ w) (power_positive e.padding_bits) in
      let fits : residue (2 ^ w) (x *ℤ s) < 2 ^ width = omega (arith, pow-add 2 w e.padding_bits) in
      rw (
        do_encode,
        residue-cast w (x *ℤ s) some_bits,
        residue-cast w (y *ℤ s) some_bits,
        laws.shift_left_is (residue (2 ^ w) (y *ℤ s)) width,
        laws.bit_or_is (residue (2 ^ w) (y *ℤ s)) (residue (2 ^ w) (x *ℤ s)) width fits,
      )

  sum_encoded_lem :
      (ps : List (ℤ × ℤ))
      → sum_encoded ops e w ps
        ≡ words_second w some_bits (cast w e.scale) ps * 2 ^ width
          + words_first w some_bits (cast w e.scale) ps
  unfolding sum_encoded words_first words_second
  sum_encoded_lem [] = omega arith
  sum_encoded_lem ((x, y) ∷ ps) = omega (arith, encode_lem x y, sum_encoded_lem ps)

  -- A value whose low bits are those of a multiple of the scale.
  value_lem :
      (x c : ℕ) (m : ℤ)
      → 0 < c
      → cast w e.scale ≡ pos c
      → Fits w (m *ℤ pos c)
      → Cong (2 ^ w) x (residue (2 ^ w) (m *ℤ cast w e.scale))
      → trunc_div (ops.get_value w x) (cast w e.scale) ≡ m
  value_lem x c m positive scale_is fits same =
      let r = residue (2 ^ w) (m *ℤ cast w e.scale) in
      let low : x % 2 ^ w ≡ r =
        cong_unique (mod-lt x (power_positive w))
          (residue-lt (2 ^ w) (m *ℤ cast w e.scale) (power_positive w))
          (cong_trans (cong_mod (2 ^ w) x) same) in
      rw (laws.get_value_is w x, low, scale_is, signed-residue w (m *ℤ pos c) some_bits fits)
        (trunc_div-mul m c positive)

  -- For plaintexts as documented and a positive scale of the type of w bits: of the sum of at most
  -- 2^padding_bits encoded pairs, whose sums of the scaled numbers fit into the type, `Decode` gives the
  -- sum of the first numbers at index 0 and the sum of the second numbers at index 1.
  pub decode-sum_encoded :
      (c : ℕ) (ps : List (ℤ × ℤ))
      → 0 < c
      → e.scale ≡ pos c
      → Fits w (pos c)
      → length ps ≤ 2 ^ e.padding_bits
      → Fits w (sum_first ps *ℤ pos c)
      → Fits w (sum_second ps *ℤ pos c)
      → (decode ops e w 0 (sum_encoded ops e w ps) ≡ sum_first ps)
        × (decode ops e w 1 (sum_encoded ops e w ps) ≡ sum_second ps)
  unfolding decode
  decode-sum_encoded c ps positive scale_is scale_fits few first_fits second_fits =
      let s = cast w e.scale in
      let s_is : s ≡ pos c = rw scale_is (signed-residue w (pos c) some_bits scale_fits) in
      let U = words_first w some_bits s ps in
      let V = words_second w some_bits s ps in
      let (bound, same) = words_first_lem w some_bits s ps in
      let room = mul-le-mul_right (2 ^ w) few in
      let two = pow-add 2 w e.padding_bits in
      let positive_w = power_positive w in
      let total = sum_encoded ops e w ps in
      let total_is : total ≡ V * 2 ^ width + U = sum_encoded_lem ps in
      let U_small : U < 2 ^ width = elim (eq-zero-or-pos (length ps)) [
        | inl none' ↦
            omega (arith, bound, two, power_positive width, ap (λ (t : ℕ). t * 2 ^ w) none')
        | inr some' ↦ omega (arith, bound, room, two)
      ] in
      let low : ops.shift_right total (0 * width) ≡ total =
        laws.shift_right_is total (0 * width)
        ∙ (ap (λ (k : ℕ). total / 2 ^ k) {x = 0 * width} {y = 0} (omega arith)
            ∙ (ap (λ (k : ℕ). total / k) (pow-zero 2) ∙ div-one total)) in
      let high : ops.shift_right total (1 * width) ≡ V =
        laws.shift_right_is total (1 * width)
        ∙ (ap (λ (k : ℕ). total / 2 ^ k) {x = 1 * width} {y = width} (omega arith)
            ∙ (ap (λ (k : ℕ). k / 2 ^ width) total_is
                ∙ (mul-add-div_right (power_positive width) V U
                    ∙ (ap (λ (k : ℕ). V + k) (div-eq_of_lt U_small) ∙ add-zero V)))) in
      let at_low : Cong (2 ^ w) total U =
        cong 0 (V * 2 ^ e.padding_bits) (omega (arith, total_is, ap (λ (t : ℕ). V * t) two)) in
      (
        rw low (value_lem total c (sum_first ps) positive s_is first_fits (cong_trans at_low same)),
        rw high (
            value_lem V c (sum_second ps) positive s_is second_fits
              (words_second_lem w some_bits s ps)),
      )
