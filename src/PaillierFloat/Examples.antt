-- ===== src/PaillierFloat/Examples.antt =====
-- Tests of the codec of paillier_float, on plain arithmetic.
use heu.Base.{
  ℕ, zero, suc, ◌/◌, ◌*◌, ◌%◌, ◌^◌, ◌+◌, ◌-◌, ◌≤◌, ap, ◌≡◌, refl, arith, leb, if◌then◌else◌, ok,
  err, plaintext_out_of_range, ◌>>=◌,
}
use heu.Base.Int.Ring.{pos-mul}
use heu.Base.Int.{ℤ, pos, negsuc, neg_ℤ, pos_part, ◌-ℤ◌, ◌*ℤ◌}
use heu.Base.Int.Residue.{residue}
use heu.Phe.BatchEncoder.{trunc_div}
use heu.PaillierFloat.{Integers, IsIntegers, init, encode, get_mantissa, decode, scaled}
use heu.Paillier.Numbers.Encodings.{Encodes-plain}
use heu.PaillierFloat.Evaluator.{Ciphertext, sub}
use heu.PaillierFloat.Evaluator.Aligned.{Holds, above, lower, sub-Holds}
use heu.PaillierFloat.Codec.{carried, decode-encode}

abbrev pow_int : ℤ → ℕ → ℤ
pow_int a k = if leb 1 (pos_part a) then pos (pos_part a ^ k) else pos (0 ^ k)

abbrev rem_int : ℤ → ℤ → ℤ
rem_int x (pos m) = pos (residue m x)
rem_int x (negsuc m) = pos (residue (suc m) x)

abbrev plain : Integers
plain = record {
  div = trunc_div;
  rem = rem_int;
  pow = pow_int;
  mul_mod = λ x y m. rem_int (x *ℤ y) m;
  pow_mod = λ x e m. rem_int (pow_int x (pos_part e)) m;
}

mul_mod-pos : (x y m : ℕ) → rem_int (pos x *ℤ pos y) (pos m) ≡ pos (x * y % m)
mul_mod-pos x y m = rw (pos-mul x y) refl

plain-IsIntegers : IsIntegers plain
plain-IsIntegers = record {
  div_is = λ a d h. refl;
  div_neg_is = λ a d h. ap (λ (t : ℕ). neg_ℤ (pos (t / d))) {x = a + 1} {y = suc a} (omega arith);
  rem_is = λ x m h. refl;
  pow_is = pow_int-pos;
  mul_mod_is = λ x y m h. mul_mod-pos x y m;
  pow_mod_is = λ x e m h. ap (λ (t : ℤ). rem_int t (pos m)) (pow_int-pos x e);
}
  where
    pow_int-pos : (a k : ℕ) → pow_int (pos a) k ≡ pos (a ^ k)
    pow_int-pos zero k = refl
    pow_int-pos (suc a) k = ground arith

-- -50 with the exponent -1 to the base 16 is -50 / 16, truncated.
run :
    (encode plain (init plain (pos 1000)) (negsuc 49) (negsuc 0)
      >>= decode plain (init plain (pos 1000)))
    ≡ ok (negsuc 2)
unfolding encode decode get_mantissa scaled init ◌-ℤ◌
run = refl

decode-encode_example :
    (encode plain (init plain (pos 1000)) (negsuc 49) (negsuc 0)
      >>= decode plain (init plain (pos 1000)))
    ≡ (if leb 50 (1000 / 3)
        then ok (carried (negsuc 49) (negsuc 0))
        else err plaintext_out_of_range)
decode-encode_example =
    decode-encode plain plain-IsIntegers 1000 (negsuc 49) (negsuc 0) (omega arith)

-- Encryptions of 3 with the exponent 1 and of 4 with the exponent 0, modulo 11 * 17.
abbrev three : Ciphertext
three = record { c = pos (1 + 11 * 17 * 3); exponent = pos 1 }

abbrev four : Ciphertext
four = record { c = pos (1 + 11 * 17 * 4); exponent = pos 0 }

plain-Holds : (v : ℕ) → Holds 11 17 v (pos (1 + 11 * 17 * v))
plain-Holds v = record { at = 1 + 11 * 17 * v; is_pos = refl; encodes = Encodes-plain 11 17 v }

one_apart : 16 ^ above (pos 1) (pos 0) ≤ 11 * 17 / 3
unfolding ◌-ℤ◌
one_apart = omega arith

none_apart : 16 ^ above (pos 0) (pos 1) ≤ 11 * 17 / 3
unfolding ◌-ℤ◌
none_apart = omega arith

sub-Holds_example :
    (z : ℤ) × (sub plain (init plain (pos (11 * 17))) three four
      ≡ ok (record { c = z; exponent = lower (pos 1) (pos 0) }))
    × Holds 11 17
        (16 ^ above (pos 1) (pos 0) * 3 + 16 ^ above (pos 0) (pos 1) * ((11 * 17 - 1) * 4))
        z
sub-Holds_example =
    sub-Holds plain plain-IsIntegers 11 17 (omega arith) three four (plain-Holds 3) (plain-Holds 4)
      one_apart none_apart (omega arith)
