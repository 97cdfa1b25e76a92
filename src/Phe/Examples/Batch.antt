-- ===== src/Phe/Examples/Batch.antt =====
-- Pairs of 8-bit numbers, with two bits of padding and the scale 10.
use heu.Base.{◌+◌, ◌*◌, ◌/◌, ◌%◌, ◌^◌, ◌≡◌, refl, List, [], ◌∷◌, arith}
use heu.Base.Int.{ℤ, pos, negsuc, ◌+ℤ◌, ◌*ℤ◌}
use heu.Phe.BatchEncoder.{PlaintextOps, BatchEncoder, signed, decode}
use heu.Phe.BatchEncoder.Sums.{IsPlaintext, Fits, sum_encoded, sum_first, sum_second}
use heu.Phe.BatchEncoder.Decode.{decode-sum_encoded}

-- Where the bits of two numbers are apart, `|` is their sum.
abbrev naturals : PlaintextOps
naturals = record {
  shift_left = λ x k. x * 2 ^ k;
  shift_right = λ x k. x / 2 ^ k;
  bit_or = λ x y. x + y;
  get_value = λ w x. signed w (x % 2 ^ w);
}

naturals-IsPlaintext : IsPlaintext naturals
naturals-IsPlaintext = record {
  shift_left_is = λ x k. refl;
  shift_right_is = λ x k. refl;
  bit_or_is = λ x y k h. refl;
  get_value_is = λ w x. refl;
}

abbrev tens : BatchEncoder
tens = record { scale = pos 10; padding_bits = 2 }

-- The sums are 12 and -12, the largest multiples of the scale that fit.
abbrev pairs : List (ℤ × ℤ)
pairs = (pos 7, negsuc 4) ∷ (pos 9, pos 1) ∷ (negsuc 3, negsuc 7) ∷ []

first-Fits : Fits 8 (sum_first pairs *ℤ pos 10)
unfolding ◌+ℤ◌ ◌*ℤ◌
first-Fits = (omega arith, omega arith)

second-Fits : Fits 8 (sum_second pairs *ℤ pos 10)
unfolding ◌+ℤ◌ ◌*ℤ◌
second-Fits = (omega arith, omega arith)

decode-sum_encoded_example :
    (decode naturals tens 8 0 (sum_encoded naturals tens 8 pairs) ≡ sum_first pairs)
    × (decode naturals tens 8 1 (sum_encoded naturals tens 8 pairs) ≡ sum_second pairs)
decode-sum_encoded_example =
    decode-sum_encoded naturals naturals-IsPlaintext tens 8 (omega arith) 10 pairs (omega arith)
      refl (omega arith, omega arith) (omega arith) first-Fits second-Fits
