-- ===== src/PaillierFloat/Evaluator.antt =====
-- heu/library/algorithms/paillier_float/ciphertext.h and evaluator.cc: the operations on ciphertexts
-- and integers. Sums bring both exponents to the smaller one.
pub mod Aligned
use heu.Base.{ℕ, if◌then◌else◌, Result, ok, enforce, illegal_input, ◌>>=◌, ◌>>◌}
use heu.Base.Int.{ℤ, pos, negsuc, pos_part, ltb_ℤ, ◌+ℤ◌, ◌-ℤ◌}
use heu.PaillierFloat.{Integers, PublicKey, EncodedNumber, base, at_most, encode}

pub record Ciphertext : Type 0 where
  pub c : ℤ
  pub exponent : ℤ

module _ (b : Integers) (pk : PublicKey) where
  abbrev pub add_raw : ℤ → ℤ → ℤ
  add_raw x y = b.mul_mod x y pk.n_square

  abbrev pub mul_raw : ℤ → ℤ → ℤ
  mul_raw x y = b.pow_mod x y pk.n_square

  unfoldable pub decrease_exponent_to : Ciphertext → ℤ → Result Ciphertext
  decrease_exponent_to cipher new_exp = do
    enforce (at_most new_exp cipher.exponent) illegal_input
    let factor = b.pow base (pos_part (cipher.exponent -ℤ new_exp))
    encoded_factor ← encode b pk factor (pos 0)
    ok (record { c = mul_raw cipher.c encoded_factor.encoding; exponent = new_exp })

  unfoldable pub add : Ciphertext → Ciphertext → Result Ciphertext
  add x y =
      if ltb_ℤ y.exponent x.exponent
      then (do
        new_x ← decrease_exponent_to x y.exponent
        ok (record { c = add_raw new_x.c y.c; exponent = y.exponent }))
      else if ltb_ℤ x.exponent y.exponent
      then (do
        new_y ← decrease_exponent_to y x.exponent
        ok (record { c = add_raw x.c new_y.c; exponent = x.exponent }))
      else ok (record { c = add_raw x.c y.c; exponent = x.exponent })

  unfoldable pub mul : Ciphertext → ℤ → Result Ciphertext
  mul x y = do
    encoded ← encode b pk y (pos 0)
    ok (record { c = mul_raw x.c encoded.encoding; exponent = x.exponent +ℤ encoded.exponent })

  unfoldable pub negate : Ciphertext → Result Ciphertext
  unfolding mul
  negate x = mul x (negsuc 0)

  unfoldable pub sub : Ciphertext → Ciphertext → Result Ciphertext
  unfolding negate add
  sub x y = do opposite ← negate y; add x opposite
