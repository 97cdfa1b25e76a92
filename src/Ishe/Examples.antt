-- ===== src/Ishe/Examples.antt =====
-- The scheme of ishe with p = 10007, q = 11, s = 2 and L = 8, and a sum of different degrees.
use heu.Base.{◌-◌, ◌*◌, ◌^◌, ◌<◌, ◌≡◌, ◌≢◌, refl, [], ◌∷◌, ok, ◌>>=◌, arith}
use heu.Base.Int.{pos, negsuc, ◌+ℤ◌, ◌-ℤ◌, ◌*ℤ◌}
use heu.Base.Modular.{cong}
use heu.Paillier.Examples.Integers.{plain_integers, plain_laws, scan, divisor}
use heu.Ishe.Scheme.{Ciphertext, SecretKey, PublicParameters, add, mul, decrypt}
use heu.Ishe.Circuit.{Circuit, value, degree, noise, InBounds, run}
use heu.Ishe.Kit.{Draws, create_params}
use heu.Ishe.Correct.{decrypt-create_params}

abbrev draws : Draws
draws = record {
  p = pos 10007;
  q = pos 11;
  s = pos 2;
  capital_l = pos 8;
  for_addones = λ i. (pos 1, pos i);
  for_ones = λ i. (pos 1, pos i);
  for_negs = λ i. (pos 1, pos i);
}

-- -((1 * -1) - 1)
abbrev circuit : Circuit
circuit =
    Circuit.negate
      (Circuit.add_plain
        (Circuit.mul (Circuit.encrypt (pos 1) 1 (pos 5)) (Circuit.encrypt (negsuc 0) 1 (pos 3)))
        (negsuc 0) 0 0)
      19

circuit-InBounds : InBounds (2 ^ (2 - 1)) 2 (record { addones = 100; ones = 50; negs = 20 }) circuit
unfolding InBounds degree
circuit-InBounds = (
  (
    (
      (omega arith, omega arith, omega arith, omega arith, 5, refl),
      (omega arith, omega arith, omega arith, omega arith, 3, refl),
    ),
    omega arith,
    omega arith,
    omega arith,
    omega arith,
  ),
  omega arith,
)

fits_noise : noise (2 * 8) circuit < 10007
unfolding noise
fits_noise = omega arith

value-circuit : value circuit ≡ pos 2
unfolding value ◌+ℤ◌ ◌*ℤ◌
value-circuit = refl

decrypt-create_params_example :
    (key : SecretKey) × (params : PublicParameters) × (create_params plain_integers 4 3 2 draws
      ≡ ok (key, params))
    × (ct : Ciphertext) × (run plain_integers params key circuit ≡ ok ct)
    × (decrypt plain_integers params key ct ≡ value circuit)
decrypt-create_params_example =
    decrypt-create_params plain_integers plain_laws 10007 11 2 55039 8 2 4 3 2 draws circuit
      (omega arith) (omega arith) (cong 0 1 (omega arith)) (omega arith) (omega arith) refl refl
      refl refl refl (λ i. (1, i, refl, omega arith, omega arith))
      (λ i. (1, i, refl, omega arith, omega arith)) (λ i. (1, i, refl, omega arith, omega arith))
      circuit-InBounds fits_noise (rw value-circuit (omega arith)) (rw value-circuit (omega arith))

abbrev small_key : SecretKey
small_key = record { s = pos 2; p = pos 1009; capital_l = pos 8 }

-- Encryptions of 1 with the degrees 1 and 2.
abbrev small_params : PublicParameters
small_params = record {
  k_0 = 4;
  k_r = 3;
  k_m = 2;
  n = pos 1009;
  addones = pos 18 ∷ pos 36 ∷ [];
  ones = pos 18 ∷ [];
  negs = [];
}

abbrev one : Ciphertext
one = record { n = pos 18; d = 1 }

-- The product of 1 and 1 and the number 1 do not add up to 2.
different_degrees :
    (add plain_integers small_params (mul plain_integers small_params one one) one 0 0 >>= λ ct.
    ok (decrypt plain_integers small_params small_key ct))
    ≢ ok (pos 2)
unfolding add mul decrypt scan divisor ◌+ℤ◌ ◌-ℤ◌
different_degrees wrong = cc
