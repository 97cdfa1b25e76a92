-- ===== src/Paillier/Examples.antt =====
-- The scheme with the primes 3 and 5.
pub mod Integers
use heu.Base.{
  ℕ, zero, suc, ◌+◌, ◌*◌, ◌/◌, ◌%◌, ◌^◌, ◌≤◌, ◌≡◌, refl, true, List, [], ◌∷◌, ◌==◌, ok, arith,
}
use heu.Base.Int.Residue.{residue}
use heu.Base.Int.{ℤ, pos, negsuc, pos_part, neg_part, ◌+ℤ◌, ◌-ℤ◌, ◌*ℤ◌}
use heu.Base.Modular.{Cong, cong}
use heu.Paillier.Keys.{PublicKey, SecretKey, init_secret, pow_mod_n_square_crt}
use heu.Paillier.Keys.Derived.{IsSecret, init-IsSecret}
use heu.Paillier.Keys.Crt.{pow_mod_n_square_crt_lem}
use heu.Paillier.Scheme.{Ciphertext, decrypt, create_decryptor}
use heu.Paillier.Scheme.Circuit.{Circuit, value, Small, InBounds, run}
use heu.Paillier.KeyGenerator.{find_q, find_pq, find_x, generate}
use heu.Paillier.KeyGenerator.Correct.{decrypt-generate_keys}
use heu.Paillier.Examples.Integers.{plain_integers, plain_laws, three_five, scan, divisor, bits}

-- The draw 4 for q and the draw 3 for x are refused.
abbrev prime_draws : List (ℤ × List ℤ)
prime_draws = (pos 3, pos 4 ∷ pos 5 ∷ []) ∷ []

abbrev x_draws : List ℤ
x_draws = pos 3 ∷ pos 2 ∷ []

primes_found : find_pq plain_integers 4 prime_draws ≡ ok (pos 3, pos 5)
unfolding find_pq find_q scan divisor bits ◌*ℤ◌ ◌-ℤ◌
primes_found = refl

x_found : find_x plain_integers (pos 3 *ℤ pos 5) x_draws ≡ ok (pos 2)
unfolding find_x scan divisor ◌*ℤ◌
x_found = refl

-- 1 - (3 + -1) * -2
abbrev circuit : Circuit
circuit = Circuit.plain_sub (pos 1) (
    Circuit.mul (Circuit.add (Circuit.encrypt (pos 3) 4) (Circuit.encrypt (negsuc 0) 5)) (negsuc 1))

circuit-InBounds : InBounds (3 * 5 / 2) circuit
unfolding InBounds
circuit-InBounds = ((omega arith, omega arith), omega arith)

circuit-Small : Small (3 * 5 / 2) (value circuit)
unfolding value ◌+ℤ◌ ◌-ℤ◌ ◌*ℤ◌
circuit-Small = omega arith

decrypt-generate_keys_example :
    (sk : SecretKey) × (pk : PublicKey) × (generate plain_integers 4 prime_draws x_draws
      ≡ ok (sk, pk))
    × (create_decryptor pk sk ≡ ok (pk, sk))
    × (ct : Ciphertext) × (run plain_integers pk circuit ≡ ok ct)
    × (decrypt plain_integers pk sk ct ≡ ok (value circuit))
decrypt-generate_keys_example =
    decrypt-generate_keys plain_integers plain_laws 3 5 2 4 three_five prime_draws x_draws circuit
      refl primes_found x_found circuit-InBounds circuit-Small

-- -4 has the inverse 56 modulo 225.
pow_mod_n_square_crt_lem_example :
    pow_mod_n_square_crt plain_integers
      (init_secret plain_integers (pos 4) (pos 4) (pos 3) (pos 5))
      (negsuc 3)
      (pos 15)
    ≡ pos (residue 225 (negsuc 3) ^ 15 % 225)
pow_mod_n_square_crt_lem_example =
    pow_mod_n_square_crt_lem plain_integers plain_laws 3 5 three_five (pos 4) (pos 4) (negsuc 3) 15
      56 (cong 0 55 (omega arith))
