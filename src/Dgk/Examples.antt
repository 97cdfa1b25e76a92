-- ===== src/Dgk/Examples.antt =====
-- The scheme of dgk with u = 3, p = 31 = 3 * 5 * 2 + 1 and q = 29 = 7 * 4 + 1.
use heu.Base.{◌*◌, ◌/◌, ◌^◌, ◌≤◌, ◌≡◌, ◌==◌, refl, Bool, ◌||◌, [], ◌∷◌, ok, arith}
use heu.Base.Int.{ℤ, pos, pos_part, ◌+ℤ◌, ◌-ℤ◌, ◌*ℤ◌}
use heu.Paillier.Scheme.{Ciphertext}
use heu.Paillier.Scheme.Circuit.{Circuit, value, Small, InBounds}
use heu.Paillier.Examples.Integers.{plain_integers, plain_laws, scan, divisor, bits, all_powers}
use heu.Additive.Runs.{run}
use heu.Ou.Primes.{plain_tables, plain_tables-IsTables, scanned-IsOddPrime}
use heu.Dgk.Scheme.{operations, decrypt}
use heu.Dgk.KeyGenerator.{
  Draws, find_wp, find_wq, find_gp, find_gq, join_residues, fill_keys, generate_from,
}
use heu.Dgk.KeyGenerator.Correct.{decrypt-generate_dgk}
use heu.Ou.KeyGenerator.Generators.{IsOddPrime}
use heu.Ou.Cache.Interleavings.{IsMask}

p-IsOddPrime : IsOddPrime 31
unfolding all_powers
p-IsOddPrime = scanned-IsOddPrime 29 refl refl

q-IsOddPrime : IsOddPrime 29
unfolding all_powers
q-IsOddPrime = scanned-IsOddPrime 27 refl refl

u-IsOddPrime : IsOddPrime 3
unfolding all_powers
u-IsOddPrime = scanned-IsOddPrime 1 refl refl

-- The draws of 2 for wp, of 14 for wq, of 2 for gp and of 12 for gq are refused.
abbrev draws : Draws
draws = record {
  vp = pos 5;
  vq = pos 7;
  wps = pos 2 ∷ pos 1 ∷ [];
  wqs = pos 15 ∷ pos 2 ∷ [];
  gps = pos 2 ∷ pos 3 ∷ [];
  gqs = pos 12 ∷ pos 2 ∷ [];
}

abbrev is_prime : ℤ → Bool
is_prime x = pos_part x == 31 || pos_part x == 29

wp_found : find_wp plain_integers is_prime (pos (3 * 5)) (pos 7) draws.wps ≡ ok (pos 2)
unfolding find_wp ◌*ℤ◌ ◌+ℤ◌ scan divisor
wp_found = refl

wq_found : find_wq plain_integers is_prime (pos 7) (pos 5) draws.wqs ≡ ok (pos 4)
unfolding find_wq ◌*ℤ◌ ◌+ℤ◌ scan divisor
wq_found = refl

gp_found : find_gp plain_integers (pos 31) (pos 3) (pos 5) (pos 2) draws.gps ≡ ok (pos 3)
unfolding find_gp ◌*ℤ◌
gp_found = refl

gq_found : find_gq plain_integers (pos 29) (pos 7) (pos 4) draws.gqs ≡ ok (pos 2)
unfolding find_gq ◌*ℤ◌
gq_found = refl

h_filled :
    (fill_keys plain_integers (pos 3) draws (pos 2) (pos 4) (pos 31) (pos 29) (pos 3) (pos 2)).1.h
    ≡ pos 281
unfolding fill_keys join_residues scan divisor ◌*ℤ◌ ◌+ℤ◌ ◌-ℤ◌
h_filled = refl

abbrev mask : ℤ
mask = plain_tables.power (pos 899) (pos 281) 400 (pos 4)

mask-IsMask : IsMask plain_integers (31 * 29) 281 mask
mask-IsMask = (
  4,
  record {
    in_space = plain_laws.space_pow_in 281 4 899 (omega arith);
    is_power = plain_laws.space_pow_is 281 4 899 (omega arith);
  },
)

-- 1 - (1 + 1) * 1
abbrev circuit : Circuit
circuit =
    Circuit.plain_sub (pos 1)
      (Circuit.mul (Circuit.add (Circuit.encrypt (pos 1) 0) (Circuit.encrypt (pos 1) 1)) (pos 1))

circuit-InBounds : InBounds (3 / 2) circuit
unfolding InBounds
circuit-InBounds = ((omega arith, omega arith), omega arith)

circuit-Small : Small (3 / 2) (value circuit)
unfolding value ◌+ℤ◌ ◌-ℤ◌ ◌*ℤ◌
circuit-Small = omega arith

bits_enough : 3 ≤ 2 ^ plain_integers.bit_count (pos 3)
unfolding bits
bits_enough = omega arith

decrypt-generate_dgk_example :
    let (sk, pk) =
      fill_keys plain_integers (pos 3) draws (pos 2) (pos 4) (pos 31) (pos 29) (pos 3) (pos 2) in
    (generate_from plain_integers is_prime (pos 3) draws ≡ ok (sk, pk))
    × (ct : Ciphertext) × (run
          (operations plain_integers plain_tables pk (λ i. mask) (λ x k. mask))
          circuit
        ≡ ok ct)
    × (decrypt plain_integers plain_tables pk sk ct ≡ ok (value circuit))
decrypt-generate_dgk_example =
    decrypt-generate_dgk plain_integers plain_laws plain_tables plain_tables-IsTables is_prime 31 29
      3 5 7 2 4 3 2 281 p-IsOddPrime q-IsOddPrime u-IsOddPrime draws (λ i. mask) (λ x k. mask)
      circuit refl refl (omega arith) (omega arith) (omega arith) (omega arith) bits_enough refl
      refl wp_found wq_found gp_found gq_found h_filled (λ i. mask-IsMask) (λ x k. mask-IsMask)
      circuit-InBounds circuit-Small
