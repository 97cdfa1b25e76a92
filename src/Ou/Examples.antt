-- ===== src/Ou/Examples.antt =====
-- The scheme of ou with p = 7 = 3 * 2 + 1 and q = 5, and two threads that share a cache.
use heu.Base.{
  ℕ, ◌+◌, ◌*◌, ◌/◌, ◌%◌, ◌^◌, ◌<◌, ◌≤◌, ◌≡◌, ◌==◌, leb, refl, Bool, true, [], ◌∷◌, ok, ◌⊎◌, none,
  arith,
}
use heu.Base.Int.{ℤ, pos, negsuc, pos_part, ◌+ℤ◌, ◌-ℤ◌, ◌*ℤ◌}
use heu.Base.Modular.{cong}
use heu.Paillier.Scheme.{Ciphertext}
use heu.Paillier.Scheme.Circuit.{Circuit, value, Small, InBounds}
use heu.Paillier.Examples.Integers.{plain_integers, plain_laws, scan, divisor, bits, all_powers}
use heu.Additive.Runs.{run}
use heu.Ou.Primes.{plain_tables, plain_tables-IsTables, scanned-IsOddPrime}
use heu.Ou.Keys.{PublicKey, SecretKey, message_bits, one_less}
use heu.Ou.Scheme.{operations, decrypt, create_decryptor}
use heu.Ou.Cache.{new_cache, read_cache, drawn_bits, reset}
use heu.Ou.Cache.Interleavings.{
  System, Reach, start, next, enter, leave, IsPower, IsMask, All, Reach-IsMask, after_enter,
  after_leave,
}
use heu.Ou.KeyGenerator.{Draws, prime_factor_size, find_p, find_g, find_other, generate}
use heu.Ou.KeyGenerator.Generators.{IsOddPrime}
use heu.Ou.KeyGenerator.Loops.{find_g_first}
use heu.Ou.KeyGenerator.Correct.{decrypt-generate_ou}

seven-IsOddPrime : IsOddPrime 7
unfolding all_powers
seven-IsOddPrime = scanned-IsOddPrime 5 refl refl

-- The draws of 5 * 1 for p, of 7 for g and of 14 for g' are refused.
abbrev draws : Draws
draws = record {
  factors = (pos 5, pos 1) ∷ (pos 3, pos 2) ∷ [];
  q = pos 5;
  generators = pos 7 ∷ pos 3 ∷ [];
  others = pos 14 ∷ pos 2 ∷ [];
}

abbrev is_seven : ℤ → Bool
is_seven x = pos_part x == 7

factors_found : find_p is_seven draws.factors ≡ ok (pos 3, pos 2)
unfolding find_p ◌*ℤ◌ ◌+ℤ◌
factors_found = refl

generator_found : find_g plain_integers (pos 7) (pos 49) draws.generators ≡ ok (pos 3)
unfolding find_g scan divisor ◌-ℤ◌
generator_found = refl

other_found : find_other plain_integers (pos 7) draws.others ≡ ok (pos 2)
unfolding find_other
other_found = refl

size_allowed : leb (prime_factor_size 960 * 2) ((960 + 2) / 3) ≡ true
unfolding prime_factor_size
size_allowed = refl

abbrev capital_h : ℕ
capital_h = 2 ^ (7 * 7 * 5 * 2) % (7 * 7 * 5)

abbrev mask : ℕ → ℤ
mask i = plain_tables.power (pos (7 * 7 * 5)) (pos capital_h) 128 (pos 4)

mask-IsMask : (i : ℕ) → IsMask plain_integers (7 * 7 * 5) capital_h (mask i)
mask-IsMask i = (
  4,
  record {
    in_space = plain_laws.space_pow_in capital_h 4 (7 * 7 * 5) (omega arith);
    is_power = plain_laws.space_pow_is capital_h 4 (7 * 7 * 5) (omega arith);
  },
)

-- 1 - (1 + 1) * -1
abbrev circuit : Circuit
circuit =
    Circuit.plain_sub (pos 1)
      (Circuit.mul (Circuit.add (Circuit.encrypt (pos 1) 0) (Circuit.encrypt (pos 1) 1)) (negsuc 0))

circuit-InBounds : InBounds 1 circuit
unfolding InBounds
circuit-InBounds = ((omega arith, omega arith), omega arith)

circuit-Small : Small (7 / 2) (value circuit)
unfolding value ◌+ℤ◌ ◌-ℤ◌ ◌*ℤ◌
circuit-Small = omega arith

bound_reached : 1 ≤ 2 ^ one_less (plain_integers.bit_count (pos (7 / 2)))
unfolding bits
bound_reached = omega arith

bits_reached :
    1
    < 2 ^ message_bits plain_integers (pos (2 ^ one_less (plain_integers.bit_count (pos (7 / 2)))))
unfolding bits message_bits
bits_reached = omega arith

decrypt-generate_ou_example :
    (sk : SecretKey) × (pk : PublicKey) × (generate plain_integers is_seven 960 draws ≡ ok (sk, pk))
    × (create_decryptor pk sk ≡ ok (pk, sk))
    × (ct : Ciphertext) × (run (operations plain_integers plain_tables pk mask) circuit ≡ ok ct)
    × (decrypt plain_integers plain_tables pk sk ct ≡ ok (value circuit))
decrypt-generate_ou_example =
    decrypt-generate_ou plain_integers plain_laws plain_tables plain_tables-IsTables is_seven 7 5 3
      2 3 82 2 123 1 960 seven-IsOddPrime draws mask circuit refl (omega arith)
      (cong 0 1 (omega arith)) (cong 0 1 (omega arith)) (λ e. omega arith) size_allowed
      factors_found refl generator_found other_found mask-IsMask bound_reached bits_reached
      circuit-InBounds circuit-Small

find_g_first_example : find_g plain_integers (pos 7) (pos 49) (pos 3 ∷ []) ≡ ok (pos 3)
unfolding scan divisor
find_g_first_example = find_g_first plain_integers plain_laws 7 seven-IsOddPrime 3 [] refl

abbrev public : PublicKey
public = record {
  n = pos 245;
  capital_g = pos 9;
  capital_h = pos capital_h;
  capital_g_inv = pos 109;
  max_plaintext = pos 2;
}

-- Both threads read the cache before one of them stores its power.
abbrev both_in : System
both_in =
    after_enter plain_integers plain_tables public
      (after_enter plain_integers plain_tables public
        (record { cache = new_cache; seen = λ i. none; returned = [] }) 0)
      1

must_reset : read_cache plain_integers plain_tables public new_cache ≡ reset
unfolding read_cache bits
must_reset = refl

few_bits : 9 < 2 ^ drawn_bits plain_integers plain_tables public reset
unfolding drawn_bits
few_bits = omega arith

abbrev one_out : System
one_out = after_leave plain_integers plain_tables public both_in 0 reset 9

threads : Reach plain_integers plain_tables public one_out
unfolding read_cache bits
threads = next (next (next start (enter 0 refl)) (enter 1 refl)) (leave 0 reset 9 refl few_bits)

no_bits_of_zero : plain_integers.bit_count (pos 0) ≡ 0
unfolding bits
no_bits_of_zero = refl

Reach-IsMask_example :
    All (IsMask plain_integers 245 capital_h) one_out.returned
    × ((one_out.cache.cache_r ≡ pos 0)
        ⊎ (e : ℕ) × (one_out.cache.cache_r ≡ pos e)
          × IsPower plain_integers 245 capital_h e one_out.cache.cache_hr)
Reach-IsMask_example =
    Reach-IsMask plain_integers plain_laws plain_tables plain_tables-IsTables 245 capital_h
      (omega arith) public refl refl no_bits_of_zero threads
