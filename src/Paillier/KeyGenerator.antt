-- ===== src/Paillier/KeyGenerator.antt =====
-- paillier_zahlen/key_generator.cc. What the random sources give is a list; an empty one gives
-- nothing more.
pub mod Invertible
pub mod Correct
use heu.Base.{
  ℕ, ◌+◌, ◌-◌, ◌*◌, ◌/◌, ◌%◌, ◌^◌, Bool, not, ◌||◌, List, [], ◌∷◌, ltb, ◌==◌, if◌then◌else◌, Result,
  ok, err, ◌>>=◌, ◌>>◌, enforce,
}
use heu.Base.{out_of_draws, illegal_input}
use heu.Base.Int.{ℤ, pos, neg_ℤ, ◌+ℤ◌, ◌-ℤ◌, ◌*ℤ◌}
use heu.Paillier.BigInts.{BigInts}
use heu.Paillier.Keys.{PublicKey, SecretKey, init_public, init_secret, pow_mod_n_square_crt}
use heu.Paillier.Scheme.{same_int}

module _ (b : BigInts) where
  -- key_size / 2 - kPQDifferenceBitLenSub, of the type size_t.
  abbrev least_difference : ℕ → ℕ
  least_difference key_size = (key_size / 2 + 2 ^ 64 - 2) % 2 ^ 64

  -- The inner loop, for the second prime.
  unfoldable pub find_q : ℕ → ℤ → List ℤ → Result ℤ
  find_q key_size p [] = err out_of_draws
  find_q key_size p (q ∷ draws) =
      let rest = find_q key_size p draws in
      let c = b.gcd (p -ℤ pos 1) (q -ℤ pos 1) in
      if not (same_int c (pos 2)) || ltb (b.bit_count (p -ℤ q)) (least_difference key_size)
      then rest
      else ok q

  -- The outer loop; each first prime comes with the draws for the second.
  unfoldable pub find_pq : ℕ → List (ℤ × List ℤ) → Result (ℤ × ℤ)
  unfolding find_q
  find_pq key_size [] = err out_of_draws
  find_pq key_size ((p, q_draws) ∷ draws) =
      let rest = find_pq key_size draws in
      do
        q ← find_q key_size p q_draws
        if ltb (b.bit_count (p *ℤ q)) key_size then rest else ok (p, q)

  unfoldable pub find_x : ℤ → List ℤ → Result ℤ
  find_x n [] = err out_of_draws
  find_x n (x ∷ draws) =
      let rest = find_x n draws in if not (same_int (b.gcd x n) (pos 1)) then rest else ok x

  unfoldable pub fill_keys : ℤ → ℤ → ℤ → SecretKey × PublicKey
  fill_keys p q x =
      let n = p *ℤ q in
      let h = neg_ℤ (b.mul_mod x x n) in
      let lambda = b.div ((p -ℤ pos 1) *ℤ (q -ℤ pos 1)) (pos 2) in
      let mu = b.inv_mod lambda n in
      let sk = init_secret b lambda mu p q in
      let h_s = pow_mod_n_square_crt b sk h n in (sk, init_public b n h_s)

  unfoldable pub generate : ℕ → List (ℤ × List ℤ) → List ℤ → Result (SecretKey × PublicKey)
  unfolding find_pq find_x fill_keys
  generate key_size prime_draws x_draws = do
    enforce (key_size % 2 == 0) illegal_input
    primes ← find_pq key_size prime_draws
    x ← find_x (primes.0 *ℤ primes.1) x_draws
    ok (fill_keys primes.0 primes.1 x)
