-- ===== src/Ou/KeyGenerator.antt =====
-- ou/key_generator.cc. What the random sources give is a list; an empty one gives nothing more. The
-- test of primes is that of the big integers.
pub mod Generators
pub mod Correct
pub mod Loops
use heu.Base.{
  ℕ, ◌+◌, ◌-◌, ◌*◌, ◌/◌, ◌%◌, ◌^◌, Bool, not, ◌||◌, List, [], ◌∷◌, leb, ◌==◌, if◌then◌else◌, Result,
  ok, err, ◌>>=◌, ◌>>◌, enforce,
}
use heu.Base.{out_of_draws, illegal_input}
use heu.Base.Int.{ℤ, pos, ◌+ℤ◌, ◌-ℤ◌, ◌*ℤ◌}
use heu.Paillier.BigInts.{BigInts}
use heu.Paillier.Scheme.{same_int}
use heu.Ou.Keys.{PublicKey, SecretKey, init_public, one_less}

-- kPrimeFactorSize1024 and the others, by the size of the key.
unfoldable pub prime_factor_size : ℕ → ℕ
prime_factor_size key_size =
    if leb 3072 key_size then 256 else if leb 2048 key_size then 224 else 160

-- What the random sources give: the pairs of prime_factor and u, q, the numbers g and the numbers g'.
pub record Draws : Type 0 where
  pub factors : List (ℤ × ℤ)
  pub q : ℤ
  pub generators : List ℤ
  pub others : List ℤ

-- The loop for p = prime_factor * u + 1.
unfoldable pub find_p : (ℤ → Bool) → List (ℤ × ℤ) → Result (ℤ × ℤ)
find_p is_prime [] = err out_of_draws
find_p is_prime ((prime_factor, u) ∷ draws) =
    let rest = find_p is_prime draws in
    if not (is_prime (prime_factor *ℤ u +ℤ pos 1)) then rest else ok (prime_factor, u)

module _ (b : BigInts) where
  -- The two loops for g, of which the inner one repeats without the powers.
  unfoldable pub find_g : ℤ → ℤ → List ℤ → Result ℤ
  find_g p p2 [] = err out_of_draws
  find_g p p2 (g ∷ draws) =
      let rest = find_g p p2 draws in
      let gp = b.pow_mod (b.rem g p2) (p -ℤ pos 1) p2 in
      let check = b.pow_mod gp p p2 in
      if not (same_int (b.gcd g p) (pos 1)) || not (same_int check (pos 1)) then rest else ok g

  -- The loop for g'.
  unfoldable pub find_other : ℤ → List ℤ → Result ℤ
  find_other p [] = err out_of_draws
  find_other p (g ∷ draws) =
      let rest = find_other p draws in if same_int (b.rem g p) (pos 0) then rest else ok g

  unfoldable pub fill_secret : ℤ → ℤ → ℤ → ℤ → SecretKey
  fill_secret prime_factor p q g =
      let p2 = p *ℤ p in
      let gp = b.pow_mod (b.rem g p2) (p -ℤ pos 1) p2 in
      record {
        p = p;
        q = q;
        t = prime_factor;
        gp_inv = b.inv_mod (b.div (gp -ℤ pos 1) p) p;
        p2 = p2;
        p_half = b.shift_right p 1;
        n = p2 *ℤ q;
      }

  unfoldable pub fill_public : SecretKey → ℤ → ℤ → ℤ → PublicKey
  fill_public sk u g other =
      init_public b sk.n (b.pow_mod g u sk.n) (b.pow_mod other (sk.n *ℤ u) sk.n)
        (pos (2 ^ one_less (b.bit_count sk.p_half)))

  unfoldable pub generate : (ℤ → Bool) → ℕ → Draws → Result (SecretKey × PublicKey)
  generate is_prime key_size draws = do
    enforce (leb (prime_factor_size key_size * 2) ((key_size + 2) / 3)) illegal_input
    factor ← find_p is_prime draws.factors
    let p = factor.0 *ℤ factor.1 +ℤ pos 1
    g ← find_g p (p *ℤ p) draws.generators
    other ← find_other p draws.others
    let sk = fill_secret factor.0 p draws.q g
    ok (sk, fill_public sk factor.1 g other)
