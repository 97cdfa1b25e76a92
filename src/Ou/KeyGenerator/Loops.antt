-- ===== src/Ou/KeyGenerator/Loops.antt =====
-- The loop for g: what its second test does.
use heu.Base.{ℕ, ◌-◌, ◌*◌, ◌%◌, ◌^◌, ◌<◌, ◌≡◌, refl, ◌∙◌, ◌≤◌, List, ◌∷◌, ok, arith}
use native.Mathlib.Nat.{mul-pos, mod-eq_of_lt, mul-le-mul_left}
use heu.Base.Int.{ℤ, pos}
use heu.Base.Modular.{cong_trans, cong_mod, cong_pow, cong_of_mod, mod_of_cong}
use heu.Paillier.BigInts.{BigInts, IsBigInts}
use heu.Paillier.Keys.Derived.{pos_sub}
use heu.Ou.KeyGenerator.{find_g}
use heu.Ou.KeyGenerator.Generators.{IsOddPrime, euler_square}

-- For big integers as documented and an odd prime p: the first drawn number that is prime to p is
-- accepted, so the second test, by the power with the exponent p, never repeats the loop.
pub find_g_first :
    (b : BigInts) (laws : IsBigInts b) (p : ℕ) (prime : IsOddPrime p) (g : ℕ) (draws : List ℤ)
    → b.gcd (pos g) (pos p) ≡ pos 1
    → find_g b (pos p) (pos (p * p)) (pos g ∷ draws) ≡ ok (pos g)
unfolding find_g
find_g_first b laws p prime g draws coprime =
    let some_p : 0 < p = omega (arith, prime.big) in
    let square : 0 < p * p = mul-pos some_p some_p in
    let (v, inv) = laws.gcd_is g p some_p coprime in
    let y = (g % (p * p)) ^ (p - 1) % (p * p) in
    let power =
      cong_trans
        (cong_pow p (cong_trans (cong_mod (p * p) _) (cong_pow (p - 1) (cong_mod (p * p) g))))
        (euler_square p prime g v (cong_of_mod p _ _ inv)) in
    let more : p * 1 ≤ p * p = mul-le-mul_left p some_p in
    let one : 1 < p * p = omega (arith, prime.big) in
    let check : y ^ p % (p * p) ≡ 1 = mod_of_cong square power ∙ mod-eq_of_lt one in
    rw
      (
        coprime,
        laws.rem_is (pos g) (p * p) square,
        pos_sub p 1 some_p,
        laws.pow_mod_is (g % (p * p)) (p - 1) (p * p) square,
        laws.pow_mod_is y p (p * p) square,
        check,
      )
      refl
