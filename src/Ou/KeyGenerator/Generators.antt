-- ===== src/Ou/KeyGenerator/Generators.antt =====
-- The arithmetic of the generators G and H of a key, for a prime p = tu + 1.
use heu.Base.{ℕ, ◌+◌, ◌-◌, ◌*◌, ◌/◌, ◌%◌, ◌^◌, ◌<◌, ◌≡◌, sym, ap, ◌∙◌, arith}
use native.Mathlib.Nat.{mul-pos, mod-lt, div-add-mod, div-lt_iff_lt-mul}
use heu.Base.Modular.{
  Cong, cong, cong_of_eq, cong_trans, cong_sym, cong_mod, cong_pow, cong_weaken, cong_unique,
  pow-mul, one_pow,
}
use heu.Paillier.Numbers.Encodings.{plain-pow}
use heu.Paillier.Numbers.Decoding.{div_exact}
use heu.Ou.Numbers.{Encodes}

-- What is documented of a prime: it is odd, Fermat's theorem holds, and every number that it does not
-- divide has an inverse.
pub record IsOddPrime (p : ℕ) : Type 0 where
  pub big : 1 < p
  pub odd : p / 2 * 2 + 1 ≡ p
  pub fermat : (x v : ℕ) → Cong p (x * v) 1 → Cong p (x ^ (p - 1)) 1
  pub inverse : (x : ℕ) → 0 < x % p → (v : ℕ) × Cong p (x * v) 1

module _ (p : ℕ) (prime : IsOddPrime p) where
  -- L(x^(p - 1) mod p^2)
  abbrev pub fermat_quotient : ℕ → ℕ
  fermat_quotient x = (x ^ (p - 1) % (p * p) - 1) / p

  module _ (x v : ℕ) (inv : Cong p (x * v) 1) where
    rest_one : x ^ (p - 1) % (p * p) % p ≡ 1
    rest_one =
        let positive : 0 < p = omega (arith, prime.big) in
        cong_unique (mod-lt _ positive) prime.big (
          cong_trans (cong_mod p _)
            (cong_trans (cong_weaken p (cong_mod (p * p) _)) (prime.fermat x v inv)))

    pub power_shape : x ^ (p - 1) % (p * p) ≡ 1 + p * fermat_quotient x
    power_shape =
        let y = x ^ (p - 1) % (p * p) in
        let split : y ≡ 1 + p * (y / p) = omega (arith, div-add-mod y p, rest_one) in
        let quotient : (y - 1) / p ≡ y / p =
          ap (λ (t : ℕ). (t - 1) / p) split ∙ div_exact p (y / p) prime.big in
        split ∙ ap (λ (t : ℕ). 1 + p * t) (sym quotient)

    pub power_fermat : Cong (p * p) (x ^ (p - 1)) (1 + p * fermat_quotient x)
    power_fermat = cong_trans (cong_sym (cong_mod (p * p) _)) (cong_of_eq _ power_shape)

    pub quotient-lt : fermat_quotient x < p
    quotient-lt =
        let positive : 0 < p = omega (arith, prime.big) in
        let small = mod-lt (x ^ (p - 1)) (mul-pos positive positive) in
        (div-lt_iff_lt-mul positive).1 (omega arith)

    -- The power with the exponent p(p - 1) is 1.
    pub euler_square : Cong (p * p) ((x ^ (p - 1)) ^ p) 1
    euler_square =
        cong_trans (cong_pow p power_fermat) (
          cong_trans (plain-pow p (fermat_quotient x) p) (cong 0 (fermat_quotient x) (omega arith)))

    -- G^t, where u * t = p - 1.
    pub generator-Encodes :
        (q t u i : ℕ)
        → t * u + 1 ≡ p
        → Cong (p * p * q) (x ^ u % (p * p * q) * i) 1
        → Encodes p q t (fermat_quotient x) 1 (x ^ u % (p * p * q))
    generator-Encodes q t u i order unit = record {
      inverse = i;
      inverse_is = unit;
      shape = cong_trans (cong_weaken q (cong_pow t (cong_mod (p * p * q) (x ^ u)))) (
          cong_trans (cong_of_eq (p * p) (exponent t u order))
            (cong_trans power_fermat (cong_of_eq (p * p) (omega arith))));
    }
      where
        exponent : (t u : ℕ) → t * u + 1 ≡ p → (x ^ u) ^ t ≡ x ^ (p - 1)
        exponent t u order = sym (pow-mul x u t) ∙ ap (λ (e : ℕ). x ^ e) (omega arith)

    -- H^t is 1, since the exponent holds the factor p^2 q.
    pub other-Encodes :
        (q t u k i : ℕ)
        → t * u + 1 ≡ p
        → Cong (p * p * q) (x ^ (p * p * q * u) % (p * p * q) * i) 1
        → Encodes p q t k 0 (x ^ (p * p * q * u) % (p * p * q))
    other-Encodes q t u k i order unit = record {
      inverse = i;
      inverse_is = unit;
      shape = cong_trans (cong_weaken q (cong_pow t (cong_mod (p * p * q) (x ^ (p * p * q * u))))) (
          cong_trans (cong_of_eq (p * p) (exponent t u order)) (
            cong_trans (cong_pow (p * q) euler_square)
              (cong_of_eq (p * p) (one_pow (p * q) ∙ omega arith))));
    }
      where
        exponent :
            (t u : ℕ) → t * u + 1 ≡ p → (x ^ (p * p * q * u)) ^ t ≡ ((x ^ (p - 1)) ^ p) ^ (p * q)
        exponent t u order =
            let less : t * u ≡ p - 1 = omega arith in
            let same : p * p * q * u * t ≡ (p - 1) * p * (p * q) =
              omega (arith, ap (λ (e : ℕ). p * p * q * e) less) in
            sym (pow-mul x (p * p * q * u) t)
            ∙ (ap (λ (e : ℕ). x ^ e) same
                ∙ (pow-mul x ((p - 1) * p) (p * q)
                    ∙ ap (λ (e : ℕ). e ^ (p * q)) (pow-mul x (p - 1) p)))
