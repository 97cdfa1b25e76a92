-- ===== src/Ou/Primes.antt =====
-- Odd primes, found by looking at every residue, and tables without precomputation.
use heu.Base.{
  ℕ, ◌+◌, ◌-◌, ◌*◌, ◌/◌, ◌%◌, ◌^◌, ◌<◌, ◌≡◌, refl, sym, ap, ◌∙◌, suc, true, inl, inr, ◌⊎◌, arith,
}
use native.Mathlib.Nat.{mod-lt, mod-mod, pow-suc}
use heu.Base.Modular.{
  Cong, cong_of_eq, cong_sym, cong_trans, cong_pow, cong_mod, cong_mul_right, cong_unique,
  cong_of_mod,
}
use heu.Paillier.Examples.Integers.{
  plain_integers, plain_laws, all_powers, all_powers_lem, one_apart,
}
use heu.Additive.Tables.{Tables, IsTables}
use heu.Ou.KeyGenerator.Generators.{IsOddPrime}

abbrev pub plain_tables : Tables
plain_tables = record { power = λ m a bits e. plain_integers.space_pow m a e }

pub plain_tables-IsTables : IsTables plain_integers plain_tables
plain_tables-IsTables = record {
  power_is = λ a bits e m h k. plain_laws.space_pow_is a e m h;
  power_in = λ a bits e m h k. plain_laws.space_pow_in a e m h;
}

module _ (k : ℕ) (odd : (k + 2) / 2 * 2 + 1 ≡ k + 2)
    (scanned : all_powers (k + 2) (k + 2) (k + 2) (k + 2 - 1) ≡ true) where
  abbrev m : ℕ
  m = k + 2

  -- Each residue is divisible by m, or its power is 1.
  full_power : (x : ℕ) → (x % m ≡ 0) ⊎ Cong m (x ^ (k + 2 - 1)) 1
  full_power x =
      elim (all_powers_lem m m m (m - 1) (x % m) scanned (mod-lt x {m = k + 2} (omega arith))) [
        | inl divisible ↦ inl (sym (mod-mod x m) ∙ divisible)
        | inr power ↦ inr (
            cong_trans (cong_pow (m - 1) (cong_sym (cong_mod m x)))
              (cong_of_mod m ((x % m) ^ (m - 1)) 1 power))
      ]

  pub scanned-IsOddPrime : IsOddPrime (k + 2)
  scanned-IsOddPrime = record { big = omega arith; odd = odd; fermat = fermat; inverse = inverse }
    where
      fermat : (x v : ℕ) → Cong m (x * v) 1 → Cong m (x ^ (k + 2 - 1)) 1
      fermat x v inv = elim (full_power x) [
        | inr power ↦ power
        | inl divisible ↦
            let none_x : Cong m x 0 =
              cong_trans (cong_sym (cong_mod m x)) (cong_of_eq m divisible) in
            let one_none : Cong m 1 0 =
              cong_trans (cong_sym inv)
                (cong_trans (cong_mul_right v none_x) (cong_of_eq m {a = 0 * v} (omega arith))) in
            absurd
              (one_apart 1 0 refl refl (cong_unique {m = m} (omega arith) (omega arith) one_none))
      ]

      inverse : (x : ℕ) → 0 < x % m → (v : ℕ) × Cong m (x * v) 1
      inverse x some_x = elim (full_power x) [
        | inl divisible ↦ absurd (omega arith)
        | inr power ↦ (
          x ^ k,
          let counted : k + 2 - 1 ≡ suc k = omega arith in
              cong_trans (cong_of_eq m (omega (arith, pow-suc x k, ap (λ (t : ℕ). x ^ t) counted)))
                power,
        )
      ]
