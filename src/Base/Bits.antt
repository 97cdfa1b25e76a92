-- ===== src/Base/Bits.antt =====
-- `bit_and` digit by digit, at every value.
use Prim.Native.Nat.{
  ℕ, zero, suc, ◌+◌, ◌*◌, ◌/◌, ◌%◌, ◌<◌, ◌≤◌, min, digits, bit_and, bit_and-bitwise,
}
use mathlib.Core.Path.{◌≡◌, refl}
use mathlib.Core.WellFounded
use native.Mathlib.Omega.{arith}
use heu.Base.Order.{lt_wf}

abbrev digits_and : ℕ → ℕ → ℕ → ℕ
digits_and fuel y x = digits (λ z. zero) min fuel x y

-- Fuel beyond the first operand makes no difference.
digits_and_enough : (f y g x : ℕ) → (x ≤ f) × (x ≤ g) → digits_and f y x ≡ digits_and g y x
digits_and_enough zero y zero zero (le, le') = refl
digits_and_enough (suc f) y zero zero (le, le') = refl
digits_and_enough zero y (suc g) zero (le, le') = refl
digits_and_enough (suc f) y (suc g) zero (le, le') = refl
digits_and_enough zero y g (suc x) (le, le') = absurd (omega arith)
digits_and_enough (suc f) y zero (suc x) (le, le') = absurd (omega arith)
digits_and_enough (suc f) y (suc g) (suc x) (le, le') =
    let rest : digits_and f (y / 2) (suc x / 2) ≡ digits_and g (y / 2) (suc x / 2) =
      digits_and_enough f (y / 2) g (suc x / 2) (omega arith, omega arith) in
    omega (arith, rest)

bit_and_none : (y : ℕ) → bit_and 0 y ≡ 0
bit_and_none y = bit_and-bitwise 0 y

-- The lowest digit of `x & y` is the smaller of the lowest digits.
pub bit_and_step : (x y : ℕ) → bit_and x y ≡ min (x % 2) (y % 2) + bit_and (x / 2) (y / 2) * 2
bit_and_step zero y = omega (arith, bit_and_none y, bit_and_none (y / 2))
bit_and_step (suc x) y =
    let enough = digits_and_enough x (y / 2) (suc x / 2) (suc x / 2) (omega arith, omega arith) in
    omega (arith, enough, bit_and-bitwise (suc x / 2) (y / 2), bit_and-bitwise (suc x) y)

pub bit_and_self : (a : ℕ) → bit_and a a ≡ a
bit_and_self a = WellFounded.induction lt_wf {C = λ n. bit_and n n ≡ n} a step
  where
    step : (n : ℕ) → ((m : ℕ) → m < n → bit_and m m ≡ m) → bit_and n n ≡ n
    step zero ih = bit_and_none 0
    step (suc n) ih = omega (arith, bit_and_step (suc n) (suc n), ih (suc n / 2) (omega arith))
