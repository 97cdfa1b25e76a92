-- ===== src/MockFhe/Degree.antt =====
-- What the constructor of the mock evaluator (mock_fhe/evaluator.cc, spi/utils/math_tool.h) checks.
use heu.Base.{
  ℕ, zero, suc, ◌+◌, ◌*◌, ◌-◌, ◌/◌, ◌%◌, ◌^◌, ◌<◌, ◌≤◌, ◌≡◌, ◌↔◌, ◌≢◌, refl, sym, ap, ap₂, ◌∙◌,
  true, not, Bool, ◌&&◌, ◌==◌, ok, enforce-eq-ok, >>=-eq-ok, Bool-cases, ◌⊎◌, inl, inr, arith,
}
use Prim.Native.Nat.{bit_and}
use mathlib.Core.WellFounded
use native.Mathlib.Nat.{pow-suc, one-le-pow, pow-le-pow_right}
use native.Mathlib.Decide.{dec_le}
use heu.Base.Order.{lt_wf}
use heu.Base.Bits.{bit_and_step, bit_and_self}
use heu.Spi.Schema.{Schema}
use heu.MockFhe.Evaluator.{Evaluator, create, is_power_of_2}

abbrev IsPower : ℕ → Type 0
IsPower x = (k : ℕ) × (x ≡ 2 ^ k)

-- The bits of an even number and its predecessor meet where those of the halves do.
bit_and_pred_even : (y : ℕ) → bit_and (suc y * 2) (suc y * 2 - 1) ≡ bit_and (suc y) y * 2
bit_and_pred_even y =
    bit_and_step (suc y * 2) (suc y * 2 - 1) ∙ omega (arith, ap₂ bit_and first second)
  where
    first : suc y * 2 / 2 ≡ suc y
    first = omega arith

    second : (suc y * 2 - 1) / 2 ≡ y
    second = omega arith

bit_and_pred_odd : (y : ℕ) → bit_and (suc (y * 2)) (y * 2) ≡ y * 2
bit_and_pred_odd y =
    bit_and_step (suc (y * 2)) (y * 2) ∙ omega (arith, ap₂ bit_and first second, bit_and_self y)
  where
    first : suc (y * 2) / 2 ≡ y
    first = omega arith

    second : y * 2 / 2 ≡ y
    second = omega arith

odd-IsPower : (y : ℕ) → bit_and (suc (y * 2)) (suc (y * 2) - 1) ≡ 0 → IsPower (suc (y * 2))
odd-IsPower y h =
    let pred : suc (y * 2) - 1 ≡ y * 2 = omega arith in
    let z : y * 2 ≡ 0 = sym (bit_and_pred_odd y) ∙ rw pred at h in (0, omega arith)

even-IsPower : (y : ℕ) → IsPower (suc y) → IsPower (suc y * 2)
even-IsPower y (k, e) = (suc k, omega (arith, pow-suc 2 k))

even_bits : (y : ℕ) → bit_and (suc y * 2) (suc y * 2 - 1) ≡ 0 → bit_and (suc y) (suc y - 1) ≡ 0
even_bits y h =
    let pred : suc y - 1 ≡ y = omega arith in rw pred (omega (arith, bit_and_pred_even y))

parity : (x : ℕ) → x ≢ 0 → ((y : ℕ) × (x ≡ suc (y * 2))) ⊎ ((y : ℕ) × (x ≡ suc y * 2))
parity x ne = elim (Bool-cases (x % 2 == 1)) [
  | inl odd ↦ inl (x / 2, ground arith)
  | inr even ↦ inr (x / 2 - 1, ground arith)
]

IsPower-of_bits : (x : ℕ) → bit_and x (x - 1) ≡ 0 → x ≢ 0 → IsPower x
IsPower-of_bits x =
    WellFounded.induction lt_wf {C = λ n. bit_and n (n - 1) ≡ 0 → n ≢ 0 → IsPower n} x λ n ih h ne.
      elim (parity n ne) [
        | inl (y, e) ↦ rw e (odd-IsPower y (rw e at h))
        | inr (y, e) ↦
            rw e (
              even-IsPower y
                (ih (suc y) (omega arith) (even_bits y (rw e at h)) (λ z. omega arith)))
      ]

bits_of_power : (k : ℕ) → bit_and (2 ^ k) (2 ^ k - 1) ≡ 0
bits_of_power zero = refl
bits_of_power (suc k) =
    let e : 2 ^ suc k ≡ suc (2 ^ k - 1) * 2 = omega (arith, pow-suc 2 k, one-le-pow k 2) in
    let f : suc (2 ^ k - 1) ≡ 2 ^ k = omega (arith, one-le-pow k 2) in
    rw e (bit_and_pred_even (2 ^ k - 1) ∙ rw f (omega (arith, bits_of_power k)))

-- The test accepts the powers of two and nothing else.
pub is_power_of_2_iff : (x : ℕ) → (is_power_of_2 x ≡ true) ↔ ((k : ℕ) × (x ≡ 2 ^ k))
unfolding is_power_of_2
is_power_of_2_iff x = (forth, back)
  where
    forth : (not (x == 0) && bit_and x (x - 1) == 0) ≡ true → IsPower x
    forth h = IsPower-of_bits x (ground arith) (ground arith)

    back : IsPower x → (not (x == 0) && bit_and x (x - 1) == 0) ≡ true
    back (k, e) = rw e (ground (arith, bits_of_power k, one-le-pow k 2))

-- What the constructor establishes.
pub record IsBuilt (e : Evaluator) : Type 0 where
  pub exponent : ℕ
  pub is_power : e.poly_degree ≡ 2 ^ exponent
  pub halved : e.half_degree ≡ e.poly_degree / 2

create_power :
    (n : ℕ) (s : Schema) (scale : ℕ) (r g b : Bool) (e : Evaluator)
    → create n s scale r g b ≡ ok e
    → is_power_of_2 n ≡ true
unfolding create
create_power n s scale r g b e h = enforce-eq-ok _ _ (>>=-eq-ok _ _ h).1

create_fields :
    (n : ℕ) (s : Schema) (scale : ℕ) (r g b : Bool) (e : Evaluator)
    → create n s scale r g b ≡ ok e
    → (e.poly_degree ≡ n) × (e.half_degree ≡ n / 2) × (e.schema ≡ s) × (e.glk ≡ g) × (e.rlk ≡ r)
unfolding create
create_fields n s scale r g b e h = ground arith

-- Every evaluator that the constructor lets through has a power of two as its degree.
pub create-IsBuilt :
    (n : ℕ) (s : Schema) (scale : ℕ) (r g b : Bool) (e : Evaluator)
    → create n s scale r g b ≡ ok e
    → IsBuilt e
create-IsBuilt n s scale r g b e h =
    let (k, p) = (is_power_of_2_iff n).0 (create_power n s scale r g b e h) in
    let f = create_fields n s scale r g b e h in
    record { exponent = k; is_power = f.0 ∙ p; halved = rw f.0 f.1 }

-- A product of powers of two.
pow_add : (m n : ℕ) → 2 ^ (m + n) ≡ 2 ^ m * 2 ^ n
pow_add m zero = let e : m + 0 ≡ m = omega arith in rw e (omega arith)
pow_add m (suc n) =
    let e : m + suc n ≡ suc (m + n) = omega arith in
    rw e (omega (arith, pow-suc 2 (m + n), ap (λ (t : ℕ). 2 ^ m * t) (pow-suc 2 n), pow_add m n))

exponent_below : (k : ℕ) → 2 ^ k < 2 ^ 64 → k ≤ 64
exponent_below k h = elim (dec_le k 64) [
  | yes p ↦ p
  | no p ↦
      absurd (omega (arith, pow-le-pow_right {n = 2} (omega arith) {i = 64} {j = k} (omega arith)))
]

-- Two rows fill the vector, and the row length divides 2 ^ 64.
pub IsBuilt-rows :
    (e : Evaluator)
    → IsBuilt e
    → 0 < e.half_degree
    → e.poly_degree < 2 ^ 64
    → (e.poly_degree ≡ 2 * e.half_degree) × (q : ℕ) × (2 ^ 64 ≡ e.half_degree * suc q)
IsBuilt-rows e w pos small = go w.exponent w.is_power
  where
    go :
        (k : ℕ)
        → e.poly_degree ≡ 2 ^ k
        → (e.poly_degree ≡ 2 * e.half_degree) × (q : ℕ) × (2 ^ 64 ≡ e.half_degree * suc q)
    go zero p = absurd (omega (arith, w.halved))
    go (suc k) p =
        let half : e.half_degree ≡ 2 ^ k = omega (arith, w.halved, pow-suc 2 k) in
        let below : k ≤ 64 = exponent_below k (omega (arith, w.halved, pow-suc 2 k)) in
        let rest : suc (2 ^ (64 - k) - 1) ≡ 2 ^ (64 - k) = omega (arith, one-le-pow (64 - k) 2) in
        let sum : k + (64 - k) ≡ 64 = omega arith in
        (
          omega (arith, pow-suc 2 k),
          2 ^ (64 - k) - 1,
          rw (half, rest, ← pow_add k (64 - k), sum) refl,
        )
