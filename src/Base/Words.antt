-- ===== src/Base/Words.antt =====
-- int64_t and uint64_t as bit patterns below 2 ^ 64, in two's complement. The sum, difference,
-- product and negation of the patterns are the same for both types; an overflow that C++ leaves
-- undefined for int64_t wraps here, as it does on the compilers that HEU supports.
use heu.Base.Tests.{leb, if◌then◌else◌}
use Prim.Native.Nat.{ℕ, ◌+◌, ◌-◌, ◌*◌, ◌/◌, ◌%◌, ◌^◌, ◌<◌}
use mathlib.Core.Bool.{Bool, xor}
use mathlib.Core.Path.{◌≡◌, sym, ◌∙◌, ap}
use native.Mathlib.Nat
use native.Mathlib.Omega.{arith}

abbrev pub u64 : ℕ
u64 = 2 ^ 64

unfoldable pub add64 : ℕ → ℕ → ℕ
add64 a b = (a + b) % u64

unfoldable pub sub64 : ℕ → ℕ → ℕ
sub64 a b = (a + (u64 - b % u64)) % u64

unfoldable pub neg64 : ℕ → ℕ
neg64 a = (u64 - a % u64) % u64

unfoldable pub mul64 : ℕ → ℕ → ℕ
mul64 a b = (a * b) % u64

-- The sign bit of an int64_t.
abbrev pub is_negative : ℕ → Bool
is_negative a = leb (2 ^ 63) a

pub magnitude : ℕ → ℕ
unfolding neg64
magnitude a = if is_negative a then neg64 a else a

-- int64_t division, which rounds towards zero.
unfoldable pub div64 : ℕ → ℕ → ℕ
unfolding magnitude neg64
div64 a b =
    let q = magnitude a / magnitude b in if xor (is_negative a) (is_negative b) then neg64 q else q

pub add64-lt : (a b : ℕ) → add64 a b < u64
unfolding add64
add64-lt a b = omega arith

pub sub64-lt : (a b : ℕ) → sub64 a b < u64
unfolding sub64
sub64-lt a b = omega arith

pub mul64-lt : (a b : ℕ) → mul64 a b < u64
unfolding mul64
mul64-lt a b = omega arith

pub neg64-lt : (a : ℕ) → neg64 a < u64
unfolding neg64
neg64-lt a = omega arith

pub neg64-neg64 : (a : ℕ) → a < u64 → neg64 (neg64 a) ≡ a
unfolding neg64
neg64-neg64 a h = omega arith

pub add64-neg64 : (a : ℕ) → add64 a (neg64 a) ≡ 0
unfolding add64 neg64
add64-neg64 a = omega arith

pub mul-mod_left : (a b m : ℕ) → a % m * b % m ≡ a * b % m
mul-mod_left a b m =
    sym (Nat.add-mul-mod_self_right (a % m * b) (a / m * b) m)
    ∙ ap (λ t. t % m) (omega (arith, ap (λ (t : ℕ). t * b) (Nat.div-add-mod' a m)))

pub mul-mod_right : (a b m : ℕ) → a * (b % m) % m ≡ a * b % m
mul-mod_right a b m =
    ap (λ t. t % m) (Nat.mul_comm a (b % m))
    ∙ (mul-mod_left b a m ∙ ap (λ t. t % m) (Nat.mul_comm b a))

pub mul64_comm : (a b : ℕ) → mul64 a b ≡ mul64 b a
unfolding mul64
mul64_comm a b = ap (λ t. t % u64) (Nat.mul_comm a b)

pub mul64_assoc : (a b c : ℕ) → mul64 (mul64 a b) c ≡ mul64 a (mul64 b c)
unfolding mul64
mul64_assoc a b c =
    mul-mod_left (a * b) c u64
    ∙ (ap (λ t. t % u64) (Nat.mul_assoc a b c) ∙ sym (mul-mod_right a (b * c) u64))

-- A difference, with -1 as the factor 2 ^ 64 - 1.
pub sub64-eq-mod : (a b : ℕ) → sub64 a b ≡ (a + (u64 - 1) * b) % u64
unfolding sub64
sub64-eq-mod a b = omega arith

pub zero-mul64 : (a : ℕ) → mul64 0 a ≡ 0
unfolding mul64
zero-mul64 a = omega arith
