-- ===== src/Base/Int/Ring.antt =====
-- The ring laws of the integers, by way of the two parts of each number.
use heu.Base.Int.{ℤ, pos, sub_ℕ, pos_part, neg_part, ◌+ℤ◌, ◌*ℤ◌, +ℤ_parts, eq_of_parts}
use Prim.Native.Nat.{ℕ, ◌+◌, ◌*◌}
use mathlib.Core.Path.{◌≡◌, ap}
use native.Mathlib.Omega.{arith}
use native.Mathlib.Nat.{add-zero, mul-zero, zero-mul}

sub_ℕ_parts : (a b : ℕ) → pos_part (sub_ℕ a b) + b ≡ neg_part (sub_ℕ a b) + a
sub_ℕ_parts a b = ground arith

pub *ℤ_parts :
    (a b : ℤ)
    → pos_part (a *ℤ b) + (pos_part a * neg_part b + neg_part a * pos_part b)
      ≡ neg_part (a *ℤ b) + (pos_part a * pos_part b + neg_part a * neg_part b)
unfolding ◌*ℤ◌
*ℤ_parts a b = sub_ℕ_parts _ _

pub add_assoc : (a b c : ℤ) → a +ℤ b +ℤ c ≡ a +ℤ (b +ℤ c)
unfolding ◌+ℤ◌
add_assoc a b c = ground arith

pub add_comm : (a b : ℤ) → a +ℤ b ≡ b +ℤ a
unfolding ◌+ℤ◌
add_comm a b = ground arith

pub mul-add : (p a b : ℤ) → p *ℤ (a +ℤ b) ≡ p *ℤ a +ℤ p *ℤ b
mul-add p a b =
    let h1 = ap (λ (t : ℕ). pos_part p * t) (+ℤ_parts a b) in
    let h2 = ap (λ (t : ℕ). neg_part p * t) (+ℤ_parts a b) in
    eq_of_parts _ _ (
      omega (
        arith,
        h1,
        h2,
        *ℤ_parts p (a +ℤ b),
        *ℤ_parts p a,
        *ℤ_parts p b,
        +ℤ_parts (p *ℤ a) (p *ℤ b),
      ))

pub mul_assoc : (p a b : ℤ) → p *ℤ a *ℤ b ≡ p *ℤ (a *ℤ b)
mul_assoc p a b =
    let h1 = ap (λ (t : ℕ). pos_part p * t) (*ℤ_parts a b) in
    let h2 = ap (λ (t : ℕ). neg_part p * t) (*ℤ_parts a b) in
    let h3 = ap (λ (t : ℕ). t * pos_part b) (*ℤ_parts p a) in
    let h4 = ap (λ (t : ℕ). t * neg_part b) (*ℤ_parts p a) in
    eq_of_parts _ _ (omega (arith, h1, h2, h3, h4, *ℤ_parts p (a *ℤ b), *ℤ_parts (p *ℤ a) b))

pub pos-mul : (a b : ℕ) → pos a *ℤ pos b ≡ pos (a * b)
unfolding ◌*ℤ◌
pos-mul a b = rw (add-zero (a * b), zero-mul b, mul-zero a) (ground arith)
