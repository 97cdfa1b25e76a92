-- ===== src/Base/Int/Residue.antt =====
-- Residues of integers, under sums, differences and products.
use Prim.Native.Nat.{ℕ, ◌+◌, ◌-◌, ◌*◌, ◌/◌, ◌%◌, ◌<◌}
use mathlib.Core.Path.{ap}
use native.Mathlib.Omega.{arith}
use native.Mathlib.Nat.{mod-lt}
use heu.Base.Int.{ℤ, pos, negsuc, pos_part, neg_part, ◌+ℤ◌, ◌-ℤ◌, ◌*ℤ◌, +ℤ_parts, -ℤ_parts}
use heu.Base.Int.Ring.{*ℤ_parts}
use heu.Base.Modular.{Cong, cong}

-- The residue of an integer, from 0 to m - 1.
abbrev pub residue : ℕ → ℤ → ℕ
residue m (pos a) = a % m
residue m (negsuc a) = m - 1 - a % m

pub residue-lt : (m : ℕ) (x : ℤ) → 0 < m → residue m x < m
residue-lt m (pos a) h = mod-lt a h
residue-lt m (negsuc a) h = omega (arith, mod-lt a h)

pub residue_parts : (m : ℕ) (x : ℤ) → 0 < m → Cong m (residue m x + neg_part x) (pos_part x)
residue_parts m (pos a) h = cong (a / m) 0 (omega arith)
residue_parts m (negsuc a) h = cong 0 (1 + a / m) (omega (arith, mod-lt a h))

module _ (m : ℕ) (positive : 0 < m) where
  pub residue-add : (x y : ℤ) → Cong m (residue m (x +ℤ y)) (residue m x + residue m y)
  residue-add x y =
      go (residue_parts m (x +ℤ y) positive) (residue_parts m x positive)
        (residue_parts m y positive)
    where
      go :
          Cong m (residue m (x +ℤ y) + neg_part (x +ℤ y)) (pos_part (x +ℤ y))
          → Cong m (residue m x + neg_part x) (pos_part x)
          → Cong m (residue m y + neg_part y) (pos_part y)
          → Cong m (residue m (x +ℤ y)) (residue m x + residue m y)
      go (cong i j e) (cong k l f) (cong u v g) =
          cong (i + l + v) (j + k + u) (omega (arith, +ℤ_parts x y))

  pub residue-sub : (x y : ℤ) → Cong m (residue m (x -ℤ y) + residue m y) (residue m x)
  residue-sub x y =
      go (residue_parts m (x -ℤ y) positive) (residue_parts m x positive)
        (residue_parts m y positive)
    where
      go :
          Cong m (residue m (x -ℤ y) + neg_part (x -ℤ y)) (pos_part (x -ℤ y))
          → Cong m (residue m x + neg_part x) (pos_part x)
          → Cong m (residue m y + neg_part y) (pos_part y)
          → Cong m (residue m (x -ℤ y) + residue m y) (residue m x)
      go (cong i j e) (cong k l f) (cong u v g) =
          cong (i + l + u) (j + k + v) (omega (arith, -ℤ_parts x y))

  pub residue-mul : (x y : ℤ) → Cong m (residue m (x *ℤ y)) (residue m x * residue m y)
  residue-mul x y =
      go (residue_parts m (x *ℤ y) positive) (residue_parts m x positive)
        (residue_parts m y positive)
    where
      go :
          Cong m (residue m (x *ℤ y) + neg_part (x *ℤ y)) (pos_part (x *ℤ y))
          → Cong m (residue m x + neg_part x) (pos_part x)
          → Cong m (residue m y + neg_part y) (pos_part y)
          → Cong m (residue m (x *ℤ y)) (residue m x * residue m y)
      go (cong i j e) (cong k l f) (cong u v g) =
          cong (i + l * residue m y + pos_part x * v + neg_part x * u)
            (j + k * residue m y + pos_part x * u + neg_part x * v)
            (omega (
              arith,
              *ℤ_parts x y,
              ap (λ (t : ℕ). t * residue m y) f,
              ap (λ (t : ℕ). pos_part x * t) g,
              ap (λ (t : ℕ). neg_part x * t) g,
            ))
