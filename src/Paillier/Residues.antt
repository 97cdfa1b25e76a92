-- ===== src/Paillier/Residues.antt =====
-- Residues of integers under the operations that the scheme applies to plaintexts.
use heu.Base.{ℕ, ◌+◌, ◌*◌, ◌%◌, ◌<◌, ◌≤◌, ◌≡◌, ap, if◌then◌else◌, arith}
use native.Mathlib.Nat.{mod-eq_of_lt}
use heu.Base.Int.{ℤ, pos, negsuc, pos_part, neg_part, ltb_ℤ, ◌+ℤ◌, ◌-ℤ◌, ◌*ℤ◌, +ℤ_parts}
use heu.Base.Int.Ring.{*ℤ_parts}
use heu.Base.Modular.{Cong, cong}
use heu.Base.Int.Residue.{residue, residue_parts}

-- The power g^m = 1 + nm, which may be negative before it is mapped.
pub residue-generator :
    (n : ℕ) (x : ℤ)
    → 0 < n
    → 0 < n * n
    → Cong (n * n) (residue (n * n) (pos n *ℤ x +ℤ pos 1)) (1 + n * residue n x)
residue-generator n x h k = go (residue_parts (n * n) (pos n *ℤ x +ℤ pos 1) k) (residue_parts n x h)
  where
    go :
        Cong
          (n * n)
          (residue (n * n) (pos n *ℤ x +ℤ pos 1) + neg_part (pos n *ℤ x +ℤ pos 1))
          (pos_part (pos n *ℤ x +ℤ pos 1))
        → Cong n (residue n x + neg_part x) (pos_part x)
        → Cong (n * n) (residue (n * n) (pos n *ℤ x +ℤ pos 1)) (1 + n * residue n x)
    go (cong i j e) (cong u v f) =
        cong (i + v) (j + u) (
          omega (arith, +ℤ_parts (pos n *ℤ x) (pos 1), *ℤ_parts (pos n) x, ap (λ (t : ℕ). n * t) f))

-- Of the two integers nearest to 0 with a residue, the one that decryption takes.
pub centered :
    (n half : ℕ) (x : ℤ)
    → half * 2 + 1 ≡ n
    → pos_part x + neg_part x ≤ half
    → (if ltb_ℤ (pos half) (pos (residue n x))
        then pos (residue n x) -ℤ pos n
        else pos (residue n x))
      ≡ x
unfolding ◌-ℤ◌
centered n half (pos a) odd near =
    let small : a % n ≡ a = mod-eq_of_lt (omega arith) in rw small (ground arith)
centered n half (negsuc a) odd near =
    let small : a % n ≡ a = mod-eq_of_lt (omega arith) in rw small (ground arith)
