-- ===== src/Base/Loops.antt =====
-- `for (i = from; i < from + n; ++i) s = body(i, s)` and its invariant rule.
use Prim.Native.Nat.{ℕ, zero, suc, ◌+◌, ◌≤◌, ◌<◌}
use mathlib.Core.Path.{◌≡◌}
use native.Mathlib.Omega.{arith}

unfoldable pub for_range {ℓ} : {S : Type ℓ} → ℕ → ℕ → (ℕ → S → S) → S → S
for_range zero from body s = s
for_range (suc n) from body s = for_range n (from + 1) body (body from s)

-- The end is a variable with an equation, since `from + 0` is stuck.
pub for_range_inv {ℓ κ} :
    {S : Type ℓ} (P : ℕ → S → Type κ) (body : ℕ → S → S) (n from end : ℕ)
    → from + n ≡ end
    → ((i : ℕ) (s : S) → from ≤ i → i < end → P i s → P (i + 1) (body i s))
    → (s : S) → P from s
    → P end (for_range n from body s)
unfolding for_range
for_range_inv P body zero from end e keep s h = let e' : from ≡ end = omega arith in rw (← e') h
for_range_inv P body (suc n) from end e keep s h =
    for_range_inv P body n (from + 1) end (omega arith) (λ i t lo hi. keep i t (omega arith) hi)
      (body from s) (keep from s (omega arith) (omega arith) h)
