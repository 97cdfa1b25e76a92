-- ===== src/Additive.antt =====
-- What the schemes have in common: ciphertexts whose products encrypt sums of plaintexts. A scheme
-- says which natural numbers modulo m encrypt which residues modulo k.
pub mod Values
pub mod Tables
pub mod Runs
use heu.Base.{ℕ, zero, suc, ◌+◌, ◌*◌, ◌^◌, ◌≡◌, ap, ◌∙◌, arith}
use native.Mathlib.Nat.{pow-suc, pow-zero}
use heu.Base.Modular.{Cong, cong_of_eq}

pub record IsAdditive (k m : ℕ) (E : ℕ → ℕ → Type 0) : Type 0 where
  pub resp : (a b c : ℕ) → Cong k a b → E a c → E b c
  pub same : (a c d : ℕ) → Cong m c d → E a c → E a d
  pub one : E 0 1
  pub mul : (a b c d : ℕ) → E a c → E b d → E (a + b) (c * d)
  pub unit : (a c : ℕ) → E a c → (i : ℕ) × Cong m (c * i) 1
  pub inverse : (a b c d : ℕ) → Cong k (a + b) 0 → Cong m (c * d) 1 → E a c → E b d

module _ {k m : ℕ} {E : ℕ → ℕ → Type 0} (scheme : IsAdditive k m E) where
  pub pow : (a c n : ℕ) → E a c → E (n * a) (c ^ n)
  pow a c zero e =
      scheme.resp 0 (0 * a) (c ^ 0) (cong_of_eq k (omega arith))
        (scheme.same 0 1 (c ^ 0) (cong_of_eq m (rw (pow-zero c))) scheme.one)
  pow a c (suc n) e = scheme.resp (n * a + a) (suc n * a) (c ^ suc n) (cong_of_eq k (omega arith)) (
      scheme.same (n * a + a) (c ^ n * c) (c ^ suc n) (cong_of_eq m (rw (pow-suc c n)))
        (scheme.mul (n * a) a (c ^ n) c (pow a c n e) e))
