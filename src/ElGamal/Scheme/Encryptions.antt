-- ===== src/ElGamal/Scheme/Encryptions.antt =====
-- Pairs of points that encrypt a number, and what the operations on the points do to them.
use heu.Base.{ℕ, ◌≡◌, sym, ap, ap₂, ◌∙◌, arith}
use heu.Base.Int.{ℤ, pos, neg_ℤ, ◌+ℤ◌, ◌-ℤ◌, ◌*ℤ◌}
use heu.ElGamal.Group.{
  IsGroup, add-base, mul-base, negate-base, add_interchange, negate-add, mul-negate, mul_swap,
  sub_opposite,
}
use heu.ElGamal.LookupTable.{Curve}

module _ {P : Type 0} (c : Curve P) {window : ℕ} (g : IsGroup c window) (x : ℤ) where
  -- The pair of points is an encryption of m under the secret x.
  abbrev pub IsEncryption : ℤ → P → P → Type 0
  IsEncryption m p1 p2 = p2 ≡ c.add (c.mul_base m) (c.mul p1 x)

  -- A sum of encryptions encrypts the sum.
  pub sum-IsEncryption :
      (m n : ℤ) (p1 p2 q1 q2 : P)
      → IsEncryption m p1 p2
      → IsEncryption n q1 q2
      → IsEncryption (m +ℤ n) (c.add p1 q1) (c.add p2 q2)
  sum-IsEncryption m n p1 p2 q1 q2 e f =
      ap₂ c.add e f
      ∙ (add_interchange c g (c.mul_base m) (c.mul p1 x) (c.mul_base n) (c.mul q1 x)
          ∙ ap₂ c.add (add-base c g m n) (sym (g.mul-add p1 q1 x)))

  pub negate-IsEncryption :
      (m : ℤ) (p1 p2 : P)
      → IsEncryption m p1 p2
      → IsEncryption (neg_ℤ m) (c.negate p1) (c.negate p2)
  negate-IsEncryption m p1 p2 e =
      ap c.negate e
      ∙ (negate-add c g (c.mul_base m) (c.mul p1 x)
          ∙ ap₂ c.add (negate-base c g m) (sym (mul-negate c g p1 x)))

  pub difference-IsEncryption :
      (m n : ℤ) (p1 p2 q1 q2 : P)
      → IsEncryption m p1 p2
      → IsEncryption n q1 q2
      → IsEncryption (m -ℤ n) (c.sub p1 q1) (c.sub p2 q2)
  difference-IsEncryption m n p1 p2 q1 q2 e f =
      rw (g.sub_is p1 q1, g.sub_is p2 q2, sub_opposite c g m n)
        (sum-IsEncryption m (neg_ℤ n) p1 p2 (c.negate q1) (c.negate q2) e
          (negate-IsEncryption n q1 q2 f))

  -- A plaintext added to the second point.
  pub shift-IsEncryption :
      (m n : ℤ) (p1 p2 : P)
      → IsEncryption m p1 p2
      → IsEncryption (m +ℤ n) p1 (c.add p2 (c.mul_base n))
  shift-IsEncryption m n p1 p2 e =
      ap (λ z. c.add z (c.mul_base n)) e
      ∙ (g.add_assoc (c.mul_base m) (c.mul p1 x) (c.mul_base n)
          ∙ (ap (c.add (c.mul_base m)) (g.add_comm (c.mul p1 x) (c.mul_base n))
              ∙ (sym (g.add_assoc (c.mul_base m) (c.mul_base n) (c.mul p1 x))
                  ∙ ap (λ z. c.add z (c.mul p1 x)) (add-base c g m n))))

  pub unshift-IsEncryption :
      (m n : ℤ) (p1 p2 : P)
      → IsEncryption m p1 p2
      → IsEncryption (m -ℤ n) p1 (c.sub p2 (c.mul_base n))
  unshift-IsEncryption m n p1 p2 e =
      rw (g.sub_is p2 (c.mul_base n), negate-base c g n, sub_opposite c g m n)
        (shift-IsEncryption m (neg_ℤ n) p1 p2 e)

  plus_opposite : (m n : ℤ) → neg_ℤ m +ℤ n ≡ n -ℤ m
  unfolding ◌+ℤ◌ ◌-ℤ◌
  plus_opposite m n = ground arith

  pub from-IsEncryption :
      (m n : ℤ) (p1 p2 : P)
      → IsEncryption m p1 p2
      → IsEncryption (n -ℤ m) (c.negate p1) (c.sub (c.mul_base n) p2)
  from-IsEncryption m n p1 p2 e =
      rw (g.sub_is (c.mul_base n) p2, g.add_comm (c.mul_base n) (c.negate p2), ← plus_opposite m n)
        (shift-IsEncryption (neg_ℤ m) n (c.negate p1) (c.negate p2) (negate-IsEncryption m p1 p2 e))

  pub multiple-IsEncryption :
      (m n : ℤ) (p1 p2 : P) → IsEncryption m p1 p2 → IsEncryption (m *ℤ n) (c.mul p1 n) (c.mul p2 n)
  multiple-IsEncryption m n p1 p2 e =
      ap (λ z. c.mul z n) e
      ∙ (g.mul-add (c.mul_base m) (c.mul p1 x) n
          ∙ ap₂ c.add (mul-base c g m n) (mul_swap c g p1 x n))

  pub zero-IsEncryption : (r : ℤ) → IsEncryption (pos 0) (c.mul_base r) (c.mul (c.mul_base x) r)
  zero-IsEncryption r =
      rw (g.zero-add (c.mul (c.mul_base r) x), g.mul_base_is x, g.mul_base_is r)
        (mul_swap c g c.generator x r)

  pub fresh-IsEncryption :
      (m r : ℤ) → IsEncryption m (c.mul_base r) (c.mul_double_base m r (c.mul_base x))
  fresh-IsEncryption m r =
      g.double_is m r (c.mul_base x)
      ∙ ap (c.add (c.mul_base m)) (zero-IsEncryption r ∙ g.zero-add _)
