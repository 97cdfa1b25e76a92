-- ===== src/ElGamal/Group.antt =====
-- What is documented of yacl's `EcGroup`: the points form a group under `Add`, and the integers act
-- on them by `Mul`. Within a window, the multiples of the generator are distinct.
use heu.Base.{◌≡◌, ◌↔◌, ℕ, ◌+◌, ◌≤◌, sym, ap, ◌∙◌, true, arith}
use heu.Base.Int.{ℤ, pos, pos_part, neg_part, neg_ℤ, ◌+ℤ◌, ◌-ℤ◌, ◌*ℤ◌, *ℤ_comm}
use heu.ElGamal.LookupTable.{Curve}

pub record IsGroup {P : Type 0} (c : Curve P) (window : ℕ) : Type 0 where
  pub add_assoc : (p q r : P) → c.add (c.add p q) r ≡ c.add p (c.add q r)
  pub add_comm : (p q : P) → c.add p q ≡ c.add q p
  pub zero-add : (p : P) → c.add (c.mul_base (pos 0)) p ≡ p
  pub add-negate : (p : P) → c.add p (c.negate p) ≡ c.mul_base (pos 0)
  pub sub_is : (p q : P) → c.sub p q ≡ c.add p (c.negate q)
  pub generator_is : c.mul_base (pos 1) ≡ c.generator
  pub mul_base_is : (a : ℤ) → c.mul_base a ≡ c.mul c.generator a
  pub mul-sum : (p : P) (a b : ℤ) → c.mul p (a +ℤ b) ≡ c.add (c.mul p a) (c.mul p b)
  pub mul-product : (p : P) (a b : ℤ) → c.mul p (a *ℤ b) ≡ c.mul (c.mul p a) b
  pub mul-add : (p q : P) (a : ℤ) → c.mul (c.add p q) a ≡ c.add (c.mul p a) (c.mul q a)
  pub double_is : (a b : ℤ) (p : P) → c.mul_double_base a b p ≡ c.add (c.mul_base a) (c.mul p b)
  pub equal_iff : (p q : P) → (c.point_equal p q ≡ true) ↔ (p ≡ q)
  pub hash_is : (p q : P) → c.point_equal p q ≡ true → c.hash_point p ≡ c.hash_point q
  pub distinct :
      (m : ℤ) (k : ℕ)
      → pos_part m + neg_part m ≤ window
      → k ≤ window
      → c.mul_base m ≡ c.mul_base (pos k)
      → m ≡ pos k

module _ {P : Type 0} (c : Curve P) {window : ℕ} (g : IsGroup c window) where
  abbrev pub base : ℤ → P
  base a = c.mul_base a

  pub add-base : (a b : ℤ) → c.add (base a) (base b) ≡ base (a +ℤ b)
  add-base a b =
      rw (g.mul_base_is a, g.mul_base_is b, g.mul_base_is (a +ℤ b))
        (sym (g.mul-sum c.generator a b))

  pub mul-base : (a b : ℤ) → c.mul (base a) b ≡ base (a *ℤ b)
  mul-base a b = rw (g.mul_base_is a, g.mul_base_is (a *ℤ b)) (sym (g.mul-product c.generator a b))

  -- The inverse is unique.
  pub negate_unique : (p q : P) → c.add p q ≡ base (pos 0) → c.negate p ≡ q
  negate_unique p q e =
      sym (g.zero-add (c.negate p))
      ∙ (ap (λ z. c.add z (c.negate p)) (sym e ∙ g.add_comm p q)
          ∙ (g.add_assoc q p (c.negate p)
              ∙ (ap (c.add q) (g.add-negate p) ∙ (g.add_comm q (base (pos 0)) ∙ g.zero-add q))))

  opposite_sum : (a : ℤ) → a +ℤ neg_ℤ a ≡ pos 0
  unfolding ◌+ℤ◌
  opposite_sum a = ground arith

  pub sub_opposite : (a b : ℤ) → a -ℤ b ≡ a +ℤ neg_ℤ b
  unfolding ◌+ℤ◌ ◌-ℤ◌
  sub_opposite a b = ground arith

  pub negate-base : (a : ℤ) → c.negate (base a) ≡ base (neg_ℤ a)
  negate-base a =
      negate_unique (base a) (base (neg_ℤ a)) (add-base a (neg_ℤ a) ∙ ap base (opposite_sum a))

  pub add_interchange :
      (p q r s : P) → c.add (c.add p q) (c.add r s) ≡ c.add (c.add p r) (c.add q s)
  add_interchange p q r s =
      g.add_assoc p q (c.add r s)
      ∙ (ap (c.add p)
            (sym (g.add_assoc q r s) ∙ (ap (λ z. c.add z s) (g.add_comm q r) ∙ g.add_assoc r q s))
          ∙ sym (g.add_assoc p r (c.add q s)))

  pub negate-add : (p q : P) → c.negate (c.add p q) ≡ c.add (c.negate p) (c.negate q)
  negate-add p q = negate_unique (c.add p q) _ (
      add_interchange p q (c.negate p) (c.negate q)
      ∙ (rw (g.add-negate p, g.add-negate q) (g.zero-add (base (pos 0)))))

  zero_times : (a : ℤ) → pos 0 *ℤ a ≡ pos 0
  unfolding ◌*ℤ◌
  zero_times a = ground arith

  pub mul-negate : (p : P) (a : ℤ) → c.mul (c.negate p) a ≡ c.negate (c.mul p a)
  mul-negate p a = sym (
      negate_unique (c.mul p a) (c.mul (c.negate p) a) (
        sym (g.mul-add p (c.negate p) a)
        ∙ (ap (λ z. c.mul z a) (g.add-negate p) ∙ (mul-base (pos 0) a ∙ ap base (zero_times a)))))

  pub mul_swap : (p : P) (a b : ℤ) → c.mul (c.mul p a) b ≡ c.mul (c.mul p b) a
  mul_swap p a b = sym (g.mul-product p a b) ∙ (ap (c.mul p) (*ℤ_comm a b) ∙ g.mul-product p b a)
