-- ===== src/Ou/Numbers.antt =====
-- The arithmetic behind the scheme: which numbers encrypt a, and that they are additive.
use heu.Base.{ℕ, ◌+◌, ◌*◌, ◌^◌, sym, arith}
use heu.Base.Modular.{
  Cong, cong_refl, cong_of_eq, cong_sym, cong_trans, cong_mul_left, cong_mul_right, cong_mul,
  cong_pow, cong_weaken, mul-pow, one_pow,
}
use heu.Paillier.Numbers.Encodings.{plain-mul, plain_residue}
use heu.Additive.{IsAdditive}

-- c encrypts a under p, q and the exponent t, where G^t = 1 + pk modulo p^2.
pub record Encodes (p q t k a c : ℕ) : Type 0 where
  pub inverse : ℕ
  pub inverse_is : Cong (p * p * q) (c * inverse) 1
  pub shape : Cong (p * p) (c ^ t) (1 + p * (k * a))

module _ (p q t k : ℕ) where
  abbrev E : ℕ → ℕ → Type 0
  E = Encodes p q t k

  product_shape :
      (a b c d : ℕ)
      → Cong (p * p) (c ^ t) (1 + p * (k * a))
      → Cong (p * p) (d ^ t) (1 + p * (k * b))
      → Cong (p * p) ((c * d) ^ t) (1 + p * (k * (a + b)))
  product_shape a b c d e f = cong_trans (cong_of_eq _ (mul-pow c d t)) (
      cong_trans (cong_mul e f)
        (cong_trans (plain-mul p (k * a) (k * b)) (cong_of_eq _ (omega arith))))

  -- A sum that is 0 modulo p makes both factors inverse to each other.
  inverse_shape :
      (a b c d : ℕ)
      → Cong p (a + b) 0
      → Cong (p * p) (c * d) 1
      → Cong (p * p) (c ^ t) (1 + p * (k * a))
      → Cong (p * p) (d ^ t) (1 + p * (k * b))
  inverse_shape a b c d h inv e =
      let target = 1 + p * (k * b) in
      let none : Cong p (k * a + k * b) 0 =
        cong_trans (cong_of_eq _ {b = k * (a + b)} (omega arith))
          (cong_trans (cong_mul_left k h) (cong_of_eq _ (omega arith))) in
      let sums : Cong (p * p) ((1 + p * (k * a)) * target) 1 =
        cong_trans (plain-mul p (k * a) (k * b))
          (cong_trans (plain_residue p none) (cong_of_eq _ (omega arith))) in
      let unit : Cong (p * p) (c ^ t * d ^ t) 1 =
        cong_trans (cong_of_eq _ (sym (mul-pow c d t)))
          (cong_trans (cong_pow t inv) (cong_of_eq _ (one_pow t))) in
      let left : Cong (p * p) (c ^ t * target * d ^ t) (d ^ t) =
        cong_trans (cong_mul_right (d ^ t) (cong_mul_right target e))
          (cong_trans (cong_mul_right (d ^ t) sums) (cong_of_eq _ (omega arith))) in
      cong_trans (cong_sym left) (
        cong_trans (cong_of_eq _ {b = c ^ t * d ^ t * target} (omega arith))
          (cong_trans (cong_mul_right target unit) (cong_of_eq _ (omega arith))))

  Encodes-mul : (a b c d : ℕ) → E a c → E b d → E (a + b) (c * d)
  Encodes-mul a b c d e f = record {
    inverse = e.inverse * f.inverse;
    inverse_is = cong_trans (cong_of_eq _ (omega arith)) (cong_mul e.inverse_is f.inverse_is);
    shape = product_shape a b c d e.shape f.shape;
  }

  Encodes-same : (a c d : ℕ) → Cong (p * p * q) c d → E a c → E a d
  Encodes-same a c d h e = record {
    inverse = e.inverse;
    inverse_is = cong_trans (cong_mul_right e.inverse (cong_sym h)) e.inverse_is;
    shape = cong_trans (cong_pow t (cong_weaken q (cong_sym h))) e.shape;
  }

  Encodes-inverse : (a b c d : ℕ) → Cong p (a + b) 0 → Cong (p * p * q) (c * d) 1 → E a c → E b d
  Encodes-inverse a b c d h inv e = record {
    inverse = c;
    inverse_is = cong_trans (cong_of_eq _ (omega arith)) inv;
    shape = inverse_shape a b c d h (cong_weaken q inv) e.shape;
  }

  pub Encodes-IsAdditive : IsAdditive p (p * p * q) (Encodes p q t k)
  Encodes-IsAdditive = record {
    resp = λ a b c h e. record {
      inverse = e.inverse;
      inverse_is = e.inverse_is;
      shape = cong_trans e.shape (plain_residue p (cong_mul_left k h));
    };
    same = Encodes-same;
    one = record {
      inverse = 1;
      inverse_is = cong_refl _ _;
      shape = cong_trans (cong_of_eq _ (one_pow t)) (cong_of_eq _ (omega arith));
    };
    mul = Encodes-mul;
    unit = λ a c e. (e.inverse, e.inverse_is);
    inverse = Encodes-inverse;
  }
