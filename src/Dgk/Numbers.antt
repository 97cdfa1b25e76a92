-- ===== src/Dgk/Numbers.antt =====
-- The arithmetic behind the scheme: which numbers encrypt a, and that they are additive.
use heu.Base.{ℕ, ◌+◌, ◌*◌, ◌^◌, sym, ap, ◌∙◌, arith}
use heu.Base.Modular.{
  Cong, cong, cong_refl, cong_of_eq, cong_sym, cong_trans, cong_mul_left, cong_mul_right, cong_mul,
  cong_pow, cong_weaken, mul-pow, pow-mul, one_pow, pow-add,
}
use native.Mathlib.Nat.{pow-zero}
use heu.Additive.{IsAdditive}

-- c encrypts a under p, q and the exponent v, where w is g^v modulo p.
pub record Encodes (p q v w a c : ℕ) : Type 0 where
  pub inverse : ℕ
  pub inverse_is : Cong (p * q) (c * inverse) 1
  pub shape : Cong p (c ^ v) (w ^ a)

module _ (p w u : ℕ) (order : Cong p (w ^ u) 1) where
  -- Multiples of the order do not count in an exponent.
  pub drop_multiples : (a i : ℕ) → Cong p (w ^ (a + i * u)) (w ^ a)
  drop_multiples a i = cong_trans (cong_of_eq p (pow-add w a (i * u))) (
      cong_trans
        (cong_mul_left (w ^ a) (
          cong_trans
            (cong_of_eq p
              (ap (λ (t : ℕ). w ^ t) {x = i * u} {y = u * i} (omega arith) ∙ pow-mul w u i))
            (cong_trans (cong_pow i order) (cong_of_eq p (one_pow i)))))
        (cong_of_eq p (omega arith)))

  pub power_cong : (a b : ℕ) → Cong u a b → Cong p (w ^ a) (w ^ b)
  power_cong a b (cong i j e) =
      cong_trans (cong_sym (drop_multiples a i))
        (cong_trans (cong_of_eq p (ap (λ (t : ℕ). w ^ t) e)) (drop_multiples b j))

module _ (p q v w u : ℕ) (order : Cong p (w ^ u) 1) where
  abbrev E : ℕ → ℕ → Type 0
  E = Encodes p q v w

  Encodes-same : (a c d : ℕ) → Cong (p * q) c d → E a c → E a d
  Encodes-same a c d h e = record {
    inverse = e.inverse;
    inverse_is = cong_trans (cong_mul_right e.inverse (cong_sym h)) e.inverse_is;
    shape = cong_trans (cong_pow v (cong_weaken q (cong_sym h))) e.shape;
  }

  Encodes-mul : (a b c d : ℕ) → E a c → E b d → E (a + b) (c * d)
  Encodes-mul a b c d e f = record {
    inverse = e.inverse * f.inverse;
    inverse_is = cong_trans (cong_of_eq _ (omega arith)) (cong_mul e.inverse_is f.inverse_is);
    shape =
        cong_trans (cong_of_eq p (mul-pow c d v))
          (cong_trans (cong_mul e.shape f.shape) (cong_of_eq p (sym (pow-add w a b))));
  }

  Encodes-inverse : (a b c d : ℕ) → Cong u (a + b) 0 → Cong (p * q) (c * d) 1 → E a c → E b d
  Encodes-inverse a b c d h inv e =
      let unit : Cong p (c ^ v * d ^ v) 1 =
        cong_trans (cong_of_eq p (sym (mul-pow c d v)))
          (cong_trans (cong_pow v (cong_weaken q inv)) (cong_of_eq p (one_pow v))) in
      let sums : Cong p (w ^ a * w ^ b) 1 =
        cong_trans (cong_of_eq p (sym (pow-add w a b)))
          (cong_trans (power_cong p w u order (a + b) 0 h) (cong_of_eq p (pow-zero w))) in
      let left : Cong p (c ^ v * d ^ v * w ^ b) (d ^ v) =
        cong_trans (cong_of_eq p {b = c ^ v * (w ^ b * d ^ v)} (omega arith)) (
          cong_trans (cong_mul_right (w ^ b * d ^ v) e.shape) (
            cong_trans (cong_of_eq p {b = w ^ a * w ^ b * d ^ v} (omega arith))
              (cong_trans (cong_mul_right (d ^ v) sums) (cong_of_eq p (omega arith))))) in
      record {
        inverse = c;
        inverse_is = cong_trans (cong_of_eq _ (omega arith)) inv;
        shape =
            cong_trans (cong_sym left)
              (cong_trans (cong_mul_right (w ^ b) unit) (cong_of_eq p (omega arith)));
      }

  pub Encodes-IsAdditive : IsAdditive u (p * q) (Encodes p q v w)
  Encodes-IsAdditive = record {
    resp = λ a b c h e. record {
      inverse = e.inverse;
      inverse_is = e.inverse_is;
      shape = cong_trans e.shape (power_cong p w u order a b h);
    };
    same = Encodes-same;
    one = record {
      inverse = 1;
      inverse_is = cong_refl _ _;
      shape = cong_of_eq p (one_pow v ∙ sym (pow-zero w));
    };
    mul = Encodes-mul;
    unit = λ a c e. (e.inverse, e.inverse_is);
    inverse = Encodes-inverse;
  }
