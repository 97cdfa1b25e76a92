-- ===== src/Paillier/Numbers/Encodings.antt =====
-- What multiplication, powers and inverses modulo n^2 do to an encryption.
use heu.Base.{ℕ, zero, suc, ◌+◌, ◌*◌, ◌^◌, ap, ◌∙◌, arith}
use native.Mathlib.Nat.{pow-suc, pow-zero}
use heu.Base.Modular.{
  Cong, cong, cong_refl, cong_of_eq, cong_sym, cong_trans, cong_mul_right, cong_mul, cong_pow,
  mul-pow,
}
use heu.Paillier.Numbers.{IsNoise, Encodes, IsNoise-one, IsNoise-mul, IsNoise-pow, IsNoise-inverse}

-- (1 + na)(1 + nb) = 1 + n(a + b) modulo n^2, and powers alike.
pub plain-mul : (n a b : ℕ) → Cong (n * n) ((1 + n * a) * (1 + n * b)) (1 + n * (a + b))
plain-mul n a b = cong 0 (a * b) (omega arith)

pub plain-pow : (n a k : ℕ) → Cong (n * n) ((1 + n * a) ^ k) (1 + n * (k * a))
plain-pow n a zero = cong_of_eq _ (pow-zero (1 + n * a) ∙ omega arith)
plain-pow n a (suc k) = cong_trans (cong_of_eq _ (pow-suc (1 + n * a) k)) (
    cong_trans (cong_mul_right (1 + n * a) (plain-pow n a k))
      (cong_trans (plain-mul n (k * a) a) (cong_of_eq _ (omega arith))))

-- Only the residue modulo n counts.
pub plain_residue : (n : ℕ) {a b : ℕ} → Cong n a b → Cong (n * n) (1 + n * a) (1 + n * b)
plain_residue n (cong i j e) = cong i j (omega (arith, ap (λ (t : ℕ). n * t) e))

module _ (p q : ℕ) where
  pub Encodes-cong : {a b c : ℕ} → Cong (p * q) a b → Encodes p q a c → Encodes p q b c
  Encodes-cong h e = record {
    factor = e.factor;
    is_noise = e.is_noise;
    shape = cong_trans e.shape (cong_mul_right e.factor (plain_residue (p * q) h));
  }

  -- Encryptions that are congruent encrypt the same.
  pub Encodes-same : {a c d : ℕ} → Cong (p * q * (p * q)) c d → Encodes p q a c → Encodes p q a d
  Encodes-same h e = record {
    factor = e.factor;
    is_noise = e.is_noise;
    shape = cong_trans (cong_sym h) e.shape;
  }

  pub Encodes-noise : {w : ℕ} → IsNoise p q w → Encodes p q 0 w
  Encodes-noise {w} e = record { factor = w; is_noise = e; shape = cong_of_eq _ (omega arith) }

  pub Encodes-plain : (a : ℕ) → Encodes p q a (1 + p * q * a)
  Encodes-plain a = record {
    factor = 1;
    is_noise = IsNoise-one p q;
    shape = cong_of_eq _ (omega arith);
  }

  pub Encodes-mul : {a b c d : ℕ} → Encodes p q a c → Encodes p q b d → Encodes p q (a + b) (c * d)
  Encodes-mul {a} {b} {c} {d} e f = record {
    factor = e.factor * f.factor;
    is_noise = IsNoise-mul p q e.is_noise f.is_noise;
    shape = cong_trans (cong_mul e.shape f.shape) (
        cong_trans
          (cong_of_eq _ {b = (1 + p * q * a) * (1 + p * q * b) * (e.factor * f.factor)}
            (omega arith))
          (cong_mul_right (e.factor * f.factor) (plain-mul (p * q) a b)));
  }

  pub Encodes-pow : {a c : ℕ} (k : ℕ) → Encodes p q a c → Encodes p q (k * a) (c ^ k)
  Encodes-pow {a} {c} k e = record {
    factor = e.factor ^ k;
    is_noise = IsNoise-pow p q k e.is_noise;
    shape = cong_trans (cong_pow k e.shape) (
        cong_trans (cong_of_eq _ (mul-pow (1 + p * q * a) e.factor k))
          (cong_mul_right (e.factor ^ k) (plain-pow (p * q) a k)));
  }

  -- The inverse of an encryption of a encrypts what adds up with a to 0.
  pub opposite_product :
      {a c : ℕ} (b : ℕ) (e : Encodes p q a c)
      → Cong (p * q) (a + b) 0
      → Cong (p * q * (p * q)) (c * ((1 + p * q * b) * e.is_noise.inverse)) 1
  opposite_product {a} {c} b e h =
      let n = p * q in
      let sums : Cong (n * n) ((1 + n * a) * (1 + n * b)) 1 =
        cong_trans (plain-mul n a b)
          (cong_trans (plain_residue n h) (cong_of_eq _ (omega arith))) in
      cong_trans (cong_mul_right ((1 + n * b) * e.is_noise.inverse) e.shape) (
        cong_trans
          (cong_of_eq _ {b = (1 + n * a) * (1 + n * b) * (e.factor * e.is_noise.inverse)}
            (omega arith))
          (cong_trans (cong_mul sums e.is_noise.inverse_is) (cong_refl _ _)))

  pub Encodes-inverse :
      {a b c d : ℕ}
      → Cong (p * q) (a + b) 0
      → Cong (p * q * (p * q)) (c * d) 1
      → Encodes p q a c
      → Encodes p q b d
  Encodes-inverse {a} {b} {c} {d} h inv e = record {
    factor = e.is_noise.inverse;
    is_noise = IsNoise-inverse p q e.is_noise;
    shape =
        let target = (1 + p * q * b) * e.is_noise.inverse in
        let left : Cong (p * q * (p * q)) (c * target * d) (1 * d) =
          cong_mul_right d (opposite_product b e h) in
        let right : Cong (p * q * (p * q)) (c * d * target) (1 * target) =
          cong_mul_right target inv in
        cong_trans (cong_of_eq _ {b = 1 * d} (omega arith)) (
          cong_trans (cong_sym left) (
            cong_trans (cong_of_eq _ {b = c * d * target} (omega arith))
              (cong_trans right (cong_of_eq _ (omega arith)))));
  }
