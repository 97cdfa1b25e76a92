-- ===== src/Paillier/Numbers.antt =====
-- The arithmetic behind the scheme, on natural numbers: what an encryption modulo n^2 is.
pub mod Encodings
pub mod Decoding
use heu.Base.{ℕ, zero, suc, ◌+◌, ◌-◌, ◌*◌, ◌/◌, ◌%◌, ◌^◌, ◌<◌, ◌≤◌, ◌≡◌, refl, sym, ap, ◌∙◌, arith}
use native.Mathlib.Nat.{pow-suc, pow-zero}
use heu.Base.Modular.{
  Cong, cong, cong_refl, cong_of_eq, cong_sym, cong_trans, cong_add, cong_mul_right, cong_mul_left,
  cong_mul, cong_pow, cong_weaken, cong_mod, one_pow, pow-add, pow-mul, mul-pow, cong_unique,
}

-- What is documented of the primes of a key: they are large enough and prime to each other, their
-- product is odd, and Euler's theorem holds for their squares.
pub record IsKeyPair (p q : ℕ) : Type 0 where
  pub p_big : 1 < p
  pub q_big : 1 < q
  pub p_inverse : ℕ
  pub p_inverse_is : Cong q (p * p_inverse) 1
  pub q_inverse : ℕ
  pub q_inverse_is : Cong p (q * q_inverse) 1
  pub odd : p * q / 2 * 2 + 1 ≡ p * q
  pub euler_p : (u v : ℕ) → Cong p (u * v) 1 → Cong (p * p) (u ^ (p * (p - 1))) 1
  pub euler_q : (u v : ℕ) → Cong q (u * v) 1 → Cong (q * q) (u ^ (q * (q - 1))) 1

-- The random factor of an encryption: decryption raises it to a power that is 1.
pub record IsNoise (p q w : ℕ) : Type 0 where
  pub inverse : ℕ
  pub inverse_is : Cong (p * q * (p * q)) (w * inverse) 1
  pub noise_p : Cong (p * p) (w ^ (p - 1)) 1
  pub noise_q : Cong (q * q) (w ^ (q - 1)) 1

-- c encrypts a.
pub record Encodes (p q a c : ℕ) : Type 0 where
  pub factor : ℕ
  pub is_noise : IsNoise p q factor
  pub shape : Cong (p * q * (p * q)) c ((1 + p * q * a) * factor)

one_mul_pow : (m x y k : ℕ) → Cong m (x ^ k) 1 → Cong m (y ^ k) 1 → Cong m ((x * y) ^ k) 1
one_mul_pow m x y k e f = cong_trans (cong_of_eq m (mul-pow x y k)) (cong_mul e f)

power_swap : (m x k e : ℕ) → Cong m (x ^ k) 1 → Cong m ((x ^ e) ^ k) 1
power_swap m x k e h =
    let same : (x ^ e) ^ k ≡ (x ^ k) ^ e =
      sym (pow-mul x e k)
      ∙ (ap (λ (t : ℕ). x ^ t) {x = e * k} {y = k * e} (omega arith) ∙ pow-mul x k e) in
    cong_trans (cong_of_eq m same) (cong_trans (cong_pow e h) (cong_of_eq m (one_pow e)))

-- Where x^k is 1 and y is an inverse of x, y^k is 1.
inverse_pow : (m x y k : ℕ) → Cong m (x * y) 1 → Cong m (x ^ k) 1 → Cong m (y ^ k) 1
inverse_pow m x y k e h =
    let all : Cong m ((x * y) ^ k) 1 = cong_trans (cong_pow k e) (cong_of_eq m (one_pow k)) in
    let split : Cong m (x ^ k * y ^ k) 1 = cong_trans (cong_of_eq m (sym (mul-pow x y k))) all in
    let less : Cong m (x ^ k * y ^ k) (1 * y ^ k) = cong_mul_right (y ^ k) h in
    cong_trans (cong_of_eq m (omega arith)) (cong_trans (cong_sym less) split)

pub square_weaken_p : (p q : ℕ) {x y : ℕ} → Cong (p * q * (p * q)) x y → Cong (p * p) x y
square_weaken_p p q (cong i j e) = cong (i * (q * q)) (j * (q * q)) (omega arith)

pub square_weaken_q : (p q : ℕ) {x y : ℕ} → Cong (p * q * (p * q)) x y → Cong (q * q) x y
square_weaken_q p q (cong i j e) = cong (i * (p * p)) (j * (p * p)) (omega arith)

module _ (p q : ℕ) where
  pub IsNoise-one : IsNoise p q 1
  IsNoise-one = record {
    inverse = 1;
    inverse_is = cong_refl _ _;
    noise_p = cong_of_eq _ (one_pow (p - 1));
    noise_q = cong_of_eq _ (one_pow (q - 1));
  }

  pub IsNoise-mul : {w v : ℕ} → IsNoise p q w → IsNoise p q v → IsNoise p q (w * v)
  IsNoise-mul {w} {v} e f = record {
    inverse = e.inverse * f.inverse;
    inverse_is = cong_trans (cong_of_eq _ (omega arith)) (cong_mul e.inverse_is f.inverse_is);
    noise_p = one_mul_pow (p * p) w v (p - 1) e.noise_p f.noise_p;
    noise_q = one_mul_pow (q * q) w v (q - 1) e.noise_q f.noise_q;
  }

  pub IsNoise-pow : {w : ℕ} (k : ℕ) → IsNoise p q w → IsNoise p q (w ^ k)
  IsNoise-pow {w} k e = record {
    inverse = e.inverse ^ k;
    inverse_is =
        cong_trans (cong_of_eq _ (sym (mul-pow w e.inverse k)))
          (cong_trans (cong_pow k e.inverse_is) (cong_of_eq _ (one_pow k)));
    noise_p = power_swap (p * p) w (p - 1) k e.noise_p;
    noise_q = power_swap (q * q) w (q - 1) k e.noise_q;
  }

  pub IsNoise-inverse : {w : ℕ} (e : IsNoise p q w) → IsNoise p q e.inverse
  IsNoise-inverse {w} e = record {
    inverse = w;
    inverse_is = cong_trans (cong_of_eq _ (omega arith)) e.inverse_is;
    noise_p = inverse_pow (p * p) w e.inverse (p - 1) (square_weaken_p p q e.inverse_is) e.noise_p;
    noise_q = inverse_pow (q * q) w e.inverse (q - 1) (square_weaken_q p q e.inverse_is) e.noise_q;
  }
