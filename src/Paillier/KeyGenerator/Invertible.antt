-- ===== src/Paillier/KeyGenerator/Invertible.antt =====
-- The base -x^2 of a key: it has an inverse modulo n^2, and its n-th power is the factor of encryptions.
use heu.Base.{ℕ, ◌+◌, ◌-◌, ◌*◌, ◌%◌, ◌^◌, ◌<◌, ◌≡◌, sym, ap, ◌∙◌, arith}
use heu.Base.Int.Residue.{residue, residue_parts}
use heu.Base.Int.{ℤ, pos, neg_ℤ, pos_part, neg_part}
use native.Mathlib.Nat.{mul-pos}
use heu.Base.Modular.{
  Cong, cong, cong_refl, cong_of_eq, cong_trans, cong_add, cong_mul, cong_mul_left, cong_mul_right,
  cong_pow, cong_weaken, cong_mod, one_pow, pow-mul, mul-pow,
}
use heu.Paillier.Numbers.{IsKeyPair, IsNoise, square_weaken_p, square_weaken_q}
use heu.Paillier.Numbers.Encodings.{plain-mul}
use heu.Paillier.Numbers.Decoding.{square_less_one}

-- An inverse modulo n gives one modulo n^2.
pub lift_inverse : (n a w : ℕ) → 0 < n → Cong n (a * w) 1 → (v : ℕ) × Cong (n * n) (a * v) 1
lift_inverse n a w h (cong i j e) =
    let s = n - 1 in
    let n_is : n ≡ s + 1 = omega arith in
    let k = j + i * s in
    let close : Cong (n * n) (a * w) (1 + n * k) =
      cong i 0 (omega (arith, e, ap (λ (t : ℕ). i * n * t) n_is)) in
    (
      w * (1 + n * (k * s)),
      cong_trans (cong_of_eq (n * n) {b = a * w * (1 + n * (k * s))} (omega arith)) (
          cong_trans (cong_mul_right (1 + n * (k * s)) close) (
            cong_trans (plain-mul n k (k * s))
              (cong 0 k (omega (arith, ap (λ (t : ℕ). n * k * t) n_is))))),
    )

neg_part-neg : (k : ℕ) → neg_part (neg_ℤ (pos k)) ≡ k
neg_part-neg k = ground arith

pos_part-neg : (k : ℕ) → pos_part (neg_ℤ (pos k)) ≡ 0
pos_part-neg k = ground arith

-- The residue of -(x^2 mod n).
pub opposite_square :
    (n x v : ℕ) (y : ℤ)
    → 1 < n
    → y ≡ neg_ℤ (pos (x % n * (x % n) % n))
    → Cong n (x * v) 1
    → (u : ℕ) × Cong (n * n) (residue (n * n) y * u) 1
opposite_square n x v y big is inv =
    lift_inverse n (residue (n * n) y) (v * v * (n - 1)) (omega arith) product
  where
    t : ℕ
    t = x % n * (x % n) % n

    z : ℕ
    z = residue (n * n) y

    positive : 0 < n * n
    positive = mul-pos {m = n} (omega arith) (omega arith)

    sums : Cong n (z + t) 0
    sums =
        let low : neg_part y ≡ t = ap neg_part is ∙ neg_part-neg t in
        let high : pos_part y ≡ 0 = ap pos_part is ∙ pos_part-neg t in
        cong_weaken n (
          cong_trans (cong_of_eq (n * n) (ap (λ (u : ℕ). z + u) (sym low)))
            (cong_trans (residue_parts (n * n) y positive) (cong_of_eq (n * n) high)))

    square_t : Cong n t (x * x)
    square_t = cong_trans (cong_mod n (x % n * (x % n))) (cong_mul (cong_mod n x) (cong_mod n x))

    close : Cong n z ((n - 1) * t)
    close =
        let n_is : n ≡ n - 1 + 1 = omega arith in
        cong_trans {b = z + n * t} (cong t 0 (omega arith)) (
          cong_trans
            (cong_of_eq n {b = z + t + (n - 1) * t} (omega (arith, ap (λ (u : ℕ). t * u) n_is)))
            (cong_trans (cong_add sums (cong_refl n ((n - 1) * t)))
              (cong_of_eq n {a = 0 + (n - 1) * t} (omega arith))))

    product : Cong n (z * (v * v * (n - 1))) 1
    product =
        cong_trans
          (cong_mul_right (v * v * (n - 1)) (cong_trans close (cong_mul_left (n - 1) square_t)))
          (cong_trans (cong_of_eq n {b = x * v * (x * v) * ((n - 1) * (n - 1))} (omega arith))
            (cong_mul (cong_mul inv inv) (square_less_one n big)))

-- Powers of powers that are 1.
power_of_power : (m y p q k : ℕ) → Cong m (y ^ (p * k)) 1 → Cong m ((y ^ (p * q)) ^ k) 1
power_of_power m y p q k h =
    let same : (y ^ (p * q)) ^ k ≡ (y ^ (p * k)) ^ q =
      sym (pow-mul y (p * q) k)
      ∙ (ap (λ (t : ℕ). y ^ t) {x = p * q * k} {y = p * k * q} (omega arith)
          ∙ pow-mul y (p * k) q) in
    cong_trans (cong_of_eq m same) (cong_trans (cong_pow q h) (cong_of_eq m (one_pow q)))

-- The n-th power of a number with an inverse modulo n^2.
pub power-IsNoise :
    (p q : ℕ)
    → IsKeyPair p q
    → (y v : ℕ) → Cong (p * q * (p * q)) (y * v) 1
    → IsNoise p q (y ^ (p * q) % (p * q * (p * q)))
power-IsNoise p q key y v inv =
    let M = p * q * (p * q) in
    let W = y ^ (p * q) in
    let unit_p : Cong p (y * v) 1 = cong_weaken p (square_weaken_p p q inv) in
    let unit_q : Cong q (y * v) 1 = cong_weaken q (square_weaken_q p q inv) in
    let by_p = power_of_power (p * p) y p q (p - 1) (key.euler_p y v unit_p) in
    let by_q = power_of_power (q * q) y q p (q - 1) (key.euler_q y v unit_q) in
    let swap : (y ^ (q * p)) ^ (q - 1) ≡ W ^ (q - 1) =
      ap (λ (t : ℕ). (y ^ t) ^ (q - 1)) {x = q * p} {y = p * q} (omega arith) in
    record {
      inverse = v ^ (p * q);
      inverse_is = cong_trans (cong_mul_right (v ^ (p * q)) (cong_mod M W)) (
          cong_trans (cong_of_eq M (sym (mul-pow y v (p * q))))
            (cong_trans (cong_pow (p * q) inv) (cong_of_eq M (one_pow (p * q)))));
      noise_p = cong_trans (cong_pow (p - 1) (square_weaken_p p q (cong_mod M W))) by_p;
      noise_q =
          cong_trans (cong_pow (q - 1) (square_weaken_q p q (cong_mod M W)))
            (cong_trans (cong_of_eq (q * q) (sym swap)) by_q);
    }
