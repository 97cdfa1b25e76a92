-- ===== src/Paillier/Numbers/Decoding.antt =====
-- Reading off the plaintext: for one of the primes, and from both by the remainder theorem.
use heu.Base.{
  ℕ, ◌+◌, ◌-◌, ◌*◌, ◌/◌, ◌%◌, ◌^◌, ◌<◌, ◌≤◌, ◌≡◌, ap, ◌∙◌, arith, leb, leb→le, Bool-cases, inl, inr,
}
use native.Mathlib.Nat.{mod-lt, mul-div_cancel, mul-le-mul_right}
use heu.Base.Modular.{
  Cong, cong, cong_refl, cong_of_eq, cong_sym, cong_trans, cong_add, cong_mul_right, cong_mul_left,
  cong_mul, cong_pow, one_pow, cong_weaken, cong_mod, mul-pow, cong_unique, mod_of_cong,
  cong_of_mod,
}
use heu.Paillier.Numbers.Encodings.{plain-pow}

-- (1 + py - 1) / p
pub div_exact : (p y : ℕ) → 1 < p → (1 + p * y - 1) / p ≡ y
div_exact p y h =
    ap (λ (t : ℕ). t / p) {x = 1 + p * y - 1} {y = y * p} (omega arith)
    ∙ mul-div_cancel y (omega arith)

pub quotient_lem :
    (p l x : ℕ) → 1 < p → Cong (p * p) x (1 + p * l) → (1 ≤ x) × Cong p ((x - 1) / p) l
quotient_lem p l x big (cong i j e) = elim (Bool-cases (leb (i * p) (l + j * p))) [
  | inl t ↦
      let h : i * p ≤ l + j * p = leb→le _ _ t in
      let y = l + j * p - i * p in
      let split : l + j * p ≡ y + i * p = omega arith in
      let x_is : x ≡ 1 + p * y = omega (arith, ap (λ (t : ℕ). p * t) split) in
      (omega arith, rw (x_is, div_exact p y big) (cong i j (omega arith)))
  | inr t ↦
      let z = i * p - (l + j * p + 1) in
      let split : i * p ≡ l + j * p + 1 + z = ground arith in
      absurd (omega (arith, ap (λ (t : ℕ). p * t) split))
]

-- Two congruences for moduli that are prime to each other.
pub cong_crt : (p q k : ℕ) {x a : ℕ} → Cong q (p * k) 1 → Cong p x a → Cong q x a → Cong (p * q) x a
cong_crt p q k {x} {a} (cong s t e3) (cong i j e1) (cong m l e2) =
    cong (m * k + i * s + j * t) (l * k + j * s + i * t) (
      omega (
        arith,
        ap (λ (u : ℕ). x * u) e3,
        ap (λ (u : ℕ). a * u) e3,
        ap (λ (u : ℕ). p * k * u) e2,
        ap (λ (u : ℕ). q * s * u) e1,
        ap (λ (u : ℕ). q * t * u) e1,
      ))

-- The power of an encryption for the prime p, where q is the other one.
pub power_cong :
    (p q a c w : ℕ)
    → Cong (p * p) c ((1 + p * q * a) * w)
    → Cong (p * p) (w ^ (p - 1)) 1
    → Cong (p * p) (c ^ (p - 1) % (p * p)) (1 + p * (q * ((p - 1) * a)))
power_cong p q a c w e h =
    let k = p - 1 in
    let plain : Cong (p * p) ((1 + p * q * a) ^ k) (1 + p * q * (k * a)) =
      cong_weaken (q * q) (cong_of_eq' (plain-pow (p * q) a k)) in
    cong_trans (cong_mod (p * p) (c ^ k)) (
      cong_trans (cong_pow k e) (
        cong_trans (cong_of_eq _ (mul-pow (1 + p * q * a) w k))
          (cong_trans (cong_mul plain h) (cong_of_eq _ (omega arith)))))
  where
    cong_of_eq' : {x y : ℕ} → Cong (p * q * (p * q)) x y → Cong (p * p * (q * q)) x y
    cong_of_eq' (cong i j f) = cong i j (omega arith)

-- The quotient of g = 1 + n, which `hp` and `hq` invert.
abbrev pub unit_quotient : ℕ → ℕ → ℕ
unit_quotient p q = ((1 + p * q) ^ (p - 1) % (p * p) - 1) / p

pub unit_quotient_lem :
    (p q : ℕ)
    → 1 < p
    → (1 ≤ (1 + p * q) ^ (p - 1) % (p * p)) × Cong p (unit_quotient p q) (q * ((p - 1) * 1))
unit_quotient_lem p q big =
    quotient_lem p (q * ((p - 1) * 1)) _ big
      (power_cong p q 1 (1 + p * q) 1 (cong_of_eq _ (omega arith)) (cong_of_eq _ (one_pow (p - 1))))

-- (p - 1)^2 is 1 modulo p.
pub square_less_one : (p : ℕ) → 1 < p → Cong p ((p - 1) * (p - 1)) 1
square_less_one p big =
    let k = p - 2 in
    let e : p ≡ k + 2 = omega arith in
    let f : p - 1 ≡ k + 1 = omega arith in cong 0 k (rw f (omega (arith, ap (λ (t : ℕ). k * t) e)))

pub unit_invertible :
    (p q i : ℕ) → 1 < p → Cong p (q * i) 1 → unit_quotient p q * (i * (p - 1)) % p ≡ 1 % p
unit_invertible p q i big inv = mod_of_cong (omega arith) (
    cong_trans (cong_mul_right (i * (p - 1)) (unit_quotient_lem p q big).1) (
      cong_trans (cong_of_eq _ {b = q * i * ((p - 1) * (p - 1))} (omega arith))
        (cong_trans (cong_mul inv (square_less_one p big)) (cong_refl p 1))))

-- With the inverse h of that quotient, the quotient of an encryption of a gives a.
pub residue_part :
    (p q a y h : ℕ)
    → 1 < p
    → Cong p y (q * ((p - 1) * a))
    → unit_quotient p q * h % p ≡ 1 % p
    → y % p * (h % p) % p ≡ a % p
residue_part p q a y h big e inv =
    let unit = (unit_quotient_lem p q big).1 in
    mod_of_cong (omega arith) (
      cong_trans (cong_mul (cong_mod p y) (cong_mod p h)) (
        cong_trans (cong_mul_right h e) (
          cong_trans (cong_of_eq _ {b = q * ((p - 1) * 1) * h * a} (omega arith)) (
            cong_trans
              (cong_mul_right a
                (cong_trans (cong_mul_right h (cong_sym unit)) (cong_of_mod p _ _ inv)))
              (cong_of_eq _ (omega arith))))))

-- Garner's formula: from the residues for p and q the residue for their product.
pub garner :
    (p q k a s mp mq : ℕ)
    → 0 < p
    → 0 < q
    → Cong q (p * k) 1
    → mp ≡ a % p
    → mq ≡ a % q
    → Cong q (s + mp) mq
    → s % q * (k % q) % q * p + mp ≡ a % (p * q)
garner p q k a s mp mq hp hq inv is_mp is_mq diff =
    let t = s % q * (k % q) % q in
    let small : t < q = mod-lt (s % q * (k % q)) hq in
    let mp_small : mp < p = rw is_mp (mod-lt a hp) in
    let mod_p : Cong p (t * p + mp) a =
      cong_trans (cong 0 t (omega arith)) (cong_trans (cong_of_eq p is_mp) (cong_mod p a)) in
    let t_is : Cong q t (s * k) =
      cong_trans (cong_mod q (s % q * (k % q))) (cong_mul (cong_mod q s) (cong_mod q k)) in
    let shifted : Cong q (t * p) s = cong_trans (cong_mul_right p t_is) (
      cong_trans (cong_of_eq q {b = s * (p * k)} (omega arith))
        (cong_trans (cong_mul_left s inv) (cong_of_eq q (omega arith)))) in
    let mod_q : Cong q (t * p + mp) a =
      cong_trans (cong_add shifted (cong_refl q mp))
        (cong_trans diff (cong_trans (cong_of_eq q is_mq) (cong_mod q a))) in
    let bound : t * p + mp < p * q = omega (arith, mul-le-mul_right p small) in
    cong_unique bound (mod-lt a (omega arith))
      (cong_trans (cong_crt p q k inv mod_p mod_q) (cong_sym (cong_mod (p * q) a)))
