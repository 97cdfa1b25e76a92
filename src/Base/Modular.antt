-- ===== src/Base/Modular.antt =====
-- Congruence of natural numbers.
use Prim.Native.Nat.{ℕ, zero, suc, ◌+◌, ◌*◌, ◌/◌, ◌%◌, ◌^◌, ◌<◌}
use mathlib.Core.Path.{◌≡◌, refl, sym, ap, ◌∙◌}
use native.Mathlib.Omega.{arith}
use native.Mathlib.Nat.{pow-suc, pow-zero, mod-lt, mod-eq_of_lt, add-mod_right}

-- a and b differ by a multiple of m.
pub data Cong (m a b : ℕ) : Type 0 where
  cong : (i j : ℕ) → a + i * m ≡ b + j * m → Cong m a b

pub cong_refl : (m a : ℕ) → Cong m a a
cong_refl m a = cong 0 0 refl

pub cong_of_eq : (m : ℕ) {a b : ℕ} → a ≡ b → Cong m a b
cong_of_eq m e = cong 0 0 (omega arith)

pub cong_sym : {m a b : ℕ} → Cong m a b → Cong m b a
cong_sym (cong i j e) = cong j i (sym e)

pub cong_trans : {m a b c : ℕ} → Cong m a b → Cong m b c → Cong m a c
cong_trans (cong i j e) (cong k l f) = cong (i + k) (j + l) (omega arith)

pub cong_add : {m a b c d : ℕ} → Cong m a b → Cong m c d → Cong m (a + c) (b + d)
cong_add (cong i j e) (cong k l f) = cong (i + k) (j + l) (omega arith)

pub cong_mul_right : {m a b : ℕ} (c : ℕ) → Cong m a b → Cong m (a * c) (b * c)
cong_mul_right c (cong i j e) = cong (i * c) (j * c) (omega (arith, ap (λ (t : ℕ). t * c) e))

pub cong_mul_left : {m a b : ℕ} (c : ℕ) → Cong m a b → Cong m (c * a) (c * b)
cong_mul_left c (cong i j e) = cong (i * c) (j * c) (omega (arith, ap (λ (t : ℕ). t * c) e))

pub cong_mul : {m a b c d : ℕ} → Cong m a b → Cong m c d → Cong m (a * c) (b * d)
cong_mul {b} {c} e f = cong_trans (cong_mul_right c e) (cong_mul_left b f)

pub cong_pow : {m a b : ℕ} (n : ℕ) → Cong m a b → Cong m (a ^ n) (b ^ n)
cong_pow {m} {a} {b} zero e = cong_of_eq m (rw (pow-zero a, pow-zero b))
cong_pow {m} {a} {b} (suc n) e = rw (pow-suc a n, pow-suc b n) (cong_mul (cong_pow n e) e)

-- A multiple of the modulus may be left out.
pub cong_weaken : {m a b : ℕ} (k : ℕ) → Cong (m * k) a b → Cong m a b
cong_weaken k (cong i j e) = cong (i * k) (j * k) (omega arith)

pub cong_mod : (m a : ℕ) → Cong m (a % m) a
cong_mod m a = cong (a / m) 0 (omega arith)

pub one_pow : (n : ℕ) → 1 ^ n ≡ 1
one_pow zero = pow-zero 1
one_pow (suc n) = rw (pow-suc 1 n, one_pow n)

pub pow-add : (a n k : ℕ) → a ^ (n + k) ≡ a ^ n * a ^ k
pow-add a n zero = rw (pow-zero a) (omega' (ap (λ (t : ℕ). a ^ t) {x = n + 0} (omega arith)))
  where
    omega' : a ^ (n + 0) ≡ a ^ n → a ^ (n + 0) ≡ a ^ n * 1
    omega' h = omega arith
pow-add a n (suc k) =
    let up : a ^ (n + suc k) ≡ a ^ (n + k) * a =
      ap (λ (t : ℕ). a ^ t) {x = n + suc k} {y = suc (n + k)} (omega arith) ∙ pow-suc a (n + k) in
    let side = ap (λ (t : ℕ). t * a) (pow-add a n k) in
    let more = ap (λ (t : ℕ). a ^ n * t) (pow-suc a k) in omega arith

pub pow-mul : (a n k : ℕ) → a ^ (n * k) ≡ (a ^ n) ^ k
pow-mul a n zero =
    ap (λ (t : ℕ). a ^ t) {x = n * 0} {y = 0} (omega arith) ∙ (pow-zero a ∙ sym (pow-zero (a ^ n)))
pow-mul a n (suc k) =
    ap (λ (t : ℕ). a ^ t) {x = n * suc k} {y = n * k + n} (omega arith)
    ∙ (pow-add a (n * k) n ∙ (ap (λ (t : ℕ). t * a ^ n) (pow-mul a n k) ∙ sym (pow-suc (a ^ n) k)))

pub mul-pow : (a b n : ℕ) → (a * b) ^ n ≡ a ^ n * b ^ n
mul-pow a b zero = rw (pow-zero (a * b), pow-zero a, pow-zero b)
mul-pow a b (suc n) =
    let up = pow-suc (a * b) n in
    let side = ap (λ (t : ℕ). t * (a * b)) (mul-pow a b n) in
    let more : a ^ suc n * b ^ suc n ≡ a ^ n * a * (b ^ n * b) = rw (pow-suc a n, pow-suc b n) in
    omega arith

-- Residues are unique.
pub cong_unique : {m a b : ℕ} → a < m → b < m → Cong m a b → a ≡ b
cong_unique {m} {a} {b} h k (cong i j e) =
    sym (mod-eq_of_lt h)
    ∙ (sym (add_multiple a i) ∙ (ap (λ (t : ℕ). t % m) e ∙ (add_multiple b j ∙ mod-eq_of_lt k)))
  where
    add_multiple : (x n : ℕ) → (x + n * m) % m ≡ x % m
    add_multiple x zero = ap (λ (t : ℕ). t % m) {x = x + 0 * m} (omega arith)
    add_multiple x (suc n) =
        ap (λ (t : ℕ). t % m) {x = x + suc n * m} {y = x + n * m + m} (omega arith)
        ∙ (add-mod_right (x + n * m) m ∙ add_multiple x n)

pub mod_of_cong : {m a b : ℕ} → 0 < m → Cong m a b → a % m ≡ b % m
mod_of_cong {m} {a} {b} h e =
    cong_unique (mod-lt a h) (mod-lt b h)
      (cong_trans (cong_mod m a) (cong_trans e (cong_sym (cong_mod m b))))

pub cong_of_mod : (m a b : ℕ) → a % m ≡ b % m → Cong m a b
cong_of_mod m a b e =
    cong_trans (cong_sym (cong_mod m a)) (cong_trans (cong_of_eq m e) (cong_mod m b))

-- The inverse of a power.
pub power_unit : (n x v k : ℕ) → Cong n (x * v) 1 → Cong n (x ^ k % n * v ^ k) 1
power_unit n x v k inv = cong_trans (cong_mul_right (v ^ k) (cong_mod n (x ^ k))) (
    cong_trans (cong_of_eq n (sym (mul-pow x v k)))
      (cong_trans (cong_pow k inv) (cong_of_eq n (one_pow k))))
