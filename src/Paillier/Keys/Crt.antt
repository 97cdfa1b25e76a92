-- ===== src/Paillier/Keys/Crt.antt =====
-- The power modulo n^2 from the powers modulo the squares of the primes.
use heu.Base.{ℕ, ◌+◌, ◌-◌, ◌*◌, ◌/◌, ◌%◌, ◌^◌, ◌<◌, ◌≡◌, ap, ◌∙◌, arith}
use native.Mathlib.Nat.{mul-pos, mod-lt}
use heu.Base.Int.Residue.{residue, residue-lt, residue_parts}
use heu.Base.Int.{ℤ, pos, pos_part, neg_part, ◌+ℤ◌, ◌-ℤ◌, ◌*ℤ◌, +ℤ_parts, -ℤ_parts}
use heu.Base.Int.Ring.{*ℤ_parts}
use heu.Base.Modular.{
  Cong, cong, cong_refl, cong_of_eq, cong_sym, cong_trans, cong_add, cong_mul_right, cong_pow,
  cong_weaken, cong_mod, one_pow, pow-add, pow-mul, cong_unique,
}
use heu.Paillier.BigInts.{BigInts, IsBigInts}
use heu.Paillier.Keys.{SecretKey, init_secret, pow_mod_n_square_crt}
use heu.Paillier.Keys.Derived.{IsSecret, init-IsSecret}
use heu.Paillier.Numbers.{IsKeyPair}
use heu.Paillier.Numbers.Decoding.{cong_crt}

-- An exponent may be reduced where the power with the modulus of the exponents is 1.
reduced_exponent : (m u k e : ℕ) → Cong m (u ^ k) 1 → Cong m (u ^ (e % k)) (u ^ e)
reduced_exponent m u k e h =
    let split : u ^ e ≡ (u ^ k) ^ (e / k) * u ^ (e % k) =
      ap (λ (t : ℕ). u ^ t) {x = e} {y = k * (e / k) + e % k} (omega arith)
      ∙ (pow-add u (k * (e / k)) (e % k) ∙ ap (λ (t : ℕ). t * u ^ (e % k)) (pow-mul u k (e / k))) in
    let one : Cong m ((u ^ k) ^ (e / k)) 1 =
      cong_trans (cong_pow (e / k) h) (cong_of_eq m (one_pow (e / k))) in
    cong_sym (
      cong_trans (cong_of_eq m split)
        (cong_trans (cong_mul_right (u ^ (e % k)) one) (cong_of_eq m (omega arith))))

-- Residues for a divisor of the modulus.
residue_divisor : (m k : ℕ) (x : ℤ) → 0 < m → 0 < m * k → Cong m (residue m x) (residue (m * k) x)
residue_divisor m k x h j = go (residue_parts m x h) (cong_weaken k (residue_parts (m * k) x j))
  where
    go :
        Cong m (residue m x + neg_part x) (pos_part x)
        → Cong m (residue (m * k) x + neg_part x) (pos_part x)
        → Cong m (residue m x) (residue (m * k) x)
    go (cong i l e) (cong u v f) = cong (i + v) (l + u) (omega arith)

-- One of the two powers.
partial_power :
    (m k phi e : ℕ) (x : ℤ)
    → 0 < m
    → 0 < m * k
    → Cong m (residue m x ^ phi) 1
    → Cong m (residue m x ^ (e % phi) % m) (residue (m * k) x ^ e)
partial_power m k phi e x h j euler = cong_trans (cong_mod m (residue m x ^ (e % phi))) (
    cong_trans (reduced_exponent m (residue m x) phi e euler)
      (cong_pow e (residue_divisor m k x h j)))

-- (a - c) * j + c, without a difference.
interpolate :
    (m a c j : ℕ)
    → 0 < m
    → Cong m (residue m ((pos a -ℤ pos c) *ℤ pos j +ℤ pos c) + j * c) (j * a + c)
interpolate m a c j h = go (residue_parts m z h)
  where
    z : ℤ
    z = (pos a -ℤ pos c) *ℤ pos j +ℤ pos c

    go :
        Cong m
          (residue m ((pos a -ℤ pos c) *ℤ pos j +ℤ pos c)
            + neg_part ((pos a -ℤ pos c) *ℤ pos j +ℤ pos c))
          (pos_part ((pos a -ℤ pos c) *ℤ pos j +ℤ pos c))
        → Cong m (residue m ((pos a -ℤ pos c) *ℤ pos j +ℤ pos c) + j * c) (j * a + c)
    go (cong i l e) = cong i l (
        omega (
          arith,
          ap (λ (t : ℕ). j * t) (-ℤ_parts (pos a) (pos c)),
          *ℤ_parts (pos a -ℤ pos c) (pos j),
          +ℤ_parts ((pos a -ℤ pos c) *ℤ pos j) (pos c),
        ))

-- The remainder theorem: where j is 1 modulo P and 0 modulo Q, that is a modulo P and c modulo Q.
crt_lem :
    (P Q j a c x : ℕ)
    → 0 < P * Q
    → Cong P (Q * j) 1
    → Cong P a x
    → Cong Q c x
    → residue (P * Q) ((pos a -ℤ pos c) *ℤ pos (j * Q) +ℤ pos c) ≡ x % (P * Q)
crt_lem P Q j a c x h one is_a is_c = go (interpolate (P * Q) a c (j * Q) h)
  where
    r : ℕ
    r = residue (P * Q) ((pos a -ℤ pos c) *ℤ pos (j * Q) +ℤ pos c)

    cancel : (y z u : ℕ) → Cong P (y + u) (z + u) → Cong P y z
    cancel y z u (cong i l e) = cong i l (omega arith)

    go : Cong (P * Q) (r + j * Q * c) (j * Q * a + c) → r ≡ x % (P * Q)
    go (cong i l e) =
        let at_q : Cong Q r c = cong (i * P + j * c) (l * P + j * a) (omega arith) in
        let both : Cong P (r + j * Q * c) (j * Q * a + c) = cong (i * Q) (l * Q) (omega arith) in
        let unit : Cong P (j * Q) 1 = cong_trans (cong_of_eq P (omega arith)) one in
        let left : Cong P (r + j * Q * c) (r + c) =
          cong_add (cong_refl P r)
            (cong_trans (cong_mul_right c unit) (cong_of_eq P (omega arith))) in
        let right : Cong P (j * Q * a + c) (a + c) =
          cong_add (cong_trans (cong_mul_right a unit) (cong_of_eq P (omega arith)))
            (cong_refl P c) in
        let at_p : Cong P r a = cancel r a c (cong_trans (cong_sym left) (cong_trans both right)) in
        let all : Cong (Q * P) r x =
          cong_crt Q P j one (cong_trans at_q is_c) (cong_trans at_p is_a) in
        cong_unique (residue-lt (P * Q) _ h) (mod-lt x h)
          (cong_trans (swap all) (cong_sym (cong_mod (P * Q) x)))
      where
        swap : Cong (Q * P) r x → Cong (P * Q) r x
        swap (cong u v f) = cong u v (omega arith)

secret_power :
    (b : BigInts) (laws : IsBigInts b) (p q : ℕ) (key : IsKeyPair p q) (sk : SecretKey) (x : ℤ)
    (e v : ℕ)
    → IsSecret sk p q
    → Cong (p * p * (q * q)) (residue (p * p * (q * q)) x * v) 1
    → pow_mod_n_square_crt b sk x (pos e)
      ≡ pos (residue (p * p * (q * q)) x ^ e % (p * p * (q * q)))
unfolding pow_mod_n_square_crt
secret_power b laws p q key sk x e v s inv =
    let P = p * p in
    let Q = q * q in
    let p_positive : 0 < p = omega (arith, key.p_big) in
    let q_positive : 0 < q = omega (arith, key.q_big) in
    let P_positive : 0 < P = mul-pos p_positive p_positive in
    let Q_positive : 0 < Q = mul-pos q_positive q_positive in
    let positive : 0 < P * Q = mul-pos P_positive Q_positive in
    let phi_p_positive : 0 < p * (p - 1) = mul-pos p_positive (omega (arith, key.p_big)) in
    let phi_q_positive : 0 < q * (q - 1) = mul-pos q_positive (omega (arith, key.q_big)) in
    let unit_p : Cong P (residue P x * v) 1 =
      cong_trans (cong_mul_right v (residue_divisor P Q x P_positive positive))
        (cong_weaken Q inv) in
    let turned : Cong (Q * P) (residue (P * Q) x * v) 1 = turn Q P inv in
    let unit_q : Cong Q (residue Q x * v) 1 =
      cong_trans
        (cong_mul_right v (
          cong_trans (residue_divisor Q P x Q_positive (rw' Q P positive))
            (cong_of_eq Q (ap (λ (m : ℕ). residue m x) {x = Q * P} {y = P * Q} (omega arith)))))
        (cong_weaken P turned) in
    let power_p =
      partial_power P Q (p * (p - 1)) e x P_positive positive
        (key.euler_p (residue P x) v (cong_weaken p unit_p)) in
    let power_q =
      partial_power Q P (q * (q - 1)) e x Q_positive (rw' Q P positive)
        (key.euler_q (residue Q x) v (cong_weaken q unit_q)) in
    let power_q' : Cong Q (residue Q x ^ (e % (q * (q - 1))) % Q) (residue (P * Q) x ^ e) =
      cong_trans power_q
        (cong_of_eq Q (ap (λ (m : ℕ). residue m x ^ e) {x = Q * P} {y = P * Q} (omega arith))) in
    rw
      (
        s.phi_p_square_is,
        s.phi_q_square_is,
        s.p_square_is,
        s.q_square_is,
        s.q_square_inverse_is,
        s.n_square_is,
        pow_mod_n_square_crt,
        laws.rem_is (pos e) (p * (p - 1)) phi_p_positive,
        laws.rem_is (pos e) (q * (q - 1)) phi_q_positive,
        laws.rem_is x P P_positive,
        laws.rem_is x Q Q_positive,
        laws.pow_mod_is (residue P x) (e % (p * (p - 1))) P P_positive,
        laws.pow_mod_is (residue Q x) (e % (q * (q - 1))) Q Q_positive,
      )
      (laws.rem_is _ (P * Q) positive
        ∙ ap pos (
            crt_lem P Q s.q_square_inverse _ _ (residue (P * Q) x ^ e) positive
              s.q_square_inverse_inv power_p power_q'))
  where
    turn : (y z : ℕ) {u w : ℕ} → Cong (z * y) u w → Cong (y * z) u w
    turn y z (cong i l f) = cong i l (omega arith)

    rw' : (y z : ℕ) → 0 < z * y → 0 < y * z
    rw' y z h = omega arith

-- For the numbers of a secret key that `Init` fills in, and a base that has an inverse modulo n^2,
-- the power by way of the primes is the power modulo n^2.
pub pow_mod_n_square_crt_lem :
    (b : BigInts) (laws : IsBigInts b) (p q : ℕ) (key : IsKeyPair p q) (lambda mu x : ℤ) (e v : ℕ)
    → Cong (p * q * (p * q)) (residue (p * q * (p * q)) x * v) 1
    → pow_mod_n_square_crt b (init_secret b lambda mu (pos p) (pos q)) x (pos e)
      ≡ pos (residue (p * q * (p * q)) x ^ e % (p * q * (p * q)))
pow_mod_n_square_crt_lem b laws p q key lambda mu x e v inv =
    let same : p * p * (q * q) ≡ p * q * (p * q) = omega arith in
    let inv' : Cong (p * p * (q * q)) (residue (p * p * (q * q)) x * v) 1 = rw same inv in
    secret_power b laws p q key _ x e v (init-IsSecret b laws p q lambda mu key) inv'
    ∙ ap (λ (m : ℕ). pos (residue m x ^ e % m)) same
