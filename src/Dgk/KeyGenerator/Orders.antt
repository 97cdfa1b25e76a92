-- ===== src/Dgk/KeyGenerator/Orders.antt =====
-- The orders of the generators of a key, for primes p = u * vp * wp + 1, q and u.
use heu.Base.{ℕ, ◌+◌, ◌-◌, ◌*◌, ◌%◌, ◌^◌, ◌<◌, ◌≡◌, ◌≢◌, sym, ap, ◌∙◌, arith}
use native.Mathlib.Nat.{mod-eq_of_lt, pow-suc, pow-zero}
use heu.Base.Int.{pos, ◌+ℤ◌, ◌-ℤ◌, ◌*ℤ◌}
use heu.Base.Int.Residue.{residue, residue-add, residue-sub, residue-mul}
use heu.Base.Modular.{
  Cong, cong, cong_of_eq, cong_trans, cong_sym, cong_refl, cong_add, cong_mod, cong_mul_left,
  cong_mul_right, cong_pow, cong_weaken, mod_of_cong, cong_of_mod, pow-add, pow-mul, one_pow,
}
use heu.Paillier.Numbers.Decoding.{cong_crt}
use heu.Dgk.Numbers.{power_cong, drop_multiples}
use heu.Dgk.Decryption.{Distinct}
use heu.Ou.KeyGenerator.Generators.{IsOddPrime}

pub power_one : (x : ℕ) → x ^ 1 ≡ x
power_one x = pow-suc x 0 ∙ (ap (λ (t : ℕ). t * x) (pow-zero x) ∙ omega arith)

-- The powers of w below u are distinct, where u is a prime, w^u is 1 and w is not.
pub powers-Distinct :
    (p w u : ℕ) → 1 < p → IsOddPrime u → Cong p (w ^ u) 1 → w % p ≢ 1 → Distinct p w u
powers-Distinct p w u big prime order other i j less small same =
    let some_p : 0 < p = omega arith in
    let d = j - i in
    let shifted : Cong p (w ^ (i + (u - i))) (w ^ (j + (u - i))) =
      cong_trans (cong_of_eq p (pow-add w i (u - i))) (
        cong_trans (cong_mul_right (w ^ (u - i)) (cong_of_mod p _ _ same))
          (cong_of_eq p (sym (pow-add w j (u - i))))) in
    let one : Cong p (w ^ d) 1 = cong_trans (cong_sym (drop_multiples p w u order d 1)) (
      cong_trans
        (cong_of_eq p (ap (λ (t : ℕ). w ^ t) {x = d + 1 * u} {y = j + (u - i)} (omega arith)))
        (cong_trans (cong_sym shifted) (
          cong_trans (cong_of_eq p (ap (λ (t : ℕ). w ^ t) {x = i + (u - i)} {y = u} (omega arith)))
            order))) in
    let small_d : d % u ≡ d = mod-eq_of_lt {n = d} {m = u} (omega arith) in
    let (e, unit) = prime.inverse d (omega (arith, small_d)) in
    let w_one : Cong p w 1 = cong_trans (cong_of_eq p (sym (power_one w))) (
      cong_trans (cong_sym (power_cong p w u order (d * e) 1 unit)) (
        cong_trans (cong_of_eq p (pow-mul w d e))
          (cong_trans (cong_pow e one) (cong_of_eq p (one_pow e))))) in
    other (mod_of_cong some_p w_one ∙ mod-eq_of_lt big)

-- Two units modulo p and q make one modulo p * q.
pub join_unit :
    (p q i x a c : ℕ)
    → 0 < q
    → Cong q (p * i) 1
    → Cong p (x * a) 1
    → Cong q (x * c) 1
    → (v : ℕ) × Cong (p * q) (x * v) 1
join_unit p q i x a c some_q inv unit_p unit_q =
    let s = q - 1 in
    let q_is : q ≡ s + 1 = omega arith in
    let v = a + p * (i * (c + a * s)) in
    let mod_p : Cong p (x * v) 1 =
      cong_trans (cong 0 (x * (i * (c + a * s))) (omega arith)) unit_p in
    let mod_q : Cong q (x * v) 1 =
      cong_trans (cong_of_eq q {b = x * a + p * i * (x * (c + a * s))} (omega arith)) (
        cong_trans (cong_add (cong_refl q (x * a)) (cong_mul_right (x * (c + a * s)) inv))
          (cong_trans (cong 0 (x * a) (omega (arith, ap (λ (t : ℕ). x * a * t) q_is))) unit_q)) in
    (v, cong_crt p q i inv mod_p mod_q)

-- The residue that the remainder theorem gives for x modulo p and y modulo q.
pub joined_residue :
    (p q i x y : ℕ)
    → 0 < p * q
    → Cong q (p * i) 1
    → Cong p (residue (p * q) (pos x +ℤ (pos y -ℤ pos x) *ℤ pos (p * i))) x
      × Cong q (residue (p * q) (pos x +ℤ (pos y -ℤ pos x) *ℤ pos (p * i))) y
joined_residue p q i x y some_n inv =
    let n = p * q in
    let diff = pos y -ℤ pos x in
    let d = residue n diff in
    let whole : Cong n (residue n (pos x +ℤ diff *ℤ pos (p * i))) (x + d * (p * i)) =
      cong_trans (residue-add n some_n (pos x) (diff *ℤ pos (p * i))) (
        cong_add (cong_mod n x) (
          cong_trans (residue-mul n some_n diff (pos (p * i)))
            (cong_mul_left d (cong_mod n (p * i))))) in
    let gap : Cong n (d + x) y =
      cong_trans (cong_add (cong_refl n d) (cong_sym (cong_mod n x)))
        (cong_trans (residue-sub n some_n (pos y) (pos x)) (cong_mod n y)) in
    (
      cong_trans (cong_weaken q whole) (cong 0 (d * i) (omega arith)),
      cong_trans (weaken_right whole) (
          cong_trans (cong_add (cong_refl q x) (cong_mul_left d inv))
            (cong_trans (cong_of_eq q (omega arith)) (weaken_right gap))),
    )
  where
    weaken_right : {a b : ℕ} → Cong (p * q) a b → Cong q a b
    weaken_right (cong i j e) = cong (i * p) (j * p) (omega arith)

module _ (p u vp wp : ℕ) (prime : IsOddPrime p) (other : IsOddPrime u)
    (order : u * vp * wp + 1 ≡ p) where
  -- The orders of g^vp, where g is the power of a number with the residue x.
  module _ (x a wq s g : ℕ) (unit : Cong p (x * a) 1) (wq_unit : Cong u (wq * s) 1)
      (shape : Cong p g (x ^ (wp * wq))) where
    w_shape : Cong p (g ^ vp) ((x ^ (vp * wp)) ^ wq)
    w_shape = cong_trans (cong_pow vp shape) (
        cong_of_eq p (
          sym (pow-mul x (wp * wq) vp)
          ∙ (ap (λ (t : ℕ). x ^ t) {x = wp * wq * vp} {y = vp * wp * wq} (omega arith)
              ∙ pow-mul x (vp * wp) wq)))

    z_order : Cong p ((x ^ (vp * wp)) ^ u) 1
    z_order =
        let e : vp * wp * u ≡ p - 1 = omega (arith, order) in
        cong_trans (cong_of_eq p (sym (pow-mul x (vp * wp) u) ∙ ap (λ (t : ℕ). x ^ t) e))
          (prime.fermat x a unit)

    -- The order divides u.
    pub w_order : Cong p ((g ^ vp % p) ^ u) 1
    w_order =
        let z = x ^ (vp * wp) in
        cong_trans (cong_pow u (cong_trans (cong_mod p (g ^ vp)) w_shape)) (
          cong_trans
            (cong_of_eq p (
              sym (pow-mul z wq u)
              ∙ (ap (λ (t : ℕ). z ^ t) {x = wq * u} {y = u * wq} (omega arith) ∙ pow-mul z u wq)))
            (cong_trans (cong_pow wq z_order) (cong_of_eq p (one_pow wq))))

    -- And g^vp is not 1, since the loop has tested the power of x.
    pub w-Distinct : x ^ (vp * wp) % p ≢ 1 → Distinct p (g ^ vp % p) u
    w-Distinct tested = powers-Distinct p (g ^ vp % p) u prime.big other w_order differs
      where
        differs : g ^ vp % p % p ≢ 1
        differs one =
            let z = x ^ (vp * wp) in
            let w_one : Cong p (z ^ wq) 1 = cong_trans (cong_sym w_shape) (
              cong_trans (cong_sym (cong_mod p (g ^ vp)))
                (cong_trans (cong_sym (cong_mod p (g ^ vp % p))) (cong_of_eq p one))) in
            let z_one : Cong p z 1 = cong_trans (cong_of_eq p (sym (power_one z))) (
              cong_trans (cong_sym (power_cong p z u z_order (wq * s) 1 wq_unit)) (
                cong_trans (cong_of_eq p (pow-mul z wq s))
                  (cong_trans (cong_pow s w_one) (cong_of_eq p (one_pow s))))) in
            tested (mod_of_cong (omega (arith, prime.big)) z_one ∙ mod-eq_of_lt prime.big)
