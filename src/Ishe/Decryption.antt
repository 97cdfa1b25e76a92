-- ===== src/Ishe/Decryption.antt =====
-- What ishe encrypts, and what decryption gives where the noise is below p.
use heu.Base.{
  ℕ, zero, suc, ◌+◌, ◌-◌, ◌*◌, ◌/◌, ◌%◌, ◌^◌, ◌<◌, ◌≤◌, ◌≡◌, refl, ◌∙◌, true, not, ◌&&◌, List,
  if◌then◌else◌, ok, arith,
}
use native.Mathlib.Nat.{mod-eq_of_lt, mul-le-mul_right}
use heu.Base.Int.{
  ℤ, pos, negsuc, pos_part, neg_part, neg_ℤ, ltb_ℤ, ◌+ℤ◌, ◌-ℤ◌, ◌*ℤ◌, +ℤ_parts, eq_of_parts,
}
use heu.Base.Int.Residue.{residue, residue_parts, residue-lt}
use heu.Base.Modular.{
  Cong, cong, cong_of_eq, cong_sym, cong_trans, cong_mul, cong_mul_left, cong_mul_right, cong_mod,
  cong_weaken, cong_of_mod, mod_of_cong, power_unit,
}
use heu.Paillier.BigInts.{BigInts, IsBigInts}
use heu.Paillier.Keys.Derived.{pos_mul, pos_add}
use heu.Ishe.Scheme as S
use heu.Ishe.Scheme.{Ciphertext, SecretKey, PublicParameters, message_bound}
use heu.Ishe.Runs.{Holds, pp}

-- The integer with residue r that decryption takes.
centered_lem :
    (l : ℕ) (m : ℤ)
    → pos_part m < l / 2
    → neg_part m ≤ l / 2
    → (if ltb_ℤ (pos (residue l m)) (pos (l / 2))
        then pos (residue l m)
        else pos (residue l m) -ℤ pos l)
      ≡ m
unfolding ◌-ℤ◌
centered_lem l (pos a) high low =
    let small : a % l ≡ a = mod-eq_of_lt (omega arith) in rw small (ground arith)
centered_lem l (negsuc a) high low =
    let small : a % l ≡ a = mod-eq_of_lt (omega arith) in rw small (ground arith)

in_space :
    (m : ℤ) (half : ℕ)
    → pos_part m < half
    → neg_part m ≤ half
    → (ltb_ℤ m (pos half) && not (ltb_ℤ m (neg_ℤ (pos half)))) ≡ true
in_space m zero high low = absurd (omega arith)
in_space m (suc h) high low =
    let opposite : neg_ℤ (pos (suc h)) ≡ negsuc h = ground arith in rw opposite (ground arith)

module _ (b : BigInts) (laws : IsBigInts b) (p q s l bound : ℕ) (some_n : 0 < p * q)
    (some_l : 0 < l) (k_0 k_r k_m : ℕ) (addones ones negs : List ℤ) where
  abbrev pub sk : SecretKey
  sk = record { s = pos s; p = pos p; capital_l = pos l }

  abbrev public : PublicParameters
  public = pp b laws p q s l (bound * l) some_n some_l k_0 k_r k_m addones ones negs

  abbrev pub Fresh : ℤ → ℕ → Ciphertext → Type 0
  Fresh m d =
      Holds b laws p q s l (bound * l) some_n some_l k_0 k_r k_m addones ones negs m d (bound * l)

  -- r * L + m
  noisy_lem :
      (m : ℤ) (r : ℕ)
      → 0 < r
      → neg_part m ≤ l
      → pos r *ℤ pos l +ℤ m ≡ pos (r * l + pos_part m - neg_part m)
  noisy_lem m r some_r low =
      let room : l ≤ r * l = omega (arith, mul-le-mul_right l some_r) in
      rw (pos_mul r l) (eq_of_parts _ _ (omega (arith, +ℤ_parts (pos (r * l)) m)))

  message_lem :
      (m : ℤ) (r : ℕ)
      → 0 < r
      → neg_part m ≤ l
      → Cong l (r * l + pos_part m - neg_part m) (residue l m)
  message_lem m r some_r low =
      let room : l ≤ r * l = omega (arith, mul-le-mul_right l some_r) in
      go room (residue_parts l m some_l)
    where
      go :
          l ≤ r * l
          → Cong l (residue l m + neg_part m) (pos_part m)
          → Cong l (r * l + pos_part m - neg_part m) (residue l m)
      go room (cong i j e) = cong j (r + i) (omega arith)

  pub encrypt_impl-Fresh :
      (m : ℤ) (d r t : ℕ)
      → 2 ^ (k_m - 1) ≤ l
      → pos_part m < 2 ^ (k_m - 1)
      → neg_part m ≤ 2 ^ (k_m - 1)
      → 0 < r
      → r < bound
      → (ct : Ciphertext) × (S.encrypt_impl b public sk m d (pos r) (pos t) ≡ ok ct) × Fresh m d ct
  unfolding S.encrypt_impl message_bound
  encrypt_impl-Fresh m d r t half high low some_r few =
      let x = r * l + pos_part m - neg_part m in
      let top = s ^ d % (p * q) * x in
      let mask = 1 + t * p in
      let reach : suc r * l ≤ bound * l = mul-le-mul_right l few in
      (
        record { n = pos (top % (p * q) * (mask % (p * q)) % (p * q)); d = d },
        rw
            (
              in_space m (2 ^ (k_m - 1)) high low,
              laws.pow_mod_is s d (p * q) some_n,
              noisy_lem m r some_r (omega arith),
              pos_mul (s ^ d % (p * q)) x,
              pos_mul t p,
              pos_add 1 (t * p),
              laws.mul_mod_is (pos top) (pos mask) (p * q) some_n,
            )
            refl,
        (
          _,
          refl,
          record {
            noisy = x;
            shape =
                cong_trans
                  (cong_weaken q (
                    cong_trans (cong_mod (p * q) _)
                      (cong_mul (cong_mod (p * q) top) (cong_mod (p * q) mask))))
                  (cong_trans (cong 0 (top * t) (omega arith))
                    (cong_mul_right x (cong_weaken q (cong_mod (p * q) (s ^ d)))));
            message = message_lem m r some_r (omega arith);
            below = omega arith;
          },
        ),
      )

  pub decrypt-Holds :
      (t : ℕ) (ct : Ciphertext) (m : ℤ) (d g : ℕ)
      → Cong (p * q) (s * t) 1
      → g < p
      → pos_part m < l / 2
      → neg_part m ≤ l / 2
      → Holds b laws p q s l (bound * l) some_n some_l k_0 k_r k_m addones ones negs m d g ct
      → S.decrypt b public sk ct ≡ m
  unfolding S.decrypt
  decrypt-Holds t ct m d g unit fits high low (c, is_c, held) =
      let top = s ^ d % (p * q) in
      let (i, is_i, below, inv) =
        laws.inv_mod_is top (p * q) (t ^ d) some_n
          (mod_of_cong some_n (power_unit (p * q) s t d unit)) in
      let v = c % (p * q) * (i % (p * q)) % (p * q) in
      let x = held.noisy in
      let inverse : Cong p (s ^ d * i) 1 = cong_weaken q (
        cong_trans (cong_mul_right i (cong_sym (cong_mod (p * q) (s ^ d))))
          (cong_of_mod (p * q) _ _ inv)) in
      let whole : Cong p v (c * i) =
        cong_weaken q
          (cong_trans (cong_mod (p * q) _) (cong_mul (cong_mod (p * q) c) (cong_mod (p * q) i))) in
      let clear : Cong p v x = cong_trans whole (
        cong_trans (cong_mul_right i held.shape) (
          cong_trans (cong_of_eq p {b = x * (s ^ d * i)} (omega arith))
            (cong_trans (cong_mul_left x inverse) (cong_of_eq p (omega arith))))) in
      let some_p : 0 < p = omega arith in
      let mod_p : v % p ≡ x = mod_of_cong some_p clear ∙ mod-eq_of_lt (omega (arith, held.below)) in
      let mod_l : x % l ≡ residue l m =
        mod_of_cong some_l held.message ∙ mod-eq_of_lt (residue-lt l m some_l) in
      rw
        (
          is_c,
          laws.pow_mod_is s d (p * q) some_n,
          is_i,
          laws.mul_mod_is (pos c) (pos i) (p * q) some_n,
          laws.rem_is (pos v) p some_p,
          mod_p,
          laws.rem_is (pos x) l some_l,
          mod_l,
          laws.div_is l 2 (omega arith),
        )
        (centered_lem l m high low)
