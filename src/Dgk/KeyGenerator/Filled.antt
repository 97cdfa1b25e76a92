-- ===== src/Dgk/KeyGenerator/Filled.antt =====
-- The keys that are filled in, and decryption under them.
use heu.Base.{
  ℕ, Bool, ◌+◌, ◌*◌, ◌/◌, ◌%◌, ◌^◌, ◌<◌, ◌≤◌, ◌≡◌, ◌≢◌, refl, sym, ap, ◌∙◌, false, ◌||◌, Bool-cases,
  inl, inr, List, [], ◌∷◌, ok, ok-injective, arith,
}
use native.Mathlib.Nat.{mul-pos, pow-zero}
use heu.Base.Int.{ℤ, pos, ◌+ℤ◌, ◌-ℤ◌, ◌*ℤ◌}
use heu.Base.Int.Residue.{residue}
use heu.Base.Modular.{
  Cong, cong_of_eq, cong_trans, cong_sym, cong_mod, cong_mul_right, cong_pow, cong_weaken,
  cong_of_mod, mod_of_cong, pow-mul, power_unit,
}
use heu.Paillier.BigInts.{BigInts, IsBigInts}
use heu.Paillier.Keys.Derived.{pos_mul}
use heu.Paillier.Scheme.{Ciphertext, same_int}
use heu.Paillier.Scheme.Circuit.{Circuit, value, Small, InBounds}
use heu.Additive.{IsAdditive}
use heu.Additive.Tables.{Tables, IsTables}
use heu.Additive.Runs.{run, run-Yields}
use heu.Dgk.Keys.{PublicKey, init_secret}
use heu.Dgk.Scheme.{operations, decrypt}
use heu.Dgk.Numbers.{Encodes, Encodes-IsAdditive}
use heu.Dgk.Runs.{IsPublic, operations-IsHomomorphic}
use heu.Dgk.Decryption.{Distinct, decrypt-Value}
use heu.Dgk.KeyGenerator.{Draws, find_gp, join_residues, fill_keys}
use heu.Dgk.KeyGenerator.Orders.{power_one, join_unit, joined_residue, w_order, w-Distinct}
use heu.Ou.KeyGenerator.Generators.{IsOddPrime}
use heu.Ou.Cache.Interleavings.{IsMask}

-- What the loop for gp has tested of the number that it accepts.
pub find_gp_lem :
    (b : BigInts) (p u vp wp gp : ℤ) (draws : List ℤ)
    → find_gp b p u vp wp draws ≡ ok gp
    → same_int (b.pow_mod gp (vp *ℤ wp) p) (pos 1) ≡ false
unfolding find_gp
find_gp_lem b p u vp wp gp [] h = cc
find_gp_lem b p u vp wp gp (x ∷ draws) h = elim (Bool-cases (refused x)) [
  | inl t ↦ find_gp_lem b p u vp wp gp draws (rw t at h)
  | inr t ↦ let same : x ≡ gp = ok-injective x gp (rw t at h) in rw (← same) (middle _ _ _ t)
]
  where
    refused : ℤ → Bool
    refused y =
        same_int (b.pow_mod y (u *ℤ vp) p) (pos 1)
        || same_int (b.pow_mod y (vp *ℤ wp) p) (pos 1)
        || same_int (b.pow_mod y (wp *ℤ u) p) (pos 1)

    middle : (r s t : Bool) → (r || s || t) ≡ false → s ≡ false
    middle r s t e = ground arith

pub not_one : (x : ℕ) → same_int (pos x) (pos 1) ≡ false → x ≢ 1
not_one x h one = absurd_bool (rw one at h)
  where
    absurd_bool : same_int (pos 1) (pos 1) ≡ false → ⊥
    absurd_bool e = cc

module _ (b : BigInts) (laws : IsBigInts b) (p q u vp vq wp wq gp gq : ℕ) (prime : IsOddPrime p)
    (prime_q : IsOddPrime q) (prime_u : IsOddPrime u) (order : u * vp * wp + 1 ≡ p)
    (apart : 0 < p % q) (some_gp : 0 < gp % p) (some_gq : 0 < gq % q) (some_wq : 0 < wq % u) where
  some_p : 0 < p
  some_p = omega (arith, prime.big)

  some_q : 0 < q
  some_q = omega (arith, prime_q.big)

  some_n : 0 < p * q
  some_n = mul-pos some_p some_q

  pub p_inverse : (i : ℕ) × (b.inv_mod (pos p) (pos q) ≡ pos i) × Cong q (p * i) 1
  p_inverse =
      let (v, unit) = prime_q.inverse p apart in
      let (i, is_i, below, inv) = laws.inv_mod_is p q v some_q (mod_of_cong some_q unit) in
      (i, is_i, cong_of_mod q _ _ inv)

  abbrev gn : ℕ
  gn = residue (p * q) (pos gp +ℤ (pos gq -ℤ pos gp) *ℤ pos (p * p_inverse.0))

  abbrev g : ℕ
  g = gn ^ (wp * wq) % (p * q)

  abbrev pub h : ℕ
  h = g ^ u % (p * q)

  abbrev w : ℕ
  w = g ^ vp % p

  gn_residues : Cong p gn gp × Cong q gn gq
  gn_residues = joined_residue p q p_inverse.0 gp gq some_n p_inverse.2

  gn_unit : (v : ℕ) × Cong (p * q) (gn * v) 1
  gn_unit =
      let (a, unit_p) = prime.inverse gp some_gp in
      let (c, unit_q) = prime_q.inverse gq some_gq in
      join_unit p q p_inverse.0 gn a c some_q p_inverse.2
        (cong_trans (cong_mul_right a gn_residues.0) unit_p)
        (cong_trans (cong_mul_right c gn_residues.1) unit_q)

  g_shape : Cong p g (gp ^ (wp * wq))
  g_shape =
      cong_trans (cong_weaken q (cong_mod (p * q) (gn ^ (wp * wq))))
        (cong_pow (wp * wq) gn_residues.0)

  order_w : Cong p (w ^ u) 1
  order_w =
      let (a, unit) = prime.inverse gp some_gp in
      let (s, wq_unit) = prime_u.inverse wq some_wq in
      w_order p u vp wp prime prime_u order gp a wq s g unit wq_unit g_shape

  tested-Distinct : gp ^ (vp * wp) % p ≢ 1 → Distinct p w u
  tested-Distinct tested =
      let (a, unit) = prime.inverse gp some_gp in
      let (s, wq_unit) = prime_u.inverse wq some_wq in
      w-Distinct p u vp wp prime prime_u order gp a wq s g unit wq_unit g_shape tested

  abbrev scheme : IsAdditive u (p * q) (Encodes p q vp w)
  scheme = Encodes-IsAdditive p q vp w u order_w

  g_unit : Cong (p * q) (g * gn_unit.0 ^ (wp * wq)) 1
  g_unit = power_unit (p * q) gn gn_unit.0 (wp * wq) gn_unit.1

  g_Encodes : Encodes p q vp w (residue u (pos 1)) g
  g_Encodes = scheme.resp 1 (1 % u) g (cong_sym (cong_mod u 1)) (record {
    inverse = gn_unit.0 ^ (wp * wq);
    inverse_is = g_unit;
    shape = cong_trans (cong_sym (cong_mod p (g ^ vp))) (cong_of_eq p (sym (power_one w)));
  })

  h_Encodes : Encodes p q vp w (residue u (pos 0)) h
  h_Encodes = scheme.resp 0 (0 % u) h (cong_sym (cong_mod u 0)) (record {
    inverse = (gn_unit.0 ^ (wp * wq)) ^ u;
    inverse_is = power_unit (p * q) g (gn_unit.0 ^ (wp * wq)) u g_unit;
    shape = cong_trans (cong_pow vp (cong_weaken q (cong_mod (p * q) (g ^ u)))) (
        cong_trans
          (cong_of_eq p (
            sym (pow-mul g u vp)
            ∙ (ap (λ (t : ℕ). g ^ t) {x = u * vp} {y = vp * u} (omega arith) ∙ pow-mul g vp u)))
          (cong_trans (cong_pow u (cong_sym (cong_mod p (g ^ vp))))
            (cong_trans order_w (cong_of_eq p (sym (pow-zero w))))));
  })

  join_lem : join_residues b (pos p) (pos q) (pos gp) (pos gq) ≡ pos gn
  unfolding join_residues
  join_lem =
      let diff = pos gq -ℤ pos gp in
      ap (λ (t : ℤ). b.rem (pos gp +ℤ diff *ℤ (pos p *ℤ t)) (pos p *ℤ pos q)) p_inverse.1
      ∙ (ap (λ (t : ℤ). b.rem (pos gp +ℤ diff *ℤ t) (pos p *ℤ pos q)) (pos_mul p p_inverse.0)
          ∙ (ap (λ (t : ℤ). b.rem (pos gp +ℤ diff *ℤ pos (p * p_inverse.0)) t) (pos_mul p q)
              ∙ laws.rem_is (pos gp +ℤ diff *ℤ pos (p * p_inverse.0)) (p * q) some_n))

  pub fill_lem :
      (draws : Draws)
      → draws.vp ≡ pos vp
      → draws.vq ≡ pos vq
      → fill_keys b (pos u) draws (pos wp) (pos wq) (pos p) (pos q) (pos gp) (pos gq) ≡ (
        init_secret b (pos p) (pos q) (pos vp) (pos vq) (pos u) (pos g),
        record { n = pos (p * q); g = pos g; h = pos h; u = pos u },
      )
  unfolding fill_keys
  fill_lem draws is_vp is_vq =
      rw
        (
          is_vp,
          is_vq,
          join_lem,
          pos_mul p q,
          pos_mul wp wq,
          laws.pow_mod_is gn (wp * wq) (p * q) some_n,
          laws.pow_mod_is g u (p * q) some_n,
        )
        refl

  -- What is computed under the keys that are filled in is decrypted to its value.
  pub decrypt-run :
      gp ^ (vp * wp) % p ≢ 1
      → u ≤ 2 ^ b.bit_count (pos u)
      → (tables : Tables) (table_laws : IsTables b tables) (masks : ℕ → ℤ)
        (zero_masks : Ciphertext → ℤ → ℤ) (e : Circuit)
      → ((i : ℕ) → IsMask b (p * q) h (masks i))
      → ((x : Ciphertext) (k : ℤ) → IsMask b (p * q) h (zero_masks x k))
      → InBounds (u / 2) e
      → Small (u / 2) (value e)
      → let pk : PublicKey = record { n = pos (p * q); g = pos g; h = pos h; u = pos u } in
        (ct : Ciphertext) × (run (operations b tables pk masks zero_masks) e ≡ ok ct)
        × (decrypt b tables pk (init_secret b (pos p) (pos q) (pos vp) (pos vq) (pos u) (pos g)) ct
            ≡ ok (value e))
  decrypt-run tested u_bits tables table_laws masks zero_masks e good zero_good bounds small =
      let some_u : 0 < u = omega (arith, prime_u.big) in
      let key : IsPublic b p q vp w u g h = record {
        g_encodes = g_Encodes;
        h_encodes = h_Encodes;
        u_bits = u_bits;
      } in
      let (ct, ran, held) =
        run-Yields _ (u / 2) _
          (operations-IsHomomorphic b laws tables table_laws p q vp w u g h some_u some_n scheme key
            masks good zero_masks zero_good)
          e bounds in
      (
        ct,
        ran,
        decrypt-Value b laws tables table_laws p q vp w u g h some_u some_n scheme key masks good
            zero_masks zero_good vq prime.big prime_u.odd (tested-Distinct tested) refl ct (value e)
            small held,
      )
