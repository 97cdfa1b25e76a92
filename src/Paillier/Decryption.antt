-- ===== src/Paillier/Decryption.antt =====
-- Decryption of what the encryptor and the evaluator compute.
use heu.Base.{
  ℕ, ◌+◌, ◌-◌, ◌*◌, ◌/◌, ◌%◌, ◌^◌, ◌<◌, ◌≡◌, refl, ap, ap₂, ◌∙◌, true, Result, ok, ◌>>◌, ==_refl,
  arith,
}
use native.Mathlib.Nat.{mul-pos, mod-eq_of_lt}
use heu.Base.Int.Residue.{residue, residue-lt, residue-sub}
use heu.Base.Int.{ℤ, pos, ◌-ℤ◌, ◌*ℤ◌}
use heu.Base.Modular.{Cong, cong_of_eq, cong_trans, cong_sym, cong_mod, cong_refl, cong_add}
use heu.Paillier.BigInts.{BigInts, IsBigInts, plain}
use heu.Paillier.Residues.{centered}
use heu.Paillier.Keys.{PublicKey, SecretKey}
use heu.Paillier.Keys.Derived.{IsSecret, pos_mul, pos_add, pos_sub}
use heu.Paillier.Numbers.{IsKeyPair, IsNoise, square_weaken_p, square_weaken_q}
use heu.Paillier.Numbers.Decoding.{quotient_lem, power_cong, residue_part, garner, unit_quotient}
use heu.Paillier.Scheme as S
use heu.Paillier.Scheme.{Ciphertext, validate, decrypt_part, decrypt, create_decryptor, same_int}
use heu.Paillier.Scheme.Circuit.{Small}
use heu.Paillier.Scheme.Runs.{key_of, Value, validate_lem}

-- The residue of the plaintext for the prime p, where q is the other one.
decrypt_part_lem :
    (b : BigInts) (laws : IsBigInts b) (p q a c w h : ℕ)
    → 1 < p
    → Cong (p * p) c ((1 + p * q * a) * w)
    → Cong (p * p) (w ^ (p - 1)) 1
    → unit_quotient p q * h % p ≡ 1 % p
    → decrypt_part b (pos c) (pos (p - 1)) (pos (p * p)) (pos p) (pos h) ≡ pos (a % p)
unfolding decrypt_part
decrypt_part_lem b laws p q a c w h big shape noise inv =
    let x = c ^ (p - 1) % (p * p) in
    let (some_x, quotient) =
      quotient_lem p (q * ((p - 1) * a)) x big (power_cong p q a c w shape noise) in
    rw
      (
        decrypt_part,
        laws.pow_mod_is c (p - 1) (p * p) (mul-pos (omega arith) (omega arith)),
        pos_sub x 1 some_x,
        laws.div_is (x - 1) p (omega arith),
        laws.mul_mod_is (pos ((x - 1) / p)) (pos h) p (omega arith),
      )
      (ap pos (residue_part p q a ((x - 1) / p) h big quotient inv))

module _ (b : BigInts) (laws : IsBigInts b) (p q : ℕ) (key : IsKeyPair p q) (big : 0 < p * q)
    (bigger : 0 < p * q * (p * q)) (hs size : ℕ) (noise : IsNoise p q hs) where
  abbrev pk : PublicKey
  pk = key_of b laws p q big bigger hs size noise

  recombine_lem :
      (sk : SecretKey) (m : ℤ)
      → IsSecret sk p q
      → Small (p * q / 2) m
      → S.recombine b pk sk (pos (residue (p * q) m % p)) (pos (residue (p * q) m % q)) ≡ m
  unfolding S.recombine
  recombine_lem sk m s small =
      let a = residue (p * q) m in
      let diff = pos (a % q) -ℤ pos (a % p) in
      let q_positive : 0 < q = omega (arith, key.q_big) in
      let mod_q = residue-sub q q_positive (pos (a % q)) (pos (a % p)) in
      let gap : Cong q (residue q diff + a % p) (a % q) =
        cong_trans (cong_add (cong_refl q (residue q diff)) (cong_sym (cong_mod q (a % p))))
          (cong_trans mod_q (cong_mod q (a % q))) in
      let joined =
        garner p q s.p_inverse a (residue q diff) (a % p) (a % q) (omega (arith, key.p_big))
          q_positive s.p_inverse_inv refl refl gap in
      let reduced : residue q diff % q ≡ residue q diff =
        mod-eq_of_lt (residue-lt q diff q_positive) in
      let a_small : a % (p * q) ≡ a = mod-eq_of_lt (residue-lt (p * q) m big) in
      rw
        (
          s.p_inverse_is,
          s.q_is,
          s.p_is,
          laws.mul_mod_is diff (pos s.p_inverse) q q_positive,
          pos_mul _ p,
          pos_add _ (a % p),
          ← reduced,
          joined,
          a_small,
        )
        (centered (p * q) (p * q / 2) m key.odd small)

  abbrev parts : SecretKey → ℤ → ℤ
  parts sk u =
      S.recombine b pk sk (decrypt_part b u sk.phi_p sk.p_square sk.p sk.hp)
        (decrypt_part b u sk.phi_q sk.q_square sk.q sk.hq)

  -- Decryption gives the integer nearest to 0 with the residue that the ciphertext encrypts.
  pub decrypt-Value :
      (sk : SecretKey) (ct : Ciphertext) (m : ℤ)
      → IsSecret sk p q
      → Small (p * q / 2) m
      → Value b laws p q big bigger hs size noise m ct.c
      → decrypt b pk sk ct ≡ ok m
  unfolding decrypt
  decrypt-Value sk ct m s small v =
      let a = residue (p * q) m in
      let c = plain b (p * q * (p * q)) ct.c in
      let w = v.encodes.factor in
      let mp =
        decrypt_part_lem b laws p q a c w s.hp key.p_big (square_weaken_p p q v.encodes.shape)
          v.encodes.is_noise.noise_p s.hp_inv in
      let shape_q : Cong (q * q) c ((1 + q * p * a) * w) =
        cong_trans (square_weaken_q p q v.encodes.shape) (cong_of_eq (q * q) (omega arith)) in
      let mq =
        decrypt_part_lem b laws q p a c w s.hq key.q_big shape_q v.encodes.is_noise.noise_q
          s.hq_inv in
      let mp' : decrypt_part b (pos c) sk.phi_p sk.p_square sk.p sk.hp ≡ pos (a % p) =
        rw (s.phi_p_is, s.p_square_is, s.p_is, s.hp_is) mp in
      let mq' : decrypt_part b (pos c) sk.phi_q sk.q_square sk.q sk.hq ≡ pos (a % q) =
        rw (s.phi_q_is, s.q_square_is, s.q_is, s.hq_is) mq in
      let valid = validate_lem b laws p q big bigger hs size noise ct m v in
      let mapped = laws.map_back_is (p * q * (p * q)) ct.c v.in_space in
      ap (λ (r : Result (Unit {0})). r >> ok (parts sk (b.map_back (pos (p * q * (p * q))) ct.c)))
        valid
      ∙ (ap (λ (u : ℤ). ok (parts sk u)) mapped
          ∙ (ap₂ (λ (x y : ℤ). ok (S.recombine b pk sk x y)) mp' mq'
              ∙ ap ok (recombine_lem sk m s small)))

  -- The constructor of the decryptor accepts the pair of keys.
  pub create_decryptor_lem :
      (sk : SecretKey) → IsSecret sk p q → create_decryptor pk sk ≡ ok (pk, sk)
  unfolding create_decryptor
  create_decryptor_lem sk s =
      let same : same_int (sk.p *ℤ sk.q) (pos (p * q)) ≡ true =
        rw (s.p_is, s.q_is, pos_mul p q) (==_refl (p * q + 0)) in
      rw same
