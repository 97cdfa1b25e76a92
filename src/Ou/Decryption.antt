-- ===== src/Ou/Decryption.antt =====
-- Decryption of what the encryptor and the evaluator of ou compute.
use heu.Base.{ℕ, ◌+◌, ◌-◌, ◌*◌, ◌/◌, ◌%◌, ◌^◌, ◌<◌, ◌≤◌, ◌≡◌, ap, true, ok, ==_refl, arith}
use native.Mathlib.Nat.{mul-pos, mod-eq_of_lt}
use heu.Base.Int.Residue.{residue, residue-lt}
use heu.Base.Int.{ℤ, pos, ◌*ℤ◌}
use heu.Base.Modular.{
  Cong, cong_of_eq, cong_trans, cong_mod, cong_mul, cong_mul_right, cong_pow, mod_of_cong,
}
use heu.Paillier.BigInts.{BigInts, IsBigInts, plain}
use heu.Paillier.Residues.{centered}
use heu.Paillier.Keys.Derived.{pos_mul, pos_sub}
use heu.Paillier.Numbers.Decoding.{quotient_lem}
use heu.Paillier.Scheme.{Ciphertext, same_int}
use heu.Paillier.Scheme.Circuit.{Small}
use heu.Additive.Tables.{Tables, IsTables}
use heu.Ou.Keys.{PublicKey, SecretKey}
use heu.Ou.Scheme.{decrypt, create_decryptor}
use heu.Ou.Runs.{IsPublic, Value, pk, validate_lem}
use heu.Ou.Cache.Interleavings.{IsMask}

abbrev pub secret_of : ℕ → ℕ → ℕ → ℕ → SecretKey
secret_of p q t gp_inv = record {
  p = pos p;
  q = pos q;
  t = pos t;
  gp_inv = pos gp_inv;
  p2 = pos (p * p);
  p_half = pos (p / 2);
  n = pos (p * p * q);
}

-- The quotient of the power of an encryption of a, times the inverse of k.
quotient_part :
    (p t k a c inv : ℕ)
    → 1 < p
    → Cong (p * p) (c ^ t) (1 + p * (k * a))
    → Cong p (k * inv) 1
    → (1 ≤ (c % (p * p)) ^ t % (p * p))
      × (((c % (p * p)) ^ t % (p * p) - 1) / p % p * (inv % p) % p ≡ a % p)
quotient_part p t k a c inv big shape unit =
    let x = (c % (p * p)) ^ t % (p * p) in
    let power : Cong (p * p) x (1 + p * (k * a)) =
      cong_trans (cong_mod (p * p) _) (cong_trans (cong_pow t (cong_mod (p * p) c)) shape) in
    let (some_x, quotient) = quotient_lem p (k * a) x big power in
    (
      some_x,
      mod_of_cong (omega arith) (
          cong_trans (cong_mul (cong_trans (cong_mod p _) quotient) (cong_mod p inv)) (
            cong_trans (cong_of_eq p {b = k * inv * a} (omega arith))
              (cong_trans (cong_mul_right a unit) (cong_of_eq p (omega arith))))),
    )

module _ (b : BigInts) (laws : IsBigInts b) (tables : Tables) (table_laws : IsTables b tables)
    (p q t k limit g g_inv h bound : ℕ) (some_p : 0 < p) (some_n : 0 < p * p * q)
    (key : IsPublic b p q t k limit g g_inv h bound) (masks : ℕ → ℤ)
    (good : (i : ℕ) → IsMask b (p * p * q) h (masks i)) (big : 1 < p) (odd : p / 2 * 2 + 1 ≡ p)
    (gp_inv : ℕ) (unit : Cong p (k * gp_inv) 1) where
  abbrev public : PublicKey
  public = pk b laws tables table_laws p q t k limit g g_inv h bound some_p some_n key masks good

  -- Decryption gives the integer nearest to 0 with the residue that the ciphertext encrypts.
  pub decrypt-Value :
      (ct : Ciphertext) (m : ℤ)
      → Small (p / 2) m
      → Value b laws tables table_laws p q t k limit g g_inv h bound some_p some_n key masks good m
          ct.c
      → decrypt b tables public (secret_of p q t gp_inv) ct ≡ ok m
  unfolding decrypt
  decrypt-Value ct m small v =
      let a = residue p m in
      let c = plain b (p * p * q) ct.c in
      let p2 : 0 < p * p = mul-pos some_p some_p in
      let valid =
        validate_lem b laws tables table_laws p q t k limit g g_inv h bound some_p some_n key masks
          good ct m v in
      let x = (c % (p * p)) ^ t % (p * p) in
      let (some_x, part) = quotient_part p t k a c gp_inv big v.encodes.shape unit in
      let a_small : a % p ≡ a = mod-eq_of_lt (residue-lt p m some_p) in
      rw
        (
          valid,
          laws.map_back_is (p * p * q) ct.c v.in_space,
          laws.rem_is (pos c) (p * p) p2,
          laws.pow_mod_is (c % (p * p)) t (p * p) p2,
          pos_sub x 1 some_x,
          laws.div_is (x - 1) p some_p,
          laws.mul_mod_is (pos ((x - 1) / p)) (pos gp_inv) p some_p,
          part,
          a_small,
        )
        (ap ok (centered p (p / 2) m odd small))

  -- The constructor of the decryptor accepts the pair of keys.
  pub create_decryptor_lem :
      create_decryptor public (secret_of p q t gp_inv) ≡ ok (public, secret_of p q t gp_inv)
  unfolding create_decryptor
  create_decryptor_lem =
      let same : same_int (pos (p * p) *ℤ pos q) (pos (p * p * q)) ≡ true =
        rw (pos_mul (p * p) q) (==_refl (p * p * q + 0)) in
      rw same
