-- ===== src/Ou/Runs.antt =====
-- The operations of ou on plaintexts within a limit: each succeeds and computes on the plaintexts.
use heu.Base.{
  ℕ, suc, ◌+◌, ◌*◌, ◌^◌, ◌<◌, ◌≤◌, ◌≡◌, refl, true, le→leb, lt→ltb, ltb, ◌==◌, ==_iff, Result, ok,
  Bool-cases, inl, inr, arith,
}
use heu.Base.Int.{ℤ, pos, negsuc, pos_part, neg_part, neg_ℤ, ◌+ℤ◌, ◌-ℤ◌, ◌*ℤ◌, *ℤ_comm, eq_of_parts}
use heu.Base.Int.Ring.{*ℤ_parts}
use heu.Base.Int.Residue.{residue}
use heu.Paillier.BigInts.{BigInts, IsBigInts}
use heu.Paillier.Scheme.{Ciphertext, within}
use heu.Paillier.Scheme.Circuit.{Small}
use heu.Paillier.Scheme.Values.{times_one, times_minus_one, times_zero, sub_opposite}
use heu.Paillier.Scheme.Runs.{plus_zero, opposite_plus, neg_Small, one_or_minus_one}
use heu.Additive.{IsAdditive}
use heu.Additive.Values as V
use heu.Additive.Tables.{Tables, IsTables}
use heu.Additive.Runs.{IsHomomorphic}
use heu.Ou.Keys.{PublicKey, message_bits}
use heu.Ou.Scheme as S
use heu.Ou.Scheme.{validate, power_of_g, mul_general}
use heu.Ou.Numbers.{Encodes, Encodes-IsAdditive}
use heu.Ou.Cache.Interleavings.{IsMask}

-- The numbers of a public key: G encrypts 1, its inverse -1, and H 0; a plaintext within the limit
-- is within the bound, and its absolute value has the bits of the tables.
pub record IsPublic (b : BigInts) (p q t k limit g g_inv h bound : ℕ) : Type 0 where
  pub g_encodes : Encodes p q t k (residue p (pos 1)) g
  pub g_inv_encodes : Encodes p q t k (residue p (negsuc 0)) g_inv
  pub h_encodes : Encodes p q t k (residue p (pos 0)) h
  pub limit-le : limit ≤ bound
  pub limit-lt : limit < 2 ^ message_bits b (pos bound)

zero_plus : (m : ℤ) → pos 0 +ℤ m ≡ m
unfolding ◌+ℤ◌
zero_plus m = ground arith

minus_one_times : (a : ℕ) → negsuc 0 *ℤ pos (suc a) ≡ negsuc a
minus_one_times a = eq_of_parts _ _ (omega (arith, *ℤ_parts (negsuc 0) (pos (suc a))))

absolute : (a : ℕ) → pos_part (negsuc a) + neg_part (negsuc a) ≡ suc a
absolute a = omega arith

module _ (b : BigInts) (laws : IsBigInts b) (tables : Tables) (table_laws : IsTables b tables)
    (p q t k limit g g_inv h bound : ℕ) (some_p : 0 < p) (some_n : 0 < p * p * q)
    (key : IsPublic b p q t k limit g g_inv h bound) (masks : ℕ → ℤ)
    (good : (i : ℕ) → IsMask b (p * p * q) h (masks i)) where
  abbrev pub pk : PublicKey
  pk = record {
    n = pos (p * p * q);
    capital_g = pos g;
    capital_h = pos h;
    capital_g_inv = pos g_inv;
    max_plaintext = pos bound;
  }

  abbrev scheme : IsAdditive p (p * p * q) (Encodes p q t k)
  scheme = Encodes-IsAdditive p q t k

  -- c, a value of the space, encrypts m.
  abbrev pub Value : ℤ → ℤ → Type 0
  Value m c = V.Holds b laws scheme some_p some_n m c

  abbrev pub Yields : ℤ → Result Ciphertext → Type 0
  Yields m r = (ct : Ciphertext) × (r ≡ ok ct) × Value m ct.c

  mask_Value : (i : ℕ) → Value (pos 0) (masks i)
  mask_Value i =
      let (e, power) = good i in
      let held =
        V.Holds-table b laws scheme some_p some_n (pos 0) h e (masks i) key.h_encodes power.in_space
          power.is_power in
      rw (*ℤ_comm (pos 0) (pos e), times_zero (pos e)) at held

  power_of_g-Value : (m : ℤ) → Small limit m → Value m (power_of_g b tables pk m)
  unfolding power_of_g
  power_of_g-Value (pos a) small =
      let bits = message_bits b (pos bound) in
      let fits : a < 2 ^ bits = omega (arith, key.limit-lt) in
      let held =
        V.Holds-table b laws scheme some_p some_n (pos 1) g a _ key.g_encodes
          (table_laws.power_in g bits a _ some_n fits)
          (table_laws.power_is g bits a _ some_n fits) in
      rw (*ℤ_comm (pos 1) (pos a), times_one (pos a)) at held
  power_of_g-Value (negsuc a) small =
      let bits = message_bits b (pos bound) in
      let fits : suc a < 2 ^ bits = omega (arith, key.limit-lt) in
      let held =
        V.Holds-table b laws scheme some_p some_n (negsuc 0) g_inv (suc a) _ key.g_inv_encodes
          (table_laws.power_in g_inv bits (suc a) _ some_n fits)
          (table_laws.power_is g_inv bits (suc a) _ some_n fits) in
      rw (absolute a) (rw (minus_one_times a) at held)

  pub validate_lem : (ct : Ciphertext) (m : ℤ) → Value m ct.c → validate pk ct ≡ ok tt
  unfolding validate
  validate_lem ct m e =
      let low = e.in_space.below in
      let inside : ltb (e.in_space.at + 0) (p * p * q + 0) ≡ true = lt→ltb _ _ (omega arith) in
      rw (e.in_space.is_pos, inside)

  inside_bound : (m : ℤ) → Small limit m → within m pk.max_plaintext ≡ true
  inside_bound m h = (le→leb _ _ (omega (arith, key.limit-le)))

  encrypt-Yields : (m : ℤ) (i : ℕ) → Small limit m → Yields m (S.encrypt b tables pk m (masks i))
  unfolding S.encrypt
  encrypt-Yields m i h = (
    record { c = b.space_mul (pos (p * p * q)) (masks i) (power_of_g b tables pk m) },
    rw (inside_bound m h) refl,
    rw (zero_plus m) at (
        V.Holds-mul b laws scheme some_p some_n (pos 0) m _ _ (mask_Value i)
          (power_of_g-Value m h)),
  )

  randomize-Yields :
      (ct : Ciphertext) (m : ℤ) (i : ℕ)
      → Value m ct.c
      → Yields m (S.randomize b tables pk ct (masks i))
  unfolding S.randomize
  randomize-Yields ct m i e = (
    record { c = b.space_mul (pos (p * p * q)) ct.c (masks i) },
    rw (validate_lem ct m e) refl,
    rw (plus_zero m) at (V.Holds-mul b laws scheme some_p some_n m (pos 0) _ _ e (mask_Value i)),
  )

  add-Yields :
      (x y : Ciphertext) (m k' : ℤ)
      → Value m x.c
      → Value k' y.c
      → Yields (m +ℤ k') (S.add b tables pk x y)
  unfolding S.add
  add-Yields x y m k' e f = (
    _,
    rw (validate_lem x m e, validate_lem y k' f) refl,
    V.Holds-mul b laws scheme some_p some_n m k' _ _ e f,
  )

  add_inplace-Yields :
      (x y : Ciphertext) (m k' : ℤ)
      → Value m x.c
      → Value k' y.c
      → Yields (m +ℤ k') (S.add_inplace b tables pk x y)
  unfolding S.add_inplace
  add_inplace-Yields x y m k' e f = (
    _,
    rw (validate_lem x m e, validate_lem y k' f) refl,
    V.Holds-mul b laws scheme some_p some_n m k' _ _ e f,
  )

  add_plain-Yields :
      (x : Ciphertext) (m k' : ℤ)
      → Small limit k'
      → Value m x.c
      → Yields (m +ℤ k') (S.add_plain b tables pk x k')
  unfolding S.add_plain
  add_plain-Yields x m k' h e = (
    _,
    rw (validate_lem x m e, inside_bound k' h) refl,
    V.Holds-mul b laws scheme some_p some_n m k' _ _ e (power_of_g-Value k' h),
  )

  negate-Yields : (x : Ciphertext) (m : ℤ) → Value m x.c → Yields (neg_ℤ m) (S.negate b tables pk x)
  unfolding S.negate
  negate-Yields x m e =
      (_, rw (validate_lem x m e) refl, V.Holds-negate b laws scheme some_p some_n m _ e)

  sub-Yields :
      (x y : Ciphertext) (m k' : ℤ)
      → Value m x.c
      → Value k' y.c
      → Yields (m -ℤ k') (S.sub b tables pk x y)
  unfolding S.sub
  sub-Yields x y m k' e f =
      let (z, ran, g) = negate-Yields y k' f in
      rw (ran, ← sub_opposite m k') (add-Yields x z m (neg_ℤ k') e g)

  sub_inplace-Yields :
      (x y : Ciphertext) (m k' : ℤ)
      → Value m x.c
      → Value k' y.c
      → Yields (m -ℤ k') (S.sub_inplace b tables pk x y)
  unfolding S.sub_inplace
  sub_inplace-Yields x y m k' e f =
      let (z, ran, g) = negate-Yields y k' f in
      rw (ran, ← sub_opposite m k') (add_inplace-Yields x z m (neg_ℤ k') e g)

  sub_plain-Yields :
      (x : Ciphertext) (m k' : ℤ)
      → Small limit k'
      → Value m x.c
      → Yields (m -ℤ k') (S.sub_plain b tables pk x k')
  unfolding S.sub_plain
  sub_plain-Yields x m k' h e =
      rw (← sub_opposite m k') (add_plain-Yields x m (neg_ℤ k') (neg_Small limit k' h) e)

  plain_sub-Yields :
      (x : Ciphertext) (m k' : ℤ)
      → Small limit k'
      → Value m x.c
      → Yields (k' -ℤ m) (S.plain_sub b tables pk k' x)
  unfolding S.plain_sub
  plain_sub-Yields x m k' h e =
      let (z, ran, g) = negate-Yields x m e in
      rw (ran, ← opposite_plus m k') (add_plain-Yields z (neg_ℤ m) k' h g)

  -- The special cases of `Mul` give what the power would give.
  mul-Yields : (x : Ciphertext) (m e : ℤ) → Value m x.c → Yields (m *ℤ e) (S.mul b tables pk x e)
  unfolding S.mul mul_general
  mul-Yields x m e held = elim (Bool-cases (b.bit_count e == 0)) [
    | inl none' ↦ (
      record { c = b.space_identity (pos (p * p * q)) },
      rw (validate_lem x m held, none') refl,
      rw (laws.no_bits e ((==_iff _ _).0 none')) (V.Holds-identity b laws scheme some_p some_n m),
    )
    | inr some' ↦ elim (Bool-cases (b.bit_count e == 1)) [
      | inl one ↦ elim (one_or_minus_one e (laws.one_bit e ((==_iff _ _).0 one))) [
        | inl (sign, is) ↦ (
          record {
            c =
                b.map_into (pos (p * p * q))
                  (b.inv_mod (b.map_back (pos (p * p * q)) x.c) (pos (p * p * q)));
          },
          rw (validate_lem x m held, some', one, sign) refl,
          rw (is, times_minus_one m) (V.Holds-negate b laws scheme some_p some_n m _ held),
        )
        | inr (sign, is) ↦
            (x, rw (validate_lem x m held, some', one, sign) refl, rw (is, times_one m) held)
      ]
      | inr more ↦ (
        _,
        rw (validate_lem x m held, some', more) refl,
        V.Holds-power b laws scheme some_p some_n m _ e held,
      )
    ]
  ]

  pub operations-IsHomomorphic : IsHomomorphic Value limit (S.operations b tables pk masks)
  unfolding S.encrypt_zero
  operations-IsHomomorphic = record {
    encrypt_is = encrypt-Yields;
    encrypt_zero_is = mask_Value;
    randomize_is = randomize-Yields;
    add_is = add-Yields;
    add_inplace_is = add_inplace-Yields;
    sub_is = sub-Yields;
    sub_inplace_is = sub_inplace-Yields;
    add_plain_is = add_plain-Yields;
    sub_plain_is = sub_plain-Yields;
    plain_sub_is = plain_sub-Yields;
    mul_is = mul-Yields;
    negate_is = negate-Yields;
  }
