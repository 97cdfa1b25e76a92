-- ===== src/Dgk/Runs.antt =====
-- The operations of dgk on plaintexts within the bound: each succeeds and computes on the plaintexts.
use heu.Base.{
  ℕ, ◌+◌, ◌*◌, ◌/◌, ◌%◌, ◌^◌, ◌<◌, ◌≤◌, ◌≡◌, refl, true, le→leb, lt→ltb, ltb, ==_iff, Result, ok,
  Bool-cases, inl, inr, arith,
}
use heu.Base.Int.{ℤ, pos, negsuc, neg_ℤ, ◌+ℤ◌, ◌-ℤ◌, ◌*ℤ◌, *ℤ_comm, eq_of_parts}
use heu.Base.Int.Residue.{residue, residue-lt}
use heu.Base.Modular.{cong_mod}
use heu.Paillier.BigInts.{BigInts, IsBigInts}
use heu.Paillier.Scheme.{Ciphertext, within, same_int}
use heu.Paillier.Scheme.Circuit.{Small}
use heu.Paillier.Scheme.Values.{times_one, times_minus_one, times_zero, sub_opposite}
use heu.Paillier.Scheme.Runs.{plus_zero, opposite_plus}
use heu.Additive.{IsAdditive}
use heu.Additive.Values as V
use heu.Additive.Tables.{Tables, IsTables}
use heu.Additive.Runs.{IsHomomorphic}
use heu.Dgk.Keys.{PublicKey, encrypt_raw, plaintext_bound}
use heu.Dgk.Scheme as S
use heu.Dgk.Scheme.{validate}
use heu.Dgk.Numbers.{Encodes}
use heu.Ou.Cache.Interleavings.{IsMask}

-- The numbers of a public key: g encrypts 1 and h encrypts 0, and u has no more bits than it has.
pub record IsPublic (b : BigInts) (p q v w u g h : ℕ) : Type 0 where
  pub g_encodes : Encodes p q v w (residue u (pos 1)) g
  pub h_encodes : Encodes p q v w (residue u (pos 0)) h
  pub u_bits : u ≤ 2 ^ b.bit_count (pos u)

same_int-eq : (x y : ℤ) → same_int x y ≡ true → x ≡ y
same_int-eq x y h = eq_of_parts _ _ ((==_iff _ _).0 h)

module _ (b : BigInts) (laws : IsBigInts b) (tables : Tables) (table_laws : IsTables b tables)
    (p q v w u g h : ℕ) (some_u : 0 < u) (some_n : 0 < p * q)
    (scheme : IsAdditive u (p * q) (Encodes p q v w)) (key : IsPublic b p q v w u g h)
    (masks : ℕ → ℤ) (good : (i : ℕ) → IsMask b (p * q) h (masks i))
    (zero_masks : Ciphertext → ℤ → ℤ)
    (zero_good : (x : Ciphertext) (k : ℤ) → IsMask b (p * q) h (zero_masks x k)) where
  abbrev pub pk : PublicKey
  pk = record { n = pos (p * q); g = pos g; h = pos h; u = pos u }

  -- c, a value of the space, encrypts m.
  abbrev pub Value : ℤ → ℤ → Type 0
  Value m c = V.Holds b laws scheme some_u some_n m c

  abbrev pub Yields : ℤ → Result Ciphertext → Type 0
  Yields m r = (ct : Ciphertext) × (r ≡ ok ct) × Value m ct.c

  mask_Value : (hr : ℤ) → IsMask b (p * q) h hr → Value (pos 0) hr
  mask_Value hr (e, power) =
      let held =
        V.Holds-table b laws scheme some_u some_n (pos 0) h e hr key.h_encodes power.in_space
          power.is_power in
      rw (*ℤ_comm (pos 0) (pos e), times_zero (pos e)) at held

  encrypt_raw-Value : (m : ℤ) → Value m (encrypt_raw b tables pk m)
  unfolding encrypt_raw
  encrypt_raw-Value m =
      let r = residue u m in
      let bits = b.bit_count (pos u) in
      let fits : r < 2 ^ bits = omega (arith, residue-lt u m some_u, key.u_bits) in
      let held =
        V.Holds-table b laws scheme some_u some_n (pos 1) g r _ key.g_encodes
          (table_laws.power_in g bits r _ some_n fits)
          (table_laws.power_is g bits r _ some_n fits) in
      let held' : Value (pos r) (tables.power (pos (p * q)) (pos g) bits (pos r)) =
        rw (*ℤ_comm (pos 1) (pos r), times_one (pos r)) at held in
      rw (encrypt_raw, laws.rem_is m u some_u)
        (record {
          in_space = held'.in_space;
          encodes = scheme.resp (r % u) r _ (cong_mod u r) held'.encodes;
        })

  pub validate_lem : (ct : Ciphertext) (m : ℤ) → Value m ct.c → validate pk ct ≡ ok tt
  unfolding validate
  validate_lem ct m e =
      let low = e.in_space.below in
      let inside : ltb (e.in_space.at + 0) (p * q + 0) ≡ true = lt→ltb _ _ (omega arith) in
      rw (e.in_space.is_pos, inside)

  inside_bound : (m : ℤ) → Small (u / 2) m → within m (plaintext_bound b tables pk) ≡ true
  inside_bound m s = rw (laws.div_is u 2 (omega arith)) (le→leb _ _ (omega arith))

  encrypt-Yields : (m : ℤ) (i : ℕ) → Small (u / 2) m → Yields m (S.encrypt b tables pk m (masks i))
  unfolding S.encrypt
  encrypt-Yields m i s = (
    _,
    rw (inside_bound m s) refl,
    rw (plus_zero m) at (
        V.Holds-mul b laws scheme some_u some_n m (pos 0) _ _ (encrypt_raw-Value m)
          (mask_Value (masks i) (good i))),
  )

  randomize-Yields :
      (ct : Ciphertext) (m : ℤ) (i : ℕ)
      → Value m ct.c
      → Yields m (S.randomize b tables pk ct (masks i))
  unfolding S.randomize
  randomize-Yields ct m i e = (
    record { c = b.space_mul (pos (p * q)) ct.c (masks i) },
    rw (validate_lem ct m e) refl,
    rw (plus_zero m) at
        (V.Holds-mul b laws scheme some_u some_n m (pos 0) _ _ e (mask_Value (masks i) (good i))),
  )

  add-Yields :
      (x y : Ciphertext) (m k : ℤ)
      → Value m x.c
      → Value k y.c
      → Yields (m +ℤ k) (S.add b tables pk x y)
  unfolding S.add
  add-Yields x y m k e f = (
    _,
    rw (validate_lem x m e, validate_lem y k f) refl,
    V.Holds-mul b laws scheme some_u some_n m k _ _ e f,
  )

  add_plain-Yields :
      (x : Ciphertext) (m k : ℤ) → Value m x.c → Yields (m +ℤ k) (S.add_plain b tables pk x k)
  unfolding S.add_plain
  add_plain-Yields x m k e = add-Yields x _ m k e (encrypt_raw-Value k)

  -- The special cases of `Mul` give what the power would give.
  mul-Yields :
      (x : Ciphertext) (m e hr : ℤ)
      → IsMask b (p * q) h hr
      → Value m x.c
      → Yields (m *ℤ e) (S.mul b tables pk x e hr)
  unfolding S.mul
  mul-Yields x m e hr mask held = elim (Bool-cases (same_int e (pos 0))) [
    | inl none' ↦ (
      record { c = hr },
      rw (validate_lem x m held, none') refl,
      rw (same_int-eq e (pos 0) none', times_zero m) (mask_Value hr mask),
    )
    | inr some' ↦ elim (Bool-cases (same_int e (pos 1))) [
      | inl one ↦ (
        x,
        rw (validate_lem x m held, some', one) refl,
        rw (same_int-eq e (pos 1) one, times_one m) held,
      )
      | inr more ↦ (
        _,
        rw (validate_lem x m held, some', more) refl,
        V.Holds-power b laws scheme some_u some_n m _ e held,
      )
    ]
  ]

  negate-Yields :
      (x : Ciphertext) (m hr : ℤ)
      → IsMask b (p * q) h hr
      → Value m x.c
      → Yields (neg_ℤ m) (S.negate b tables pk x hr)
  unfolding S.negate
  negate-Yields x m hr mask e = rw (← times_minus_one m) (mul-Yields x m (negsuc 0) hr mask e)

  sub-Yields :
      (x y : Ciphertext) (m k hr : ℤ)
      → IsMask b (p * q) h hr
      → Value m x.c
      → Value k y.c
      → Yields (m -ℤ k) (S.sub b tables pk x y hr)
  unfolding S.sub
  sub-Yields x y m k hr mask e f =
      let (z, ran, held) = negate-Yields y k hr mask f in
      rw (ran, ← sub_opposite m k) (add-Yields x z m (neg_ℤ k) e held)

  sub_plain-Yields :
      (x : Ciphertext) (m k : ℤ) → Value m x.c → Yields (m -ℤ k) (S.sub_plain b tables pk x k)
  unfolding S.sub_plain
  sub_plain-Yields x m k e = rw (← sub_opposite m k) (add_plain-Yields x m (neg_ℤ k) e)

  plain_sub-Yields :
      (x : Ciphertext) (m k hr : ℤ)
      → IsMask b (p * q) h hr
      → Value m x.c
      → Yields (k -ℤ m) (S.plain_sub b tables pk k x hr)
  unfolding S.plain_sub
  plain_sub-Yields x m k hr mask e =
      let (z, ran, held) = negate-Yields x m hr mask e in
      rw (ran, ← opposite_plus m k) (add_plain-Yields z (neg_ℤ m) k held)

  pub operations-IsHomomorphic :
      IsHomomorphic Value (u / 2) (S.operations b tables pk masks zero_masks)
  unfolding S.encrypt_zero
  operations-IsHomomorphic = record {
    encrypt_is = encrypt-Yields;
    encrypt_zero_is = λ i. mask_Value (masks i) (good i);
    randomize_is = randomize-Yields;
    add_is = add-Yields;
    add_inplace_is = add-Yields;
    sub_is = λ x y m k e f. sub-Yields x y m k _ (zero_good y (negsuc 0)) e f;
    sub_inplace_is = λ x y m k e f. sub-Yields x y m k _ (zero_good y (negsuc 0)) e f;
    add_plain_is = λ x m k s e. add_plain-Yields x m k e;
    sub_plain_is = λ x m k s e. sub_plain-Yields x m k e;
    plain_sub_is = λ x m k s e. plain_sub-Yields x m k _ (zero_good x (negsuc 0)) e;
    mul_is = λ x m k e. mul-Yields x m k _ (zero_good x k) e;
    negate_is = λ x m e. negate-Yields x m _ (zero_good x (negsuc 0)) e;
  }
