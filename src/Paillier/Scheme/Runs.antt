-- ===== src/Paillier/Scheme/Runs.antt =====
-- Every run of the encryptor and the evaluator on plaintexts within the bound succeeds, and its
-- ciphertext holds the value that the run stands for.
use heu.Base.{
  ℕ, ◌+◌, ◌*◌, ◌/◌, ◌<◌, ◌≡◌, refl, ap, true, false, leb, le→leb, ◌⊎◌, lt→ltb, ltb, ◌==◌, Result,
  ok, ◌>>=◌, Bool-cases, inl, inr, ==_iff, arith,
}
use heu.Base.Int.{ℤ, pos, negsuc, pos_part, neg_part, neg_ℤ, ◌+ℤ◌, ◌-ℤ◌, ◌*ℤ◌}
use heu.Paillier.BigInts.{BigInts, IsBigInts}
use heu.Paillier.Keys.{PublicKey}
use heu.Paillier.Numbers.{IsNoise}
use heu.Paillier.Scheme as S
use heu.Paillier.Scheme.{Ciphertext, validate, is_negative, mul_general}
use heu.Paillier.Scheme.Circuit.{Circuit, value, Small, InBounds, both, run}
use heu.Paillier.Scheme.Values.{
  Holds, square, Holds-mul, Holds-plain, Holds-noise, Holds-negate, Holds-identity, Holds-power,
  times_one, times_minus_one, sub_opposite,
}

pub plus_zero : (m : ℤ) → m +ℤ pos 0 ≡ m
unfolding ◌+ℤ◌
plus_zero m = ground arith

pub opposite_plus : (m k : ℤ) → neg_ℤ m +ℤ k ≡ k -ℤ m
unfolding ◌+ℤ◌ ◌-ℤ◌
opposite_plus m k = ground arith

pub neg_Small : (half : ℕ) (m : ℤ) → Small half m → Small half (neg_ℤ m)
neg_Small half m h = ground arith

pub one_or_minus_one :
    (k : ℤ)
    → pos_part k + neg_part k ≡ 1
    → (is_negative k ≡ true × k ≡ negsuc 0) ⊎ (is_negative k ≡ false × k ≡ pos 1)
one_or_minus_one (pos a) h = inr (refl, ap pos (omega arith))
one_or_minus_one (negsuc a) h = inl (refl, ap negsuc (omega arith))

module _ (b : BigInts) (laws : IsBigInts b) (p q : ℕ) (big : 0 < p * q)
    (bigger : 0 < p * q * (p * q)) (hs size : ℕ) (noise : IsNoise p q hs) where
  abbrev pub key_of : PublicKey
  key_of = record {
    n = pos (p * q);
    n_square = pos (square b laws p q big bigger);
    n_half = pos (p * q / 2);
    h_s = pos hs;
    key_size = size;
  }

  abbrev pub Value : ℤ → ℤ → Type 0
  Value m c = Holds b laws p q big bigger m c

  abbrev pub Yields : ℤ → Result Ciphertext → Type 0
  Yields m r = (ct : Ciphertext) × (r ≡ ok ct) × Value m ct.c

  pub validate_lem : (ct : Ciphertext) (m : ℤ) → Value m ct.c → validate key_of ct ≡ ok tt
  unfolding validate
  validate_lem ct m e =
      let low = e.in_space.below in
      let inside : ltb (e.in_space.at + 0) (p * q * (p * q) + 0) ≡ true =
        lt→ltb _ _ (omega arith) in
      rw (e.in_space.is_pos, inside)

  rn_Value : (r : ℕ) → Value (pos 0) (S.get_rn b key_of r)
  unfolding S.get_rn
  rn_Value r = Holds-noise b laws p q big bigger hs r noise

  encrypt-Yields : (m : ℤ) (r : ℕ) → Small (p * q / 2) m → Yields m (S.encrypt b key_of m r)
  unfolding S.encrypt S.get_rn
  encrypt-Yields m r h =
      let inside : leb (pos_part m + neg_part m) (p * q / 2 + 0) ≡ true =
        le→leb _ _ (omega arith) in
      (
        record {
          c =
              b.space_mul (pos (p * q * (p * q)))
                (b.map_into (pos (p * q * (p * q))) (pos (p * q) *ℤ m +ℤ pos 1))
                (S.get_rn b key_of r);
        },
        rw inside refl,
        rw (plus_zero m) at
            (Holds-mul b laws p q big bigger (Holds-plain b laws p q big bigger m) (rn_Value r)),
      )

  randomize-Yields :
      (ct : Ciphertext) (m : ℤ) (r : ℕ) → Value m ct.c → Yields m (S.randomize b key_of ct r)
  unfolding S.randomize
  randomize-Yields ct m r e = (
    record { c = b.space_mul (pos (p * q * (p * q))) ct.c (S.get_rn b key_of r) },
    rw (validate_lem ct m e) refl,
    rw (← plus_zero m) (Holds-mul b laws p q big bigger e (rn_Value r)),
  )

  add-Yields :
      (x y : Ciphertext) (m k : ℤ)
      → Value m x.c
      → Value k y.c
      → Yields (m +ℤ k) (S.add b key_of x y)
  unfolding S.add
  add-Yields x y m k e f =
      (_, rw (validate_lem x m e, validate_lem y k f) refl, Holds-mul b laws p q big bigger e f)

  add_inplace-Yields :
      (x y : Ciphertext) (m k : ℤ)
      → Value m x.c
      → Value k y.c
      → Yields (m +ℤ k) (S.add_inplace b key_of x y)
  unfolding S.add_inplace
  add_inplace-Yields x y m k e f =
      (_, rw (validate_lem x m e, validate_lem y k f) refl, Holds-mul b laws p q big bigger e f)

  add_plain-Yields :
      (x : Ciphertext) (m k : ℤ)
      → Small (p * q / 2) k
      → Value m x.c
      → Yields (m +ℤ k) (S.add_plain b key_of x k)
  unfolding S.add_plain
  add_plain-Yields x m k h e =
      let inside : leb (pos_part k + neg_part k) (p * q / 2 + 0) ≡ true =
        le→leb _ _ (omega arith) in
      (
        _,
        rw (validate_lem x m e, inside) refl,
        Holds-mul b laws p q big bigger e (Holds-plain b laws p q big bigger k),
      )

  negate-Yields : (x : Ciphertext) (m : ℤ) → Value m x.c → Yields (neg_ℤ m) (S.negate b key_of x)
  unfolding S.negate
  negate-Yields x m e = (_, rw (validate_lem x m e) refl, Holds-negate b laws p q big bigger e)

  sub-Yields :
      (x y : Ciphertext) (m k : ℤ)
      → Value m x.c
      → Value k y.c
      → Yields (m -ℤ k) (S.sub b key_of x y)
  unfolding S.sub
  sub-Yields x y m k e f =
      let (z, ran, g) = negate-Yields y k f in
      rw (ran, ← sub_opposite m k) (add-Yields x z m (neg_ℤ k) e g)

  sub_inplace-Yields :
      (x y : Ciphertext) (m k : ℤ)
      → Value m x.c
      → Value k y.c
      → Yields (m -ℤ k) (S.sub_inplace b key_of x y)
  unfolding S.sub_inplace
  sub_inplace-Yields x y m k e f =
      let (z, ran, g) = negate-Yields y k f in
      rw (ran, ← sub_opposite m k) (add_inplace-Yields x z m (neg_ℤ k) e g)

  sub_plain-Yields :
      (x : Ciphertext) (m k : ℤ)
      → Small (p * q / 2) k
      → Value m x.c
      → Yields (m -ℤ k) (S.sub_plain b key_of x k)
  unfolding S.sub_plain
  sub_plain-Yields x m k h e =
      rw (← sub_opposite m k) (add_plain-Yields x m (neg_ℤ k) (neg_Small (p * q / 2) k h) e)

  plain_sub-Yields :
      (x : Ciphertext) (m k : ℤ)
      → Small (p * q / 2) k
      → Value m x.c
      → Yields (k -ℤ m) (S.plain_sub b key_of k x)
  unfolding S.plain_sub
  plain_sub-Yields x m k h e =
      let (z, ran, g) = negate-Yields x m e in
      rw (ran, ← opposite_plus m k) (add_plain-Yields z (neg_ℤ m) k h g)

  -- The special cases of `Mul` give what the power would give.
  mul-Yields : (x : Ciphertext) (m k : ℤ) → Value m x.c → Yields (m *ℤ k) (S.mul b key_of x k)
  unfolding S.mul mul_general
  mul-Yields x m k e = elim (Bool-cases (b.bit_count k == 0)) [
    | inl none' ↦
        let zero_k = laws.no_bits k ((==_iff _ _).0 none') in
        (
          record { c = b.space_identity (pos (p * q * (p * q))) },
          rw (validate_lem x m e, none') refl,
          rw zero_k (Holds-identity b laws p q big bigger m),
        )
    | inr some' ↦ elim (Bool-cases (b.bit_count k == 1)) [
      | inl one ↦ elim (one_or_minus_one k (laws.one_bit k ((==_iff _ _).0 one))) [
        | inl (sign, is) ↦ (
          record {
            c =
                b.map_into (pos (p * q * (p * q)))
                  (b.inv_mod (b.map_back (pos (p * q * (p * q))) x.c) (pos (p * q * (p * q))));
          },
          rw (validate_lem x m e, some', one, sign) refl,
          rw (is, times_minus_one m) (Holds-negate b laws p q big bigger e),
        )
        | inr (sign, is) ↦
            (x, rw (validate_lem x m e, some', one, sign) refl, rw (is, times_one m) e)
      ]
      | inr more ↦
          (_, rw (validate_lem x m e, some', more) refl, Holds-power b laws p q big bigger k e)
    ]
  ]

  both_lem :
      {m k v : ℤ} (f : Ciphertext → Ciphertext → Result Ciphertext) (r s : Result Ciphertext)
      → ((x y : Ciphertext) → Value m x.c → Value k y.c → Yields v (f x y))
      → Yields m r
      → Yields k s
      → Yields v (both f r s)
  both_lem f r s step (x, ran, e) (y, ran', e') = rw (ran, ran') (step x y e e')

  then_lem :
      {m v : ℤ} (f : Ciphertext → Result Ciphertext) (r : Result Ciphertext)
      → ((x : Ciphertext) → Value m x.c → Yields v (f x))
      → Yields m r
      → Yields v (r >>= f)
  then_lem f r step (x, ran, e) = rw ran (step x e)

  pub run-Yields : (e : Circuit) → InBounds (p * q / 2) e → Yields (value e) (run b key_of e)
  unfolding run value InBounds S.encrypt_zero
  run-Yields (Circuit.encrypt m r) h = encrypt-Yields m r h
  run-Yields (Circuit.encrypt_zero r) h = (_, refl, rn_Value r)
  run-Yields (Circuit.randomize x r) h =
      then_lem (λ c. S.randomize b key_of c r) (run b key_of x)
        (λ c e. randomize-Yields c (value x) r e) (run-Yields x h)
  run-Yields (Circuit.add x y) h =
      both_lem (S.add b key_of) (run b key_of x) (run b key_of y)
        (λ c d. add-Yields c d (value x) (value y)) (run-Yields x h.0) (run-Yields y h.1)
  run-Yields (Circuit.add_inplace x y) h =
      both_lem (S.add_inplace b key_of) (run b key_of x) (run b key_of y)
        (λ c d. add_inplace-Yields c d (value x) (value y)) (run-Yields x h.0) (run-Yields y h.1)
  run-Yields (Circuit.sub x y) h =
      both_lem (S.sub b key_of) (run b key_of x) (run b key_of y)
        (λ c d. sub-Yields c d (value x) (value y)) (run-Yields x h.0) (run-Yields y h.1)
  run-Yields (Circuit.sub_inplace x y) h =
      both_lem (S.sub_inplace b key_of) (run b key_of x) (run b key_of y)
        (λ c d. sub_inplace-Yields c d (value x) (value y)) (run-Yields x h.0) (run-Yields y h.1)
  run-Yields (Circuit.add_plain x k) h =
      then_lem (λ c. S.add_plain b key_of c k) (run b key_of x)
        (λ c. add_plain-Yields c (value x) k h.1) (run-Yields x h.0)
  run-Yields (Circuit.sub_plain x k) h =
      then_lem (λ c. S.sub_plain b key_of c k) (run b key_of x)
        (λ c. sub_plain-Yields c (value x) k h.1) (run-Yields x h.0)
  run-Yields (Circuit.plain_sub k x) h =
      then_lem (S.plain_sub b key_of k) (run b key_of x) (λ c. plain_sub-Yields c (value x) k h.1)
        (run-Yields x h.0)
  run-Yields (Circuit.mul x k) h =
      then_lem (λ c. S.mul b key_of c k) (run b key_of x) (λ c. mul-Yields c (value x) k)
        (run-Yields x h)
  run-Yields (Circuit.negate x) h =
      then_lem (S.negate b key_of) (run b key_of x) (λ c. negate-Yields c (value x))
        (run-Yields x h)
