-- ===== src/Additive/Values.antt =====
-- The plaintexts that the values of a Montgomery space hold, under the calls of the big integers.
use heu.Base.{ℕ, suc, ◌+◌, ◌*◌, ◌%◌, ◌^◌, ◌<◌, ◌≡◌, sym, ap, arith}
use heu.Base.Int.Residue.{residue, residue-add, residue-mul}
use heu.Base.Int.{ℤ, pos, negsuc, neg_ℤ, ◌+ℤ◌, ◌*ℤ◌}
use heu.Base.Modular.{
  Cong, cong_of_eq, cong_sym, cong_trans, cong_mul_left, cong_mod, mod_of_cong, cong_of_mod,
}
use heu.Paillier.BigInts.{BigInts, IsBigInts, InSpace, plain}
use heu.Paillier.Scheme.Values.{vanish, times_zero, opposite_times}
use heu.Additive.{IsAdditive, pow}

module _ (b : BigInts) (laws : IsBigInts b) {k m : ℕ} {E : ℕ → ℕ → Type 0}
    (scheme : IsAdditive k m E) (some_k : 0 < k) (some_m : 0 < m) where
  -- c, a value of the space of modulus m, encrypts x.
  pub record Holds (x c : ℤ) : Type 0 where
    pub in_space : InSpace m c
    pub encodes : E (residue k x) (plain b m c)

  pub Holds-mul : (x y c d : ℤ) → Holds x c → Holds y d → Holds (x +ℤ y) (b.space_mul (pos m) c d)
  Holds-mul x y c d e f = record {
    in_space = laws.space_mul_in c d m e.in_space f.in_space;
    encodes =
        scheme.same _ _ _
          (cong_trans (cong_sym (cong_mod m _))
            (cong_of_eq m (sym (laws.space_mul_is c d m e.in_space f.in_space))))
          (scheme.resp _ _ _ (cong_sym (residue-add k some_k x y))
            (scheme.mul _ _ _ _ e.encodes f.encodes));
  }

  -- Mapping a natural number into the space.
  pub Holds-map : (x : ℤ) (u : ℕ) → E (residue k x) u → Holds x (b.map_into (pos m) (pos u))
  Holds-map x u e = record {
    in_space = laws.map_into_in (pos u) m some_m;
    encodes =
        scheme.same _ _ _
          (cong_trans (cong_sym (cong_mod m u))
            (cong_of_eq m (sym (laws.map_into_is (pos u) m some_m))))
          e;
  }

  -- The inverse of the value behind c, by InvMod.
  pub inverse_value :
      (x c : ℤ)
      → Holds x c
      → (i : ℕ) × (b.inv_mod (pos (plain b m c)) (pos m) ≡ pos i)
        × (plain b m c * i % m ≡ 1 % m)
        × E (residue k (neg_ℤ x)) i
  inverse_value x c e =
      let opposite : Cong k (residue k x + residue k (neg_ℤ x)) 0 =
        cong_trans (cong_sym (residue-add k some_k x (neg_ℤ x)))
          (cong_trans (cong_of_eq k (ap (residue k) (vanish x))) (cong_mod k 0)) in
      let (v, one) = scheme.unit _ _ e.encodes in
      let (i, is_i, small, inv) =
        laws.inv_mod_is (plain b m c) m v some_m (mod_of_cong some_m one) in
      (i, is_i, inv, scheme.inverse _ _ _ _ opposite (cong_of_mod m _ _ inv) e.encodes)

  pub Holds-negate :
      (x c : ℤ)
      → Holds x c
      → Holds (neg_ℤ x) (b.map_into (pos m) (b.inv_mod (b.map_back (pos m) c) (pos m)))
  Holds-negate x c e =
      let (i, is_i, inv, enc) = inverse_value x c e in
      rw (laws.map_back_is m c e.in_space, is_i) (Holds-map (neg_ℤ x) i enc)

  pub Holds-identity : (x : ℤ) → Holds (x *ℤ pos 0) (b.space_identity (pos m))
  Holds-identity x = rw (times_zero x) (record {
    in_space = laws.identity_in m some_m;
    encodes =
        scheme.same _ _ _
          (cong_trans (cong_sym (cong_mod m 1)) (cong_of_eq m (sym (laws.identity_is m some_m))))
          (scheme.resp _ _ _ (cong_sym (cong_mod k 0)) scheme.one);
  })

  -- A power of a number, modulo m.
  pub encodes-power : (x : ℤ) (u e : ℕ) → E (residue k x) u → E (residue k (x *ℤ pos e)) (u ^ e % m)
  encodes-power x u e h = scheme.same _ _ _ (cong_sym (cong_mod m (u ^ e))) (
      scheme.resp _ _ _
        (cong_sym (
          cong_trans (residue-mul k some_k x (pos e))
            (cong_trans (cong_mul_left (residue k x) (cong_mod k e)) (cong_of_eq k (omega arith)))))
        (pow scheme _ _ e h))

  pub Holds-power :
      (x c e : ℤ)
      → Holds x c
      → Holds (x *ℤ e) (b.map_into (pos m) (b.pow_mod (b.map_back (pos m) c) e (pos m)))
  Holds-power x c (pos e) h =
      rw (laws.map_back_is m c h.in_space, laws.pow_mod_is (plain b m c) e m some_m)
        (Holds-map (x *ℤ pos e) _ (encodes-power x (plain b m c) e h.encodes))
  Holds-power x c (negsuc e) h =
      let (i, is_i, inv, enc) = inverse_value x c h in
      rw
        (
          laws.map_back_is m c h.in_space,
          laws.pow_mod_neg (plain b m c) e m i some_m inv,
          is_i,
          laws.pow_mod_is i (suc e) m some_m,
          ← opposite_times x e,
        )
        (Holds-map (neg_ℤ x *ℤ pos (suc e)) _ (encodes-power (neg_ℤ x) i (suc e) enc))

  -- A value of the space that is a power of an encryption.
  pub Holds-table :
      (x : ℤ) (u e : ℕ) (c : ℤ)
      → E (residue k x) u
      → InSpace m c
      → plain b m c ≡ u ^ e % m
      → Holds (x *ℤ pos e) c
  Holds-table x u e c h inside is = record {
    in_space = inside;
    encodes = scheme.same _ _ _ (cong_of_eq m (sym is)) (encodes-power x u e h);
  }
