-- ===== src/Paillier/Scheme/Values.antt =====
-- The values that the ciphertexts hold, under the calls of the big integers.
use heu.Base.{ℕ, suc, ◌+◌, ◌*◌, ◌%◌, ◌^◌, ◌<◌, ◌≡◌, sym, ap, arith}
use heu.Base.Int.Residue.{residue, residue-add, residue-mul}
use heu.Base.Int.{ℤ, pos, negsuc, pos_part, neg_part, neg_ℤ, ◌+ℤ◌, ◌-ℤ◌, ◌*ℤ◌, eq_of_parts}
use heu.Base.Int.Ring.{*ℤ_parts}
use heu.Base.Modular.{
  Cong, cong_of_eq, cong_sym, cong_trans, cong_mul_left, cong_mod, mod_of_cong, cong_of_mod,
}
use heu.Paillier.BigInts.{BigInts, IsBigInts, InSpace, plain}
use heu.Paillier.Residues.{residue-generator}
use heu.Paillier.Numbers.{IsNoise, Encodes, IsNoise-pow}
use heu.Paillier.Numbers.Encodings.{
  Encodes-cong, Encodes-same, Encodes-noise, Encodes-plain, Encodes-mul, Encodes-pow,
  Encodes-inverse, opposite_product,
}

pub times_one : (x : ℤ) → x *ℤ pos 1 ≡ x
times_one x = eq_of_parts _ _ (omega (arith, *ℤ_parts x (pos 1)))

pub vanish : (x : ℤ) → x +ℤ neg_ℤ x ≡ pos 0
unfolding ◌+ℤ◌
vanish x = ground arith

pub sub_opposite : (x y : ℤ) → x +ℤ neg_ℤ y ≡ x -ℤ y
unfolding ◌+ℤ◌ ◌-ℤ◌
sub_opposite x y = ground arith

pub times_zero : (x : ℤ) → x *ℤ pos 0 ≡ pos 0
times_zero x = eq_of_parts _ _ (omega (arith, *ℤ_parts x (pos 0)))

pub opposite_times : (x : ℤ) (k : ℕ) → neg_ℤ x *ℤ pos (suc k) ≡ x *ℤ negsuc k
opposite_times x k =
    let parts : pos_part (neg_ℤ x) + pos_part x ≡ neg_part (neg_ℤ x) + neg_part x = ground arith in
    eq_of_parts _ _ (
      omega (
        arith,
        *ℤ_parts (neg_ℤ x) (pos (suc k)),
        *ℤ_parts x (negsuc k),
        ap (λ (t : ℕ). suc k * t) parts,
      ))

pub times_minus_one : (x : ℤ) → x *ℤ negsuc 0 ≡ neg_ℤ x
times_minus_one x = eq_of_parts _ _ (ground (arith, *ℤ_parts x (negsuc 0)))

module _ (b : BigInts) (laws : IsBigInts b) (p q : ℕ) (big : 0 < p * q)
    (bigger : 0 < p * q * (p * q)) where
  abbrev pub square : ℕ
  square = p * q * (p * q)

  -- c, a value of the space, is an encryption of m.
  pub record Holds (m c : ℤ) : Type 0 where
    pub in_space : InSpace square c
    pub encodes : Encodes p q (residue (p * q) m) (plain b square c)

  pub Holds-mul :
      {m k c d : ℤ} → Holds m c → Holds k d → Holds (m +ℤ k) (b.space_mul (pos square) c d)
  Holds-mul {m} {k} {c} {d} e f = record {
    in_space = laws.space_mul_in c d square e.in_space f.in_space;
    encodes =
        Encodes-same p q
          (cong_trans (cong_sym (cong_mod square _))
            (cong_of_eq square (sym (laws.space_mul_is c d square e.in_space f.in_space))))
          (Encodes-cong p q (cong_sym (residue-add (p * q) big m k))
            (Encodes-mul p q e.encodes f.encodes));
  }

  pub Holds-plain : (m : ℤ) → Holds m (b.map_into (pos square) (pos (p * q) *ℤ m +ℤ pos 1))
  Holds-plain m = record {
    in_space = laws.map_into_in _ square bigger;
    encodes =
        Encodes-same p q
          (cong_trans (cong_sym (residue-generator (p * q) m big bigger))
            (cong_of_eq square (sym (laws.map_into_is (pos (p * q) *ℤ m +ℤ pos 1) square bigger))))
          (Encodes-plain p q (residue (p * q) m));
  }

  pub Holds-noise :
      (h r : ℕ) → IsNoise p q h → Holds (pos 0) (b.space_pow (pos square) (pos h) (pos r))
  Holds-noise h r e = record {
    in_space = laws.space_pow_in h r square bigger;
    encodes =
        Encodes-same p q
          (cong_trans (cong_sym (cong_mod square _))
            (cong_of_eq square (sym (laws.space_pow_is h r square bigger))))
          (Encodes-cong p q (cong_sym (cong_mod (p * q) 0))
            (Encodes-noise p q (IsNoise-pow p q r e)));
  }

  -- The inverse of the value behind c, by InvMod.
  pub inverse_value :
      {m c : ℤ}
      → Holds m c
      → (i : ℕ) × (b.inv_mod (pos (plain b square c)) (pos square) ≡ pos i)
        × (plain b square c * i % square ≡ 1 % square)
        × Encodes p q (residue (p * q) (neg_ℤ m)) i
  inverse_value {m} {c} e =
      let opposite : Cong (p * q) (residue (p * q) m + residue (p * q) (neg_ℤ m)) 0 =
        cong_trans (cong_sym (residue-add (p * q) big m (neg_ℤ m))) (
          cong_trans (cong_of_eq (p * q) (ap (residue (p * q)) (vanish m))) (cong_mod (p * q) 0)) in
      let one =
        mod_of_cong bigger (opposite_product p q (residue (p * q) (neg_ℤ m)) e.encodes opposite) in
      let (i, is_i, small, inv) = laws.inv_mod_is (plain b square c) square _ bigger one in
      (i, is_i, inv, Encodes-inverse p q opposite (cong_of_mod square _ _ inv) e.encodes)

  -- Mapping a natural number into the space.
  pub Holds-map :
      {m : ℤ} (u : ℕ)
      → Encodes p q (residue (p * q) m) u
      → Holds m (b.map_into (pos square) (pos u))
  Holds-map u e = record {
    in_space = laws.map_into_in (pos u) square bigger;
    encodes =
        Encodes-same p q
          (cong_trans (cong_sym (cong_mod square u))
            (cong_of_eq square (sym (laws.map_into_is (pos u) square bigger))))
          e;
  }

  pub Holds-negate :
      {m c : ℤ}
      → Holds m c
      → Holds
          (neg_ℤ m)
          (b.map_into (pos square) (b.inv_mod (b.map_back (pos square) c) (pos square)))
  Holds-negate {m} {c} e =
      let (i, is_i, inv, enc) = inverse_value e in
      rw (laws.map_back_is square c e.in_space, is_i) (Holds-map {m = neg_ℤ m} i enc)

  pub Holds-identity : (m : ℤ) → Holds (m *ℤ pos 0) (b.space_identity (pos square))
  Holds-identity m = rw (times_zero m) (record {
    in_space = laws.identity_in square bigger;
    encodes =
        Encodes-same p q
          (cong_trans (cong_sym (cong_mod square 1))
            (cong_of_eq square (sym (laws.identity_is square bigger))))
          (Encodes-cong p q (cong_sym (cong_mod (p * q) 0))
            (Encodes-same p q (cong_of_eq square (omega arith)) (Encodes-plain p q 0)));
  })

  pow-Encodes :
      (m : ℤ) (u k : ℕ)
      → Encodes p q (residue (p * q) m) u
      → Encodes p q (residue (p * q) (m *ℤ pos k)) (u ^ k % square)
  pow-Encodes m u k e = Encodes-same p q (cong_sym (cong_mod square (u ^ k))) (
      Encodes-cong p q
        (cong_sym (
          cong_trans (residue-mul (p * q) big m (pos k)) (
            cong_trans (cong_mul_left (residue (p * q) m) (cong_mod (p * q) k))
              (cong_of_eq (p * q) (omega arith)))))
        (Encodes-pow p q k e))

  pub Holds-power :
      {m c : ℤ} (k : ℤ)
      → Holds m c
      → Holds
          (m *ℤ k)
          (b.map_into (pos square) (b.pow_mod (b.map_back (pos square) c) k (pos square)))
  Holds-power {m} {c} (pos k) e =
      rw (laws.map_back_is square c e.in_space, laws.pow_mod_is (plain b square c) k square bigger)
        (Holds-map {m = m *ℤ pos k} _ (pow-Encodes m (plain b square c) k e.encodes))
  Holds-power {m} {c} (negsuc k) e =
      let (i, is_i, inv, enc) = inverse_value e in
      rw
        (
          laws.map_back_is square c e.in_space,
          laws.pow_mod_neg (plain b square c) k square i bigger inv,
          is_i,
          laws.pow_mod_is i (suc k) square bigger,
          ← opposite_times m k,
        )
        (Holds-map {m = neg_ℤ m *ℤ pos (suc k)} _ (pow-Encodes (neg_ℤ m) i (suc k) enc))
