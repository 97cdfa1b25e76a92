-- ===== src/Ishe/Runs.antt =====
-- Each operation of ishe computes on the plaintexts, and keeps the noise within its bound.
use heu.Base.{
  ℕ, zero, suc, ◌+◌, ◌*◌, ◌^◌, ◌<◌, ◌≤◌, ◌≡◌, refl, subst, ◌∙◌, true, false, List, ◌==◌, ==_refl,
  ==_iff, ltb, Bool-cases, inl, inr, ok, arith,
}
use native.Mathlib.Nat.{pow-zero, pow-suc}
use heu.Base.Int.{ℤ, pos, negsuc, neg_ℤ, ◌+ℤ◌, ◌*ℤ◌, *ℤ_comm}
use heu.Base.Modular.{Cong, cong_sym, cong_trans, cong_mul, cong_mod, cong_weaken}
use heu.Paillier.BigInts.{BigInts, IsBigInts}
use heu.Paillier.Keys.Derived.{pos_mul, pos_add}
use heu.Paillier.Scheme.Values.{times_one, times_minus_one, opposite_times}
use heu.Ishe.Scheme as S
use heu.Ishe.Scheme.{Ciphertext, SecretKey, PublicParameters, element, power}
use heu.Ishe.Circuit.{Sizes, noise_times}
use heu.Ishe.Numbers.{Encodes, Encodes-same, Encodes-add, Encodes-mul, Encodes-plain, Encodes-power}

-- The elements below the size encrypt m, the one at i with the degree for start + i.
abbrev pub Vector : ℕ → ℕ → ℕ → ℕ → ℤ → (ℕ → ℕ) → ℕ → List ℤ → ℕ → Type 0
Vector p s l f m degree_of start xs size =
    (i : ℕ)
    → i < size
    → (c : ℕ) × (element xs i ≡ ok (pos c)) × Encodes p s l m (degree_of (start + i)) f c

module _ (b : BigInts) (laws : IsBigInts b) (p q s l f : ℕ) (some_n : 0 < p * q) (some_l : 0 < l)
    (k_0 k_r k_m : ℕ) (addones ones negs : List ℤ) where
  abbrev pub pp : PublicParameters
  pp = record {
    k_0 = k_0;
    k_r = k_r;
    k_m = k_m;
    n = pos (p * q);
    addones = addones;
    ones = ones;
    negs = negs;
  }

  abbrev pub Holds : ℤ → ℕ → ℕ → Ciphertext → Type 0
  Holds m d bound ct = (c : ℕ) × (ct ≡ record { n = pos c; d = d }) × Encodes p s l m d bound c

  product_lem :
      (c e : ℕ) → (v : ℕ) × (b.mul_mod (pos c) (pos e) (pos (p * q)) ≡ pos v) × Cong p v (c * e)
  product_lem c e = (
    _,
    laws.mul_mod_is (pos c) (pos e) (p * q) some_n,
    cong_weaken q
        (cong_trans (cong_mod (p * q) _) (cong_mul (cong_mod (p * q) c) (cong_mod (p * q) e))),
  )

  pub mul-Holds :
      (x y : Ciphertext) (m k : ℤ) (d i g h : ℕ)
      → Holds m d g x
      → Holds k i h y
      → Holds (m *ℤ k) (d + i) (g * h) (S.mul b pp x y)
  unfolding S.mul
  mul-Holds x y m k d i g h (c, is_c, first) (e, is_e, second) =
      let (v, is_v, shape) = product_lem c e in
      (
        v,
        rw (is_c, is_e, is_v) refl,
        Encodes-same p s l some_l (m *ℤ k) (d + i) (g * h) (c * e) v (cong_sym shape)
            (Encodes-mul p s l some_l m k d i g h c e first second),
      )

  module _ (z : Sizes) (addones_are : Vector p s l f (pos 1) (λ i. i) 1 addones z.addones)
      (ones_are : Vector p s l f (pos 1) (λ i. 1) 1 ones z.ones)
      (negs_are : Vector p s l f (negsuc 0) (λ i. 0) 1 negs z.negs) where
    pub negate-Holds :
        (x : Ciphertext) (m : ℤ) (d g i : ℕ)
        → i < z.negs
        → Holds m d g x
        → (ct : Ciphertext) × (S.negate b pp x i ≡ ok ct) × Holds (neg_ℤ m) d (f * g) ct
    unfolding S.negate
    negate-Holds x m d g i inside held =
        let (c, is_c, encodes) = negs_are i inside in
        let alone : 0 + d ≡ d = omega arith in
        let minus : negsuc 0 *ℤ m ≡ neg_ℤ m = *ℤ_comm (negsuc 0) m ∙ times_minus_one m in
        (
          _,
          rw is_c refl,
          rw (minus, alone) at
              (mul-Holds (record { n = pos c; d = 0 }) x (negsuc 0) m 0 d f g (c, refl, encodes)
                held),
        )

    scaled-Holds :
        (c : ℕ) (m : ℤ) (d g k : ℕ)
        → Encodes p s l m d g c
        → Holds
            (m *ℤ pos k)
            d
            (g * k)
            (record { n = b.mul_mod (pos c) (pos k) (pos (p * q)); d = d })
    scaled-Holds c m d g k encodes =
        let (v, is_v, shape) = product_lem c k in
        let same : d + 0 ≡ d = omega arith in
        (
          v,
          rw is_v refl,
          Encodes-same p s l some_l (m *ℤ pos k) d (g * k) (c * k) v (cong_sym shape) (
              rw same at (
                Encodes-mul p s l some_l m (pos k) d 0 g k c k encodes
                  (Encodes-plain p s l some_l k))),
        )

    pub mul_plain-Holds :
        (x : Ciphertext) (m k : ℤ) (d g j : ℕ)
        → j < z.negs
        → Holds m d g x
        → (ct : Ciphertext) × (S.mul_plain b pp x k j ≡ ok ct)
          × Holds (m *ℤ k) d (noise_times f g k) ct
    unfolding S.mul_plain
    mul_plain-Holds x m (pos k) d g j inside (c, is_c, encodes) =
        let whole : ltb (k + 0) 0 ≡ false = ground arith in
        (
          record { n = b.mul_mod (pos c) (pos k) (pos (p * q)); d = d },
          rw (is_c, whole) refl,
          scaled-Holds c m d g k encodes,
        )
    mul_plain-Holds x m (negsuc k) d g j inside held =
        let (y, ran, (c, is_c, encodes)) = negate-Holds x m d g j inside held in
        let below : ltb 0 (0 + suc k) ≡ true = ground arith in
        let opposite : neg_ℤ (negsuc k) ≡ pos (suc k) = ground arith in
        (
          record { n = b.mul_mod (pos c) (pos (suc k)) (pos (p * q)); d = d },
          rw (ran, is_c, held.1, below, opposite) refl,
          rw (opposite_times m k) at (scaled-Holds c (neg_ℤ m) d (f * g) (suc k) encodes),
        )

    one_of_lem :
        (d i : ℕ)
        → 0 < d
        → d ≤ z.addones
        → i < z.ones
        → (c : ℕ) × (S.one_of b pp d i ≡ ok (pos c)) × Encodes p s l (pos 1) d f c
    unfolding S.one_of S.addone
    one_of_lem zero i some_d reach inside = absurd (omega arith)
    one_of_lem (suc j) i some_d reach inside = elim (Bool-cases (suc j == 1)) [
      | inl first ↦
          let (c, is_c, encodes) = ones_are i inside in
          let one : 1 ≡ suc j = omega (arith, (==_iff (suc j) 1).0 first) in
          (c, rw (first, is_c) refl, subst (λ (t : ℕ). Encodes p s l (pos 1) t f c) one encodes)
      | inr later ↦
          let (c, is_c, encodes) = addones_are j (omega arith) in
          let same : 1 + j ≡ suc j = omega arith in (c, rw (later, is_c) refl, rw same at encodes)
    ]

    pub add_plain-Holds :
        (x : Ciphertext) (m k : ℤ) (d g i j : ℕ)
        → 0 < d
        → d ≤ z.addones
        → i < z.ones
        → j < z.negs
        → Holds m d g x
        → (ct : Ciphertext) × (S.add_plain b pp x k i j ≡ ok ct)
          × Holds (m +ℤ k) d (g + noise_times f f k) ct
    unfolding S.add_plain
    add_plain-Holds x m k d g i j some_d reach in_ones in_negs (c, is_c, first) =
        let (o, is_one, one) = one_of_lem d i some_d reach in_ones in
        let (y, ran, (e, is_e, second)) =
          mul_plain-Holds (record { n = pos o; d = d }) (pos 1) k d f j in_negs (o, refl, one) in
        let times : pos 1 *ℤ k ≡ k = *ℤ_comm (pos 1) k ∙ times_one k in
        (
          record { n = pos (c + e); d = d },
          rw (is_c, is_one, ran, is_e, pos_add c e) refl,
          (
            c + e,
            refl,
            Encodes-add p s l some_l m k d g (noise_times f f k) c e first (rw times at second),
          ),
        )

    pub randomize-Holds :
        (x : Ciphertext) (m : ℤ) (d g i : ℕ)
        → i < z.ones
        → Holds m d g x
        → (ct : Ciphertext) × (S.randomize b pp x i ≡ ok ct) × Holds m (d + 1) (g * f) ct
    unfolding S.randomize
    randomize-Holds x m d g i inside held =
        let (c, is_c, encodes) = ones_are i inside in
        (
          _,
          rw is_c refl,
          rw (times_one m) at
              (mul-Holds x (record { n = pos c; d = 1 }) m (pos 1) d 1 g f held (c, refl, encodes)),
        )

  pub add-Holds :
      (x y : Ciphertext) (m k : ℤ) (d g h : ℕ)
      → Holds m d g x
      → Holds k d h y
      → (ct : Ciphertext) × (S.add b pp x y 0 0 ≡ ok ct) × Holds (m +ℤ k) d (g + h) ct
  unfolding S.add
  add-Holds x y m k d g h (c, is_c, first) (e, is_e, second) = (
    record { n = pos (c + e); d = d },
    rw (is_c, is_e, ==_refl d, pos_add c e) refl,
    (c + e, refl, Encodes-add p s l some_l m k d g h c e first second),
  )

  pub square-Holds :
      (x : Ciphertext) (m : ℤ) (d g : ℕ)
      → Holds m d g x
      → Holds (m *ℤ m) (d * 2) (g * g) (S.square b pp x)
  unfolding S.square
  square-Holds x m d g (c, is_c, held) =
      let twice : d + d ≡ d * 2 = omega arith in
      (
        c * c,
        rw (is_c, pos_mul c c) refl,
        rw twice at (Encodes-mul p s l some_l m m d d g g c c held held),
      )

  power-pos : (c k : ℕ) → power (pos c) k ≡ pos (c ^ k)
  unfolding power
  power-pos c zero = rw (pow-zero c) refl
  power-pos c (suc k) = rw (pow-suc c k, power-pos c k) (pos_mul (c ^ k) c)

  pub pow-Holds :
      (x : Ciphertext) (m : ℤ) (d g k : ℕ)
      → Holds m d g x
      → Holds (power m k) (d * k) (g ^ k) (S.pow b pp x k)
  unfolding S.pow
  pow-Holds x m d g k (c, is_c, held) =
      (c ^ k, rw (is_c, power-pos c k) refl, Encodes-power p s l some_l m d g c k held)
