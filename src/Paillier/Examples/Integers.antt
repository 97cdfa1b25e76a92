-- ===== src/Paillier/Examples/Integers.antt =====
-- Big integers and Montgomery spaces by plain arithmetic, with inverses by search, and a small key.
use heu.Base.{
  ℕ, zero, suc, ◌+◌, ◌*◌, ◌/◌, ◌%◌, ◌^◌, ◌<◌, ◌≤◌, ◌≡◌, refl, sym, ap, ◌∙◌, Bool, true, ◌&&◌, ◌||◌,
  ◌==◌, ==_iff, if◌then◌else◌, Bool-cases, inl, inr, ◌⊎◌, arith,
}
use native.Mathlib.Nat.{mod-lt, mod-eq_of_lt, mul-pos, mod-mod}
use native.Mathlib.Decide.{ℕ_discrete}
use heu.Base.Int.Residue.{residue, residue-lt}
use heu.Base.Int.{ℤ, pos, negsuc, pos_part, neg_part}
use heu.Base.Words.{mul-mod_right}
use heu.Base.Modular.{
  Cong, cong, cong_of_eq, cong_sym, cong_trans, cong_pow, cong_weaken, cong_mod, cong_mul_right,
  cong_unique, cong_of_mod,
}
use heu.Paillier.BigInts.{BigInts, IsBigInts, InSpace}
use heu.Paillier.Numbers.{IsKeyPair}

-- The first i of those from `i` on with a * i = 1 modulo m.
unfoldable pub scan : ℕ → ℕ → ℕ → ℕ → ℕ
scan zero a m i = 0
scan (suc f) a m i = let rest = scan f a m (i + 1) in if a * i % m == 1 % m then i else rest

scan_lem :
    (f a m i k : ℕ)
    → i ≤ k
    → k < i + f
    → a * k % m ≡ 1 % m
    → (scan f a m i < i + f) × (a * scan f a m i % m ≡ 1 % m)
unfolding scan
scan_lem zero a m i k h j e = absurd (omega arith)
scan_lem (suc f) a m i k h j e = elim (Bool-cases (a * i % m == 1 % m)) [
  | inl t ↦ rw t (omega arith, (==_iff _ _).0 t)
  | inr t ↦ elim (ℕ_discrete i k) [
    | yes same ↦ absurd (ground (arith, ap (λ (u : ℕ). a * u % m) same))
    | no differ ↦
        let (below, inv) = scan_lem f a m (i + 1) k (omega arith) (omega arith) e in
        rw t (omega arith, inv)
  ]
]

abbrev pub inverse : ℕ → ℕ → ℕ
inverse a m = scan m a m 0

inverse_lem :
    (a m k : ℕ) → 0 < m → a * k % m ≡ 1 % m → (inverse a m < m) × (a * inverse a m % m ≡ 1 % m)
inverse_lem a m k h e =
    let (below, inv) =
      scan_lem m a m 0 (k % m) (omega arith) (omega (arith, mod-lt k h))
        (mul-mod_right a k m ∙ e) in
    (omega arith, inv)

-- The greatest common divisor that is at least 2 and at most k + 2, and else 2.
unfoldable pub divisor : ℕ → ℕ → ℕ → ℕ
divisor zero x y = 2
divisor (suc k) x y =
    let rest = divisor k x y in if x % (k + 3) == 0 && y % (k + 3) == 0 then k + 3 else rest

divisor_big : (k x y : ℕ) → 2 ≤ divisor k x y
unfolding divisor
divisor_big zero x y = omega arith
divisor_big (suc k) x y = ground (arith, divisor_big k x y)

abbrev pub gcd_of : ℕ → ℕ → ℕ
gcd_of x y = if x * inverse x y % y == 1 % y then 1 else divisor x x y

abbrev pub natural : ℕ → ℤ → ℕ
natural m (pos a) = a
natural m (negsuc a) = residue m (negsuc a)

abbrev pub power : ℕ → ℕ → ℤ → ℕ
power m a (pos e) = a ^ e % m
power m a (negsuc e) = inverse a m ^ suc e % m

unfoldable pub bits : ℕ → ℕ → ℕ
bits zero n = 0
bits (suc f) n = let rest = bits f (n / 2) in if n == 0 then 0 else 1 + rest

bits_none : (f n : ℕ) → n ≤ f → bits f n ≡ 0 → n ≡ 0
unfolding bits
bits_none zero n h e = omega arith
bits_none (suc f) n h e = ground arith

bits_one : (f n : ℕ) → n ≤ f → bits f n ≡ 1 → n ≡ 1
unfolding bits
bits_one zero n h e = absurd (omega arith)
bits_one (suc f) n h e = elim (ℕ_discrete n 0) [
  | yes is ↦ absurd (ground arith)
  | no is ↦
      let low : bits f (n / 2) ≡ 0 = ground arith in
      omega (arith, bits_none f (n / 2) (omega arith) low)
]

abbrev pub plain_integers : BigInts
plain_integers = record {
  mul_mod = λ x y m. pos (residue (pos_part m) x * residue (pos_part m) y % pos_part m);
  pow_mod = λ x e m. pos (power (pos_part m) (natural (pos_part m) x) e);
  inv_mod = λ x m. pos (inverse (natural (pos_part m) x) (pos_part m));
  div = λ x y. pos (pos_part x / pos_part y);
  rem = λ x m. pos (residue (pos_part m) x);
  shift_right = λ x k. pos (pos_part x / 2 ^ k);
  bit_count = λ x. bits (pos_part x + neg_part x) (pos_part x + neg_part x);
  gcd = λ x y. pos (gcd_of (pos_part x) (pos_part y));
  map_into = λ m x. pos (residue (pos_part m) x);
  map_back = λ m c. c;
  space_mul = λ m x y. pos (residue (pos_part m) x * residue (pos_part m) y % pos_part m);
  space_pow = λ m a e. pos (power (pos_part m) (natural (pos_part m) a) e);
  space_identity = λ m. pos (1 % pos_part m);
}

below_InSpace : (m k : ℕ) → k < m → InSpace m (pos k)
below_InSpace m k h = record { at = k; is_pos = refl; below = h }

none_pos : (x : ℤ) → pos_part x + neg_part x ≡ 0 → x ≡ pos 0
none_pos x e = ground arith

InSpace-residue : (m : ℕ) (c : ℤ) → InSpace m c → c ≡ pos (residue m c)
InSpace-residue m c h = rw (h.is_pos) (ap pos (sym (mod-eq_of_lt h.below)))

gcd_inverse : (x m : ℕ) → pos (gcd_of x m) ≡ pos 1 → x * inverse x m % m ≡ 1 % m
gcd_inverse x m e = elim (Bool-cases (x * inverse x m % m == 1 % m)) [
  | inl t ↦ (==_iff _ _).0 t
  | inr t ↦ let one : gcd_of x m ≡ 1 = ap pos_part e in absurd (ground (arith, divisor_big x x m))
]

pub plain_laws : IsBigInts plain_integers
plain_laws = record {
  mul_mod_is = λ x y m h. refl;
  pow_mod_is = λ a e m h. refl;
  pow_mod_neg = λ a e m k h i. refl;
  inv_mod_is =
      λ a m k h e. let (below, inv) = inverse_lem a m k h e in (inverse a m, refl, below, inv);
  div_is = λ a d h. refl;
  rem_is = λ x m h. refl;
  shift_right_is = λ a k. refl;
  gcd_is = λ x m h e. (inverse x m, gcd_inverse x m e);
  no_bits = λ x e. none_pos x (bits_none _ _ (omega arith) e);
  one_bit = λ x e. bits_one _ _ (omega arith) e;
  map_back_is = λ m c h. InSpace-residue m c h;
  map_into_is = λ x m h. mod-eq_of_lt (residue-lt m x h);
  map_into_in = λ x m h. below_InSpace m _ (residue-lt m x h);
  space_mul_is = λ x y m h k. mod-mod (residue m x * residue m y) m;
  space_mul_in = λ x y m h k. below_InSpace m _ (mod-lt _ (omega (arith, h.below)));
  space_pow_is = λ a e m h. mod-mod (a ^ e) m;
  space_pow_in = λ a e m h. below_InSpace m _ (mod-lt (a ^ e) h);
  identity_is = λ m h. mod-mod 1 m;
  identity_in = λ m h. below_InSpace m _ (mod-lt 1 h);
}

-- Whether each residue is divisible by m or has the power 1.
unfoldable pub all_powers : ℕ → ℕ → ℕ → ℕ → Bool
all_powers zero m s k = true
all_powers (suc r) m s k = (r % m == 0 || r ^ k % s == 1 % s) && all_powers r m s k

pub all_powers_lem :
    (n m s k r : ℕ) → all_powers n m s k ≡ true → r < n → (r % m ≡ 0) ⊎ (r ^ k % s ≡ 1 % s)
unfolding all_powers
all_powers_lem zero m s k r h j = absurd (omega arith)
all_powers_lem (suc n) m s k r h j = elim (ℕ_discrete r n) [
  | yes same ↦ elim (Bool-cases (r % m == 0)) [
    | inl t ↦ inl ((==_iff _ _).0 t)
    | inr t ↦ inr (ground (arith, ap (λ (u : ℕ). u ^ k % s) same))
  ]
  | no differ ↦ all_powers_lem n m s k r (ground arith) (omega arith)
]

pub one_apart : (x y : ℕ) → x ≡ 1 → y ≡ 0 → ¬ (x ≡ y)
one_apart x y h k e = omega arith

-- Euler's theorem, by looking at every residue.
euler_check :
    (m k u v : ℕ)
    → 1 < m
    → all_powers (m * m) m (m * m) k ≡ true
    → Cong m (u * v) 1
    → Cong (m * m) (u ^ k) 1
euler_check m k u v big checked inv =
    let positive : 0 < m * m = mul-pos (omega arith) (omega arith) in
    elim (all_powers_lem (m * m) m (m * m) k (u % (m * m)) checked (mod-lt u positive)) [
      | inl divisible ↦
          let none_u : Cong m u 0 =
            cong_trans (cong_weaken m (cong_sym (cong_mod (m * m) u)))
              (cong_trans (cong_sym (cong_mod m (u % (m * m)))) (cong_of_eq m divisible)) in
          let one_none : Cong m 1 0 =
            cong_trans (cong_sym inv)
              (cong_trans (cong_mul_right v none_u) (cong_of_eq m {a = 0 * v} (omega arith))) in
          absurd (one_apart 1 0 refl refl (cong_unique {m = m} big (omega arith) one_none))
      | inr one ↦
          cong_trans (cong_pow k (cong_sym (cong_mod (m * m) u)))
            (cong_of_mod (m * m) ((u % (m * m)) ^ k) 1 one)
    ]

pub three_five : IsKeyPair 3 5
unfolding all_powers
three_five = record {
  p_big = omega arith;
  q_big = omega arith;
  p_inverse = 2;
  p_inverse_is = cong 0 1 (omega arith);
  q_inverse = 2;
  q_inverse_is = cong 0 3 (omega arith);
  odd = omega arith;
  euler_p = λ u v h. euler_check 3 6 u v (omega arith) refl h;
  euler_q = λ u v h. euler_check 5 20 u v (omega arith) refl h;
}
