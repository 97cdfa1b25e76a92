-- ===== src/Phe/BatchEncoder/Sums.antt =====
-- Sums of encodings: each half holds the sum of its numbers, as long as the padding suffices.
use heu.Base.{
  ℕ, zero, suc, ◌+◌, ◌-◌, ◌*◌, ◌/◌, ◌%◌, ◌^◌, ◌<◌, ◌≤◌, ◌≡◌, sym, ap, ◌∙◌, List, [], ◌∷◌, length,
  ltb, Bool-cases, inl, inr, arith,
}
use native.Mathlib.Nat.{pow-suc, pow-zero, mod-eq_of_lt, mul-pos, zero-lt-suc, mul-div_cancel}
use heu.Base.Int.{ℤ, pos, negsuc, pos_part, neg_part, ◌+ℤ◌, ◌-ℤ◌, ◌*ℤ◌, eq_of_parts, *ℤ_comm}
use heu.Base.Int.Ring.{*ℤ_parts}
use heu.Base.Int.Ring as R
use heu.Base.Int.Residue.{residue, residue-lt, residue-add}
use heu.Base.Modular.{Cong, cong_refl, cong_of_eq, cong_sym, cong_trans, cong_add, cong_mod}
use heu.Phe.BatchEncoder.{PlaintextOps, BatchEncoder, signed, cast, trunc_div, encode}

-- The documented behaviour of the plaintext's operations.
pub record IsPlaintext (ops : PlaintextOps) : Type 0 where
  pub shift_left_is : (x k : ℕ) → ops.shift_left x k ≡ x * 2 ^ k
  pub shift_right_is : (x k : ℕ) → ops.shift_right x k ≡ x / 2 ^ k
  pub bit_or_is : (x y k : ℕ) → y < 2 ^ k → ops.bit_or (x * 2 ^ k) y ≡ x * 2 ^ k + y
  pub get_value_is : (w x : ℕ) → ops.get_value w x ≡ signed w (x % 2 ^ w)

pub power_positive : (k : ℕ) → 0 < 2 ^ k
power_positive zero = omega (arith, pow-zero 2)
power_positive (suc k) = omega (arith, pow-suc 2 k, power_positive k)

half_power : (w : ℕ) → 0 < w → 2 ^ w ≡ 2 ^ (w - 1) + 2 ^ (w - 1)
half_power zero h = absurd (omega arith)
half_power (suc k) h =
    omega (arith, pow-suc 2 k, ap (λ (t : ℕ). 2 ^ t) {x = suc k - 1} {y = k} (omega arith))

-- The numbers of the signed type.
abbrev pub Fits : ℕ → ℤ → Type 0
Fits w x = (pos_part x < 2 ^ (w - 1)) × (neg_part x ≤ 2 ^ (w - 1))

pub signed-residue : (w : ℕ) (x : ℤ) → 0 < w → Fits w x → signed w (residue (2 ^ w) x) ≡ x
signed-residue w (pos a) h (high, low) =
    let two = half_power w h in
    let small : a % 2 ^ w ≡ a = mod-eq_of_lt (omega arith) in rw small (ground arith)
signed-residue w (negsuc a) h (high, low) =
    let two = half_power w h in
    let small : a % 2 ^ w ≡ a = mod-eq_of_lt (omega arith) in
    rw small (unfold ◌-ℤ◌ in (ground arith))

-- A cast keeps the residue.
pub residue-cast : (w : ℕ) (x : ℤ) → 0 < w → residue (2 ^ w) (cast w x) ≡ residue (2 ^ w) x
residue-cast w x h =
    let m = 2 ^ w in
    let r = residue m x in
    let below : r < m = residue-lt m x (power_positive w) in
    let same : r % m ≡ r = mod-eq_of_lt below in
    let two = half_power w h in
    elim (Bool-cases (ltb r (2 ^ (w - 1)))) [
      | inl t ↦ rw t same
      | inr t ↦
          let shifted : pos r -ℤ pos m ≡ negsuc (m - r - 1) = unfold ◌-ℤ◌ in (ground arith) in
          let high : (m - r - 1) % m ≡ m - r - 1 = mod-eq_of_lt (omega arith) in
          rw (t, shifted, high) (omega arith)
    ]

-- The sum of the plaintexts, and of the numbers.
unfoldable pub sum_encoded : PlaintextOps → BatchEncoder → ℕ → List (ℤ × ℤ) → ℕ
unfolding encode
sum_encoded ops e w [] = 0
sum_encoded ops e w ((x, y) ∷ ps) = encode ops e w x y + sum_encoded ops e w ps

abbrev pub sum_first : List (ℤ × ℤ) → ℤ
sum_first [] = pos 0
sum_first ((x, y) ∷ ps) = x +ℤ sum_first ps

abbrev pub sum_second : List (ℤ × ℤ) → ℤ
sum_second [] = pos 0
sum_second ((x, y) ∷ ps) = y +ℤ sum_second ps

pub trunc_div-mul : (x : ℤ) (c : ℕ) → 0 < c → trunc_div (x *ℤ pos c) (pos c) ≡ x
trunc_div-mul (pos a) c h =
    let e : pos a *ℤ pos c ≡ pos (a * c) =
      eq_of_parts _ _ (omega (arith, *ℤ_parts (pos a) (pos c))) in
    rw e (ap pos (mul-div_cancel a h))
trunc_div-mul (negsuc a) c h =
    let k = (a + 1) * c - 1 in
    let positive = mul-pos {n = c} (zero-lt-suc a) h in
    let k_is : (a + 1) * c ≡ k + 1 = omega arith in
    let e : negsuc a *ℤ pos c ≡ negsuc k =
      eq_of_parts _ _ (omega (arith, *ℤ_parts (negsuc a) (pos c))) in
    let q : (k + 1) / c ≡ a + 1 = ap (λ (t : ℕ). t / c) (sym k_is) ∙ mul-div_cancel (a + 1) h in
    rw (e, q) (ground arith)

module _ (w : ℕ) (some_bits : 0 < w) (s : ℤ) where
  -- The word of a number, and what the words of a list add up to.
  unfoldable pub word : ℤ → ℕ
  word x = residue (2 ^ w) (x *ℤ s)

  unfoldable pub words_first : List (ℤ × ℤ) → ℕ
  words_first [] = 0
  words_first ((x, y) ∷ ps) = word x + words_first ps

  unfoldable pub words_second : List (ℤ × ℤ) → ℕ
  words_second [] = 0
  words_second ((x, y) ∷ ps) = word y + words_second ps

  distribute : (x y : ℤ) → (x +ℤ y) *ℤ s ≡ x *ℤ s +ℤ y *ℤ s
  distribute x y = rw (*ℤ_comm (x +ℤ y) s, R.mul-add s x y, *ℤ_comm s x, *ℤ_comm s y)

  zero_word : Cong (2 ^ w) 0 (residue (2 ^ w) (pos 0 *ℤ s))
  zero_word =
      let e : pos 0 *ℤ s ≡ pos 0 = eq_of_parts _ _ (omega (arith, *ℤ_parts (pos 0) s)) in
      cong_trans (cong_sym (cong_mod (2 ^ w) 0)) (cong_of_eq (2 ^ w) (ap (residue (2 ^ w)) (sym e)))

  word_step :
      (x y : ℤ) (u : ℕ)
      → Cong (2 ^ w) u (residue (2 ^ w) (y *ℤ s))
      → Cong (2 ^ w) (word x + u) (residue (2 ^ w) ((x +ℤ y) *ℤ s))
  unfolding word
  word_step x y u h = cong_trans (cong_add (cong_refl (2 ^ w) (residue (2 ^ w) (x *ℤ s))) h) (
      cong_trans (cong_sym (residue-add (2 ^ w) (power_positive w) (x *ℤ s) (y *ℤ s)))
        (cong_of_eq (2 ^ w) (ap (residue (2 ^ w)) (sym (distribute x y)))))

  pub words_first_lem :
      (ps : List (ℤ × ℤ))
      → (words_first ps + length ps ≤ length ps * 2 ^ w)
        × Cong (2 ^ w) (words_first ps) (residue (2 ^ w) (sum_first ps *ℤ s))
  unfolding words_first word
  words_first_lem [] = (omega arith, zero_word)
  words_first_lem ((x, y) ∷ ps) =
      let (bound, same) = words_first_lem ps in
      let below = residue-lt (2 ^ w) (x *ℤ s) (power_positive w) in
      (omega arith, word_step x (sum_first ps) (words_first ps) same)

  pub words_second_lem :
      (ps : List (ℤ × ℤ)) → Cong (2 ^ w) (words_second ps) (residue (2 ^ w) (sum_second ps *ℤ s))
  unfolding words_second
  words_second_lem [] = zero_word
  words_second_lem ((x, y) ∷ ps) =
      word_step y (sum_second ps) (words_second ps) (words_second_lem ps)
