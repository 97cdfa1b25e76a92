-- ===== src/MockFhe/Slots.antt =====
-- Loops over the slots of a vector of two rows, which write one entry of each row in a round.
use heu.Base.{
  ℕ, ◌+◌, ◌*◌, ◌-◌, ◌<◌, ◌≤◌, ◌≡◌, ◌≢◌, refl, ◌∙◌, sym, List, length, get_or, set, length-set,
  get_or-set_self, get_or-set_ne, ext_get_or, for_range, for_range_inv, arith,
}
use native.Mathlib.Decide.{dec_lt, ℕ_discrete}

-- Two vectors of two rows that agree slot by slot are equal.
pub ext_slots :
    (half : ℕ) (xs ys : List ℕ)
    → length xs ≡ 2 * half
    → length ys ≡ 2 * half
    → ((j : ℕ)
        → j < half
        → (get_or xs j 0 ≡ get_or ys j 0) × (get_or xs (j + half) 0 ≡ get_or ys (j + half) 0))
    → xs ≡ ys
ext_slots half xs ys ex ey h = ext_get_or xs ys 0 (ex ∙ sym ey) entry
  where
    entry : (i : ℕ) → i < length xs → get_or xs i 0 ≡ get_or ys i 0
    entry i lt = elim (dec_lt i half) [
      | yes p ↦ (h i p).0
      | no p ↦ let e : i - half + half ≡ i = omega arith in rw e at ((h (i - half) (omega arith)).1)
    ]

-- After `i` rounds the slots `loc 0` to `loc (i - 1)` hold the values `u` and `v`, and the others
-- are as in `out`.
pub record Progress (half : ℕ) (loc u v : ℕ → ℕ) (out : List ℕ) (i : ℕ) (s : List ℕ) : Type 0 where
  pub size : length s ≡ length out
  pub done : (j : ℕ) → j < i → (get_or s (loc j) 0 ≡ u j) × (get_or s (loc j + half) 0 ≡ v j)
  pub left :
      (k : ℕ)
      → k < half
      → ((j : ℕ) → j < i → loc j ≢ k)
      → (get_or s k 0 ≡ get_or out k 0) × (get_or s (k + half) 0 ≡ get_or out (k + half) 0)

module _ (half : ℕ) (out : List ℕ) (room : 2 * half ≤ length out) where
  -- Two writes at the positions `i` and `i + half`, read back.
  write_two :
      (s : List ℕ) (i x y : ℕ)
      → length s ≡ length out
      → i < half
      → (get_or (set (set s i x) (i + half) y) i 0 ≡ x)
        × (get_or (set (set s i x) (i + half) y) (i + half) 0 ≡ y)
  write_two s i x y e h = (
    get_or-set_ne (set s i x) (i + half) i y 0 (omega arith)
        ∙ get_or-set_self s i x 0 (omega arith),
    get_or-set_self (set s i x) (i + half) y 0 (omega (arith, length-set s i x)),
  )

  keep_others :
      (s : List ℕ) (i j x y : ℕ)
      → i < half
      → j < half
      → i ≢ j
      → (get_or (set (set s i x) (i + half) y) j 0 ≡ get_or s j 0)
        × (get_or (set (set s i x) (i + half) y) (j + half) 0 ≡ get_or s (j + half) 0)
  keep_others s i j x y h k ne = (
    get_or-set_ne (set s i x) (i + half) j y 0 (omega arith) ∙ get_or-set_ne s i j x 0 ne,
    get_or-set_ne (set s i x) (i + half) (j + half) y 0 (omega arith)
        ∙ get_or-set_ne s i (j + half) x 0 (omega arith),
  )

  module _ (loc u v : ℕ → ℕ) (x y : ℕ → List ℕ → ℕ) (loc_below : (i : ℕ) → i < half → loc i < half)
      (loc_injective : (i j : ℕ) → i < half → j < half → loc i ≡ loc j → i ≡ j)
      (x_is : (i : ℕ) (s : List ℕ) → i < half → Progress half loc u v out i s → x i s ≡ u i)
      (y_is : (i : ℕ) (s : List ℕ) → i < half → Progress half loc u v out i s → y i s ≡ v i) where
    abbrev round : ℕ → List ℕ → List ℕ
    round i s = set (set s (loc i) (x i s)) (loc i + half) (y i s)

    round_done :
        (i : ℕ) (s : List ℕ) (j : ℕ)
        → i < half
        → Progress half loc u v out i s
        → j < i + 1
        → (get_or (round i s) (loc j) 0 ≡ u j) × (get_or (round i s) (loc j + half) 0 ≡ v j)
    round_done i s j h p k = elim (ℕ_discrete i j) [
      | yes e ↦
          let written = write_two s (loc i) (x i s) (y i s) p.size (loc_below i h) in
          rw (← e) (written.0 ∙ x_is i s h p, written.1 ∙ y_is i s h p)
      | no ne ↦
          let earlier : j < i = omega arith in
          let within : j < half = omega arith in
          let kept =
            keep_others s (loc i) (loc j) (x i s) (y i s) (loc_below i h) (loc_below j within)
              (λ e. ne (loc_injective i j h within e)) in
          (kept.0 ∙ (p.done j earlier).0, kept.1 ∙ (p.done j earlier).1)
    ]

    round-Progress :
        (i : ℕ) (s : List ℕ)
        → i < half
        → Progress half loc u v out i s
        → Progress half loc u v out (i + 1) (round i s)
    round-Progress i s h p = record {
      size =
          length-set (set s (loc i) (x i s)) (loc i + half) (y i s)
          ∙ (length-set s (loc i) (x i s) ∙ p.size);
      done = λ j k. round_done i s j h p k;
      left = λ k lt apart.
          let here : loc i ≢ k = apart i (omega arith) in
          let kept = keep_others s (loc i) k (x i s) (y i s) (loc_below i h) lt here in
          let old = p.left k lt (λ j b. apart j (omega arith)) in (kept.0 ∙ old.0, kept.1 ∙ old.1);
    }

    pub slots-Progress : Progress half loc u v out half (for_range half 0 (λ i s. round i s) out)
    slots-Progress =
        for_range_inv (λ i s. Progress half loc u v out i s) (λ i s. round i s) half 0 half
          (omega arith) (λ i s lo hi p. round-Progress i s hi p) out
          (record {
            size = refl;
            done = λ j k. absurd (omega arith);
            left = λ k lt h. (refl, refl);
          })
