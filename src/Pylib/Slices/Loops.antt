-- ===== src/Pylib/Slices/Loops.antt =====
-- The loops over a slice give the arithmetic progression of its start and step, up to its stop.
use heu.Base.{
  ℕ, zero, suc, ◌+◌, ◌%◌, ◌^◌, ◌<◌, ◌≤◌, ◌≡◌, ◌≢◌, refl, Bool, true, false, List, [], ◌∷◌, none,
  some, get_elem?, ltb, if◌then◌else◌, ok, Bool-cases, inl, inr, arith,
}
use native.Mathlib.Nat.{mod-eq_of_lt}
use heu.Base.Int.{
  ℤ, pos, negsuc, ◌+ℤ◌, ◌-ℤ◌, ◌*ℤ◌, ltb_ℤ, ◌≤ℤ◌, pos_part, neg_part, +ℤ_parts, -ℤ_parts,
  eq_of_parts,
}
use heu.Base.Int.Ring.{*ℤ_parts}
use heu.Pylib.Slices.{Computed, wrap64, add_ssize, up_loop, down_loop, slice_indices}
use heu.Pylib.Slices.Bounds.{IsInt64}

wrap64-eq : (x : ℤ) → IsInt64 x → wrap64 x ≡ x
unfolding wrap64
wrap64-eq (pos a) h =
    let small : a % 2 ^ 64 ≡ a = mod-eq_of_lt (omega arith) in rw small (ground arith)
wrap64-eq (negsuc a) h =
    let small : a % 2 ^ 64 ≡ a = mod-eq_of_lt (omega arith) in rw small (ground arith)

add_ssize-eq : (a b : ℤ) → IsInt64 (a +ℤ b) → add_ssize a b ≡ a +ℤ b
unfolding add_ssize
add_ssize-eq a b h = wrap64-eq (a +ℤ b) h

-- The list holds the numbers `at` for as long as they are on.
abbrev pub Items : (ℕ → ℤ) → (ℤ → Bool) → List ℤ → Type 0
Items at on xs = (j : ℕ) → get_elem? xs j ≡ (if on (at j) then some (at j) else none)

nil-Items : (at : ℕ → ℤ) (on : ℤ → Bool) → ((j : ℕ) → on (at j) ≡ false) → Items at on []
nil-Items at on off j = rw (off j) refl

cons-Items :
    (at after : ℕ → ℤ) (on : ℤ → Bool) (x : ℤ) (xs : List ℤ)
    → at 0 ≡ x
    → ((j : ℕ) → at (suc j) ≡ after j)
    → on x ≡ true
    → Items after on xs
    → Items at on (x ∷ xs)
cons-Items at after on x xs first next here rest zero = rw (first, here) refl
cons-Items at after on x xs first next here rest (suc j) = rw (next j) (rest j)

-- One step further on.
first_step : (x s : ℤ) → x +ℤ pos 0 *ℤ s ≡ x
first_step x s = eq_of_parts _ _ (omega (arith, +ℤ_parts x (pos 0 *ℤ s), *ℤ_parts (pos 0) s))

next_step : (x s : ℤ) (j : ℕ) → x +ℤ pos (suc j) *ℤ s ≡ x +ℤ s +ℤ pos j *ℤ s
next_step x s j = eq_of_parts _ _ (
    omega (
      arith,
      +ℤ_parts x (pos (suc j) *ℤ s),
      *ℤ_parts (pos (suc j)) s,
      +ℤ_parts x s,
      +ℤ_parts (x +ℤ s) (pos j *ℤ s),
      *ℤ_parts (pos j) s,
    ))

-- Where the loop ends, no later number would go on.
no_more_up :
    (x stop : ℤ) (s j : ℕ) → ltb_ℤ x stop ≡ false → ltb_ℤ (x +ℤ pos j *ℤ pos s) stop ≡ false
no_more_up x stop s j h = ground (arith, +ℤ_parts x (pos j *ℤ pos s), *ℤ_parts (pos j) (pos s))

no_more_down :
    (x stop : ℤ) (s j : ℕ) → ltb_ℤ stop x ≡ false → ltb_ℤ stop (x +ℤ pos j *ℤ negsuc s) ≡ false
no_more_down x stop s j h =
    ground (arith, +ℤ_parts x (pos j *ℤ negsuc s), *ℤ_parts (pos j) (negsuc s))

between-IsInt64 : (x y z : ℤ) → x ≤ℤ y → y ≤ℤ z → IsInt64 x → IsInt64 z → IsInt64 y
between-IsInt64 x (pos b) (pos c) low high lo hi = (omega arith, omega arith)
between-IsInt64 x (pos b) (negsuc c) low high lo hi = (omega arith, omega arith)
between-IsInt64 (pos a) (negsuc b) z low high lo hi = (omega arith, omega arith)
between-IsInt64 (negsuc a) (negsuc b) z low high lo hi = (omega arith, omega arith)

up_loop_lem :
    (fuel : ℕ) (start stop : ℤ) (s : ℕ)
    → pos_part stop + neg_part start ≤ fuel + (pos_part start + neg_part stop)
    → 0 < s
    → IsInt64 start
    → IsInt64 (stop +ℤ pos s)
    → (xs : List ℤ) × (up_loop fuel start stop (pos s) ≡ ok xs)
      × Items (λ j. start +ℤ pos j *ℤ pos s) (λ x. ltb_ℤ x stop) xs
unfolding up_loop
up_loop_lem zero start stop s h k lo hi =
    let no_more : ltb_ℤ start stop ≡ false = ground arith in
    (
      [],
      rw no_more refl,
      nil-Items (λ j. start +ℤ pos j *ℤ pos s) (λ x. ltb_ℤ x stop)
          (λ j. no_more_up start stop s j no_more),
    )
up_loop_lem (suc fuel) start stop s h k lo hi = elim (Bool-cases (ltb_ℤ start stop)) [
  | inl more ↦
      let fits : IsInt64 (start +ℤ pos s) =
        between-IsInt64 start (start +ℤ pos s) (stop +ℤ pos s)
          (omega (arith, +ℤ_parts start (pos s)))
          (ground (arith, +ℤ_parts start (pos s), +ℤ_parts stop (pos s))) lo hi in
      let (xs, run, items) =
        up_loop_lem fuel (start +ℤ pos s) stop s (omega (arith, +ℤ_parts start (pos s))) k fits
          hi in
      (
        start ∷ xs,
        rw (more, add_ssize-eq start (pos s) fits, run) refl,
        cons-Items (λ j. start +ℤ pos j *ℤ pos s) (λ j. start +ℤ pos s +ℤ pos j *ℤ pos s)
            (λ x. ltb_ℤ x stop) start xs (first_step start (pos s)) (next_step start (pos s)) more
            items,
      )
  | inr no_more ↦ (
    [],
    rw no_more refl,
    nil-Items (λ j. start +ℤ pos j *ℤ pos s) (λ x. ltb_ℤ x stop)
        (λ j. no_more_up start stop s j no_more),
  )
]

down_loop_lem :
    (fuel : ℕ) (start stop : ℤ) (s : ℕ)
    → pos_part start + neg_part stop ≤ fuel + (pos_part stop + neg_part start)
    → IsInt64 start
    → IsInt64 (stop +ℤ negsuc s)
    → (xs : List ℤ) × (down_loop fuel start stop (negsuc s) ≡ ok xs)
      × Items (λ j. start +ℤ pos j *ℤ negsuc s) (λ x. ltb_ℤ stop x) xs
unfolding down_loop
down_loop_lem zero start stop s h hi lo =
    let no_more : ltb_ℤ stop start ≡ false = ground arith in
    (
      [],
      rw no_more refl,
      nil-Items (λ j. start +ℤ pos j *ℤ negsuc s) (λ x. ltb_ℤ stop x)
          (λ j. no_more_down start stop s j no_more),
    )
down_loop_lem (suc fuel) start stop s h hi lo = elim (Bool-cases (ltb_ℤ stop start)) [
  | inl more ↦
      let fits : IsInt64 (start +ℤ negsuc s) =
        between-IsInt64 (stop +ℤ negsuc s) (start +ℤ negsuc s) start
          (ground (arith, +ℤ_parts start (negsuc s), +ℤ_parts stop (negsuc s)))
          (omega (arith, +ℤ_parts start (negsuc s))) lo hi in
      let (xs, run, items) =
        down_loop_lem fuel (start +ℤ negsuc s) stop s (omega (arith, +ℤ_parts start (negsuc s)))
          fits lo in
      (
        start ∷ xs,
        rw (more, add_ssize-eq start (negsuc s) fits, run) refl,
        cons-Items (λ j. start +ℤ pos j *ℤ negsuc s) (λ j. start +ℤ negsuc s +ℤ pos j *ℤ negsuc s)
            (λ x. ltb_ℤ stop x) start xs (first_step start (negsuc s)) (next_step start (negsuc s))
            more items,
      )
  | inr no_more ↦ (
    [],
    rw no_more refl,
    nil-Items (λ j. start +ℤ pos j *ℤ negsuc s) (λ x. ltb_ℤ stop x)
        (λ j. no_more_down start stop s j no_more),
  )
]

-- Whether a loop with the step has not come to its stop at x.
abbrev pub goes_on : Computed → ℤ → Bool
goes_on c x = if ltb_ℤ (pos 0) c.step then ltb_ℤ x c.stop else ltb_ℤ c.stop x

-- For a step that is not 0, where the start and the sum of stop and step are int64_t numbers: the loop
-- over a slice ends, and its indices are exactly the numbers start, start + step, start + 2 * step
-- and so on, in this order, as long as they are below the stop or, for a negative step, above it.
pub slice_indices-Items :
    (c : Computed)
    → c.step ≢ pos 0
    → IsInt64 c.start
    → IsInt64 (c.stop +ℤ c.step)
    → (xs : List ℤ) × (slice_indices c ≡ ok xs)
      × ((j : ℕ)
          → get_elem? xs j ≡ (
              if goes_on c (c.start +ℤ pos j *ℤ c.step)
              then some (c.start +ℤ pos j *ℤ c.step)
              else none))
unfolding slice_indices
slice_indices-Items c some_step lo hi = go c.start c.stop c.step some_step lo hi
  where
    go :
        (start stop step : ℤ)
        → step ≢ pos 0
        → IsInt64 start
        → IsInt64 (stop +ℤ step)
        → (xs : List ℤ) × (slice_indices
              (record { start = start; stop = stop; step = step; items = c.items })
            ≡ ok xs)
          × Items
              (λ j. start +ℤ pos j *ℤ step)
              (goes_on (record { start = start; stop = stop; step = step; items = c.items }))
              xs
    go start stop (pos zero) some_step lo hi = absurd (some_step refl)
    go start stop (pos (suc s)) some_step lo hi =
        let up : ltb 0 (suc s + 0) ≡ true = ground arith in
        let not_down : ltb (suc s + 0) 0 ≡ false = ground arith in
        let (xs, run, items) =
          up_loop_lem (pos_part (stop -ℤ start)) start stop (suc s)
            (omega (arith, -ℤ_parts stop start)) (omega arith) lo hi in
        (xs, rw (up, not_down) run, λ j. rw up (items j))
    go start stop (negsuc s) some_step lo hi =
        let down : ltb 0 (0 + suc s) ≡ true = ground arith in
        let not_up : ltb (0 + suc s) 0 ≡ false = ground arith in
        let (xs, run, items) =
          down_loop_lem (pos_part (start -ℤ stop)) start stop s (omega (arith, -ℤ_parts start stop))
            lo hi in
        (xs, rw (down, not_up) run, λ j. rw not_up (items j))
