-- ===== src/MockFhe/Galois/Rotation.antt =====
-- Rotations of the two rows, and that those of opposite steps cancel.
use heu.Base.{
  ℕ, suc, ◌+◌, ◌*◌, ◌-◌, ◌%◌, ◌^◌, ◌<◌, ◌≤◌, ◌≡◌, ◌⊎◌, inl, inr, refl, sym, ap, subst, ◌∙◌, true,
  List, length, get_or, replicate, length-replicate, ==_refl, lt→ltb, ok, arith,
}
use native.Mathlib.Decide.{dec_lt}
use native.Mathlib.Nat.{
  mod-add-mod, add-mod_right, mul-suc, mod-eq_of_lt, mod-eq-sub-mod, add-mul-mod_self_left,
  dvd-mul_right, mod-mod_of_dvd, mod-lt,
}
use Prim.Native.Nat.{◌∣◌}
use heu.Base.Words.{u64}
use heu.MockFhe.Objects.{MockObj}
use heu.MockFhe.Evaluator.{Evaluator}
use heu.MockFhe.Degree.{IsBuilt, IsBuilt-rows}
use heu.MockFhe.Slots.{Progress, slots-Progress, ext_slots}
use heu.MockFhe.Galois.{Steps, left, right, abs_steps, new_loc, rotate_array, rotate}

-- The row is turned by `forward` entries to the right, and entry `j` comes from `back` behind it.
abbrev forward : ℕ → Steps → ℕ
forward half (left n) = half - n
forward half (right n) = n

abbrev back : ℕ → Steps → ℕ
back half (left n) = n
back half (right n) = half - n

-- The slot whose entry a rotation moves to slot `j`.
abbrev pub source : ℕ → Steps → ℕ → ℕ
source half steps j = (j + back half steps) % half

turn_cases :
    (half i t : ℕ)
    → i < half
    → t ≤ half
    → (((i + t) % half ≡ i + t) × (i + t < half))
      ⊎ (((i + t) % half + half ≡ i + t) × (half ≤ i + t))
turn_cases half i t h k = elim (dec_lt (i + t) half) [
  | yes p ↦ inl (mod-eq_of_lt p, p)
  | no p ↦
      let under : half ≤ i + t = omega arith in
      let small : i + t - half < half = omega arith in
      inr (omega (arith, mod-eq-sub-mod under, mod-eq_of_lt small), under)
]

turn-lt : (half i t : ℕ) → i < half → (i + t) % half < half
turn-lt half i t h = mod-lt (i + t) (omega arith)

-- Turning by `t` and by the rest of the row is no turn.
turn_back : (half i s t : ℕ) → i < half → s + t ≡ half → ((i + s) % half + t) % half ≡ i
turn_back half i s t h e =
    mod-add-mod (i + s) half t ∙ (ap (λ k. k % half) sum ∙ (add-mod_right i half ∙ mod-eq_of_lt h))
  where
    sum : i + s + t ≡ i + half
    sum = omega arith

wrap :
    (half i n w q : ℕ)
    → w ≡ half * suc q
    → n < half
    → (i + (w - n)) % half ≡ (i + (half - n)) % half
wrap half i n w q e h = ap (λ k. k % half) shifted ∙ add-mul-mod_self_left (i + (half - n)) half q
  where
    shifted : i + (w - n) ≡ i + (half - n) + half * q
    shifted = omega (arith, mul-suc half q)

forward-le : (half : ℕ) (steps : Steps) → abs_steps steps < half → forward half steps ≤ half
forward-le half (left n) h = omega arith
forward-le half (right n) h = omega arith

back-add-forward :
    (half : ℕ) (steps : Steps)
    → abs_steps steps < half
    → back half steps + forward half steps ≡ half
back-add-forward half (left n) h = omega arith
back-add-forward half (right n) h = omega arith

-- The row length divides 2 ^ 64.
module _ (half q : ℕ) (fits : u64 ≡ half * suc q) where
  -- The difference in size_t wraps at a multiple of the row, so the remainder is not disturbed.
  pub new_loc_lem :
      (i : ℕ) (steps : Steps)
      → abs_steps steps < half
      → new_loc half i steps ≡ (i + forward half steps) % half
  unfolding new_loc
  new_loc_lem i (right n) k =
      mod-mod_of_dvd half (i + n) (subst (◌∣◌ half) (sym fits) (dvd-mul_right half (suc q)))
  new_loc_lem i (left n) k =
      mod-mod_of_dvd half (i + (u64 - n)) (subst (◌∣◌ half) (sym fits) (dvd-mul_right half (suc q)))
      ∙ wrap half i n u64 q fits k

  module _ (steps : Steps) (small : abs_steps steps < half) where
    loc-lt : (i : ℕ) → i < half → new_loc half i steps < half
    loc-lt i h = rw (new_loc_lem i steps small) (turn-lt half i (forward half steps) h)

    -- Where the loop writes and what slot `j` receives are inverse.
    source_loc : (i : ℕ) → i < half → source half steps (new_loc half i steps) ≡ i
    source_loc i h = rw (new_loc_lem i steps small) (
        turn_back half i (forward half steps) (back half steps) h
          (omega (arith, back-add-forward half steps small)))

    loc_source : (j : ℕ) → j < half → new_loc half (source half steps j) steps ≡ j
    loc_source j h =
        new_loc_lem (source half steps j) steps small
        ∙ turn_back half j (back half steps) (forward half steps) h
            (back-add-forward half steps small)

    loc-injective :
        (i j : ℕ) → i < half → j < half → new_loc half i steps ≡ new_loc half j steps → i ≡ j
    loc-injective i j h k e = sym (source_loc i h) ∙ (ap (source half steps) e ∙ source_loc j k)

    pub rotate_array_slots :
        (a out : List ℕ)
        → length out ≡ 2 * half
        → (length (rotate_array half steps a out) ≡ 2 * half)
          × ((j : ℕ)
              → j < half
              → (get_or (rotate_array half steps a out) j 0 ≡ get_or a (source half steps j) 0)
                × (get_or (rotate_array half steps a out) (j + half) 0
                    ≡ get_or a (source half steps j + half) 0))
    unfolding rotate_array
    rotate_array_slots a out size = (p.size ∙ size, slot)
      where
        p :
            Progress half
              (λ i. new_loc half i steps)
              (λ i. get_or a i 0)
              (λ i. get_or a (i + half) 0)
              out
              half
              (rotate_array half steps a out)
        p =
            slots-Progress half out (omega arith) (λ i. new_loc half i steps) (λ i. get_or a i 0)
              (λ i. get_or a (i + half) 0) (λ i s. get_or a i 0) (λ i s. get_or a (i + half) 0)
              loc-lt loc-injective (λ i s h q. refl) (λ i s h q. refl)

        slot :
            (j : ℕ)
            → j < half
            → (get_or (rotate_array half steps a out) j 0 ≡ get_or a (source half steps j) 0)
              × (get_or (rotate_array half steps a out) (j + half) 0
                  ≡ get_or a (source half steps j + half) 0)
        slot j h =
            let here = p.done (source half steps j) (turn-lt half j (back half steps) h) in
            rw (loc_source j h) at here

abbrev pub opposite : Steps → Steps
opposite (left n) = right n
opposite (right n) = left n

source-opposite :
    (half : ℕ) (steps : Steps) (j : ℕ)
    → abs_steps steps < half
    → j < half
    → source half steps (source half (opposite steps) j) ≡ j
source-opposite half (left n) j h k = turn_back half j (half - n) n k (omega arith)
source-opposite half (right n) j h k = turn_back half j n (half - n) k (omega arith)

module _ {F : Type 0} (e : Evaluator) (w : IsBuilt e) (small : e.poly_degree < 2 ^ 64) where
  rotate_slots :
      (steps : Steps) (a : MockObj F)
      → e.glk ≡ true
      → length a.array ≡ e.poly_degree
      → abs_steps steps < e.half_degree
      → (r : MockObj F) × (rotate e steps a ≡ ok r)
        × (r.scale ≡ a.scale)
        × (length r.array ≡ e.poly_degree)
        × ((j : ℕ)
            → j < e.half_degree
            → (get_or r.array j 0 ≡ get_or a.array (source e.half_degree steps j) 0)
              × (get_or r.array (j + e.half_degree) 0
                  ≡ get_or a.array (source e.half_degree steps j + e.half_degree) 0))
  unfolding rotate
  rotate_slots steps a key size h =
      let (rows, q, fits) = IsBuilt-rows e w (omega arith) small in
      let zeros : List ℕ = replicate e.poly_degree 0 in
      let (len, slots) =
        rotate_array_slots e.half_degree q fits steps h a.array zeros
          (length-replicate e.poly_degree 0 ∙ rows) in
      (
        record { array = rotate_array e.half_degree steps a.array zeros; scale = a.scale },
        simp (key, size, ==_refl, lt→ltb _ _ h) refl,
        refl,
        len ∙ sym rows,
        slots,
      )

  -- On an evaluator that the constructor built, of a degree below 2 ^ 64, with the Galois key, a
  -- full vector and fewer steps than the row is long, `Rotate` succeeds; it keeps the size and the
  -- scale, and slot `j` of both rows is filled from slot `j + steps` of its row, counted
  -- cyclically, to the left for positive steps.
  pub rotate_slot :
      (steps : Steps) (a : MockObj F) (j : ℕ)
      → e.glk ≡ true
      → length a.array ≡ e.poly_degree
      → abs_steps steps < e.half_degree
      → j < e.half_degree
      → (r : MockObj F) × (rotate e steps a ≡ ok r)
        × (r.scale ≡ a.scale)
        × (length r.array ≡ e.poly_degree)
        × (get_or r.array j 0 ≡ get_or a.array (source e.half_degree steps j) 0)
        × (get_or r.array (j + e.half_degree) 0
            ≡ get_or a.array (source e.half_degree steps j + e.half_degree) 0)
  rotate_slot steps a j key size h lt =
      let (r, run, scale, len, slots) = rotate_slots steps a key size h in
      (r, run, scale, len, (slots j lt).0, (slots j lt).1)

  -- On an evaluator that the constructor built, of a degree below 2 ^ 64 and with the Galois key,
  -- rotating a full vector by fewer steps than the row is long and then by the opposite steps
  -- gives the vector back, scale included.
  pub rotate-rotate-opposite :
      (steps : Steps) (a : MockObj F)
      → e.glk ≡ true
      → length a.array ≡ e.poly_degree
      → abs_steps steps < e.half_degree
      → (r : MockObj F) × (rotate e steps a ≡ ok r) × (rotate e (opposite steps) r ≡ ok a)
  rotate-rotate-opposite steps a key size h =
      let (rows, q, fits) = IsBuilt-rows e w (omega arith) small in
      let (r, run, scale, len, slots) = rotate_slots steps a key size h in
      let k : abs_steps (opposite steps) < e.half_degree = rw (abs_opposite steps) h in
      let (t, again, scale', len', slots') = rotate_slots (opposite steps) r key len k in
      let same : t.array ≡ a.array =
        ext_slots e.half_degree t.array a.array (len' ∙ rows) (size ∙ rows) λ j lt.
          let back = source-opposite e.half_degree steps j h lt in
          let mid =
            slots (source e.half_degree (opposite steps) j) (turn-lt e.half_degree j _ lt) in
          let out = slots' j lt in
          (
            out.0 ∙ (mid.0 ∙ ap (λ i. get_or a.array i 0) back),
            out.1 ∙ (mid.1 ∙ ap (λ i. get_or a.array (i + e.half_degree) 0) back),
          ) in
      (r, run, again ∙ ap ok (λ i. record { array = same i; scale = (scale' ∙ scale) i }))
    where
      abs_opposite : (s : Steps) → abs_steps (opposite s) ≡ abs_steps s
      abs_opposite (left n) = refl
      abs_opposite (right n) = refl
