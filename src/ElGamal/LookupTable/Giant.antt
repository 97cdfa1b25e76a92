-- ===== src/ElGamal/LookupTable/Giant.antt =====
-- The giant steps of `Search`, beyond the points of the table.
use heu.Base.{
  ℕ, zero, suc, ◌+◌, ◌-◌, ◌*◌, ◌<◌, ◌≤◌, ◌≡◌, ap, ◌∙◌, Bool, true, false, some, none, ltb,
  if◌then◌else◌, ok, err, Bool-cases, inl, inr, arith,
}
use heu.Base.{too_big}
use heu.Base.Int.{ℤ, pos, negsuc, ◌+ℤ◌, ◌-ℤ◌, pos_part, neg_part}
use heu.ElGamal.LookupTable.{LookupTable, look_up, search_loop, search}

-- The table holds the multiples from 0 to `size` - 1 and nothing else within the window.
pub record Holds {P : Type 0} (t : LookupTable P) (size window : ℕ) : Type 0 where
  pub inside : (k : ℕ) → k < size → look_up t (t.curve.mul_base (pos k)) ≡ some (pos k)
  pub above : (k : ℕ) → size ≤ k → k ≤ window → look_up t (t.curve.mul_base (pos k)) ≡ none
  pub below : (k : ℕ) → k < window → look_up t (t.curve.mul_base (negsuc k)) ≡ none
  pub forth :
      (m : ℤ) → t.curve.add (t.curve.mul_base m) t.table_max_pos ≡ t.curve.mul_base (m +ℤ pos size)
  pub back :
      (m : ℤ) → t.curve.add (t.curve.mul_base m) t.table_max_neg ≡ t.curve.mul_base (m -ℤ pos size)

module _ {P : Type 0} (t : LookupTable P) (n size i : ℕ) (im_pos im_neg : P) where
  step_pos :
      (v : ℤ)
      → look_up t im_pos ≡ some v
      → search_loop t (suc n) size i im_pos im_neg ≡ ok (v +ℤ pos (i * size))
  unfolding search_loop
  step_pos v e = rw (e, search_loop)

  step_neg :
      (v : ℤ)
      → look_up t im_pos ≡ none
      → look_up t im_neg ≡ some v
      → search_loop t (suc n) size i im_pos im_neg ≡ ok (v -ℤ pos (i * size))
  unfolding search_loop
  step_neg v e f = rw (e, f, search_loop)

  step_next :
      look_up t im_pos ≡ none
      → look_up t im_neg ≡ none
      → search_loop t (suc n) size i im_pos im_neg
        ≡ search_loop t n size
            (i + 1)
            (t.curve.add im_pos t.table_max_neg)
            (t.curve.add im_neg t.table_max_pos)
  unfolding search_loop
  step_next e f = rw (e, f, search_loop)

  last_neg :
      (v : ℤ)
      → look_up t im_neg ≡ some v
      → search_loop t 0 size i im_pos im_neg ≡ ok (v -ℤ pos (i * size))
  unfolding search_loop
  last_neg v e = rw (e, search_loop)

  last_none : look_up t im_neg ≡ none → search_loop t 0 size i im_pos im_neg ≡ err too_big
  unfolding search_loop
  last_none e = rw (e, search_loop)

pos-sub : (a b : ℕ) → b ≤ a → pos a -ℤ pos b ≡ pos (a - b)
unfolding ◌-ℤ◌
pos-sub a b h = ground arith

pos-add : (a b : ℕ) → pos a +ℤ pos b ≡ pos (a + b)
unfolding ◌+ℤ◌
pos-add a b = ground arith

negsuc-sub : (a b : ℕ) → negsuc a -ℤ pos b ≡ negsuc (a + b)
unfolding ◌-ℤ◌
negsuc-sub a b = ground arith

negsuc-add : (a b : ℕ) → a < b → negsuc a +ℤ pos b ≡ pos (b - a - 1)
unfolding ◌+ℤ◌
negsuc-add a b h = ground arith

negsuc-add_below : (a b : ℕ) → b ≤ a → negsuc a +ℤ pos b ≡ negsuc (a - b)
unfolding ◌+ℤ◌
negsuc-add_below a b h = ground arith

add_further : (m : ℤ) (a b : ℕ) → m +ℤ pos a +ℤ pos b ≡ m +ℤ pos (a + b)
unfolding ◌+ℤ◌
add_further m a b = ground arith

pos_back : (a b : ℕ) → a < b → pos (b - a - 1) -ℤ pos b ≡ negsuc a
unfolding ◌-ℤ◌
pos_back a b h = ground arith

-- From -reach to reach - 1.
abbrev pub in_reach : ℕ → ℤ → Bool
in_reach reach (pos a) = ltb a reach
in_reach reach (negsuc a) = ltb a reach

module _ {P : Type 0} (t : LookupTable P) {size window : ℕ} (h : Holds t size window) where
  abbrev point : ℤ → P
  point m = t.curve.mul_base m

  -- From step `i` on, for a number that is not smaller than i * size.
  search_loop-pos :
      (n i a : ℕ)
      → size ≤ a
      → i * size ≤ a
      → a + (i + n) * size ≤ window
      → search_loop t n size i (point (pos (a - i * size))) (point (pos (a + i * size)))
        ≡ (if ltb a ((i + n) * size) then ok (pos a) else err too_big)
  search_loop-pos zero i a beyond from room =
      let m1 : (i + 0) * size ≡ i * size = omega arith in
      let no : ltb a ((i + 0) * size) ≡ false = ground arith in
      last_none t 0 size i _ _ (h.above (a + i * size) (omega arith) (omega arith)) ∙ rw no
  search_loop-pos (suc n) i a beyond from room =
      let m1 : (i + suc n) * size ≡ i * size + n * size + size = omega arith in
      let m2 : (i + 1 + n) * size ≡ (i + suc n) * size = omega arith in
      elim (Bool-cases (ltb (a - i * size) size)) [
        | inl near ↦
            let k : a - i * size < size = ground arith in
            let yes : ltb a ((i + suc n) * size) ≡ true = ground arith in
            step_pos t n size i _ _ _ (h.inside (a - i * size) k)
            ∙ rw (pos-add, yes) (ap (λ k. ok (pos k)) (omega arith))
        | inr far ↦
            let k : size ≤ a - i * size = ground arith in
            let e1 : a - i * size - size ≡ a - (i + 1) * size = omega arith in
            let e2 : a + i * size + size ≡ a + (i + 1) * size = omega arith in
            step_next t n size i _ _ (h.above (a - i * size) k (omega arith))
              (h.above (a + i * size) (omega arith) (omega arith))
            ∙ rw (h.back, h.forth, pos-sub _ _ k, pos-add, e1, e2, ← m2)
                (search_loop-pos n (i + 1) a beyond (omega arith) (omega arith))
      ]

  abbrev at_neg : ℕ → ℕ → P
  at_neg i a = point (negsuc a +ℤ pos (i * size))

  -- From step `i` on, for a number -(a + 1) that the steps before `i` did not bring above 0.
  search_loop-negsuc :
      (n i a : ℕ)
      → i * size ≤ a + size
      → a + (i + n) * size < window
      → search_loop t n size i (point (negsuc (a + i * size))) (point (negsuc a +ℤ pos (i * size)))
        ≡ (if ltb a ((i + n) * size) then ok (negsuc a) else err too_big)
  search_loop-negsuc zero i a from room =
      let m1 : (i + 0) * size ≡ i * size = omega arith in
      elim (Bool-cases (ltb a ((i + 0) * size))) [
        | inl near ↦
            let k : a < i * size = ground arith in
            last_neg t 0 size i _ (at_neg i a) (pos (i * size - a - 1))
              (rw (negsuc-add a (i * size) k) (h.inside (i * size - a - 1) (omega arith)))
            ∙ rw (near, pos_back a (i * size) k)
        | inr far ↦
            let k : i * size ≤ a = ground arith in
            last_none t 0 size i _ (at_neg i a)
              (rw (negsuc-add_below a (i * size) k) (h.below (a - i * size) (omega arith)))
            ∙ rw far
      ]
  search_loop-negsuc (suc n) i a from room =
      let m1 : (i + suc n) * size ≡ i * size + n * size + size = omega arith in
      let m2 : (i + 1 + n) * size ≡ (i + suc n) * size = omega arith in
      let m3 : i * size + size ≡ (i + 1) * size = omega arith in
      let high = h.below (a + i * size) (omega arith) in
      elim (Bool-cases (ltb a (i * size))) [
        | inl near ↦
            let k : a < i * size = ground arith in
            let yes : ltb a ((i + suc n) * size) ≡ true = ground arith in
            step_neg t n size i _ (at_neg i a) (pos (i * size - a - 1)) high
              (rw (negsuc-add a (i * size) k) (h.inside (i * size - a - 1) (omega arith)))
            ∙ rw (yes, pos_back a (i * size) k)
        | inr far ↦
            let k : i * size ≤ a = ground arith in
            let e : a + i * size + size ≡ a + (i + 1) * size = omega arith in
            step_next t n size i _ (at_neg i a) high
              (rw (negsuc-add_below a (i * size) k) (h.below (a - i * size) (omega arith)))
            ∙ rw (h.back, h.forth, negsuc-sub, add_further, e, m3, ← m2)
                (search_loop-negsuc n (i + 1) a (omega arith) (omega arith))
      ]

  -- `Search` gives back m from its multiple of the generator, for m from -steps * size
  -- to steps * size - 1, and fails on every other number of the window.
  pub search_all :
      (steps : ℕ) (m : ℤ)
      → 0 < size
      → 0 < steps
      → pos_part m + neg_part m + steps * size ≤ window
      → search t size steps (point m) ≡ (if in_reach (steps * size) m then ok m else err too_big)
  unfolding search
  search_all zero m some_points some_steps room = absurd (omega arith)
  search_all (suc steps) (pos a) some_points some_steps room = elim (Bool-cases (ltb a size)) [
    | inl near ↦
        let k : a < size = ground arith in
        let yes : ltb a (suc steps * size) ≡ true = ground arith in rw (h.inside a k, yes, search)
    | inr far ↦
        let k : size ≤ a = ground arith in
        let s1 : suc steps - 1 ≡ steps = omega arith in
        let e1 : a - size ≡ a - 1 * size = omega arith in
        let e2 : a + size ≡ a + 1 * size = omega arith in
        let m2 : suc steps * size ≡ (1 + steps) * size = omega arith in
        rw
          (
            h.above a k (omega arith),
            h.back,
            h.forth,
            pos-sub a size k,
            pos-add a size,
            e1,
            e2,
            m2,
            s1,
            search,
          )
          (search_loop-pos steps 1 a k (omega arith) (omega arith))
  ]
  search_all (suc steps) (negsuc a) some_points some_steps room =
      let s1 : suc steps - 1 ≡ steps = omega arith in
      let e1 : a + size ≡ a + 1 * size = omega arith in
      let e2 : size ≡ 1 * size = omega arith in
      let m2 : suc steps * size ≡ (1 + steps) * size = omega arith in
      let step = search_loop-negsuc steps 1 a (omega arith) (omega arith) in
      rw
        (
          h.below a (omega arith),
          h.back,
          h.forth,
          negsuc-sub a size,
          e1,
          ap (λ k. negsuc a +ℤ pos k) e2,
          m2,
          s1,
          search,
        )
        step
