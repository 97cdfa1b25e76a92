-- ===== src/MockFhe/Copy.antt =====
-- `std::copy_n` into a vector, and a few copies that fill it.
use heu.Base.{
  ℕ, zero, suc, ◌+◌, ◌-◌, ◌<◌, ◌≤◌, ◌≡◌, ◌⊎◌, inl, inr, refl, sym, ap, ◌∙◌, List, [], ◌∷◌, ◌++◌,
  length, get_or, set, length-set, length-append, get_or-set_self, drop, length-drop, get_or-drop,
  get_or-set_ne, get_or-append_left, get_or-append_right, ext_get_or, arith,
}
use native.Mathlib.Decide.{dec_lt}

-- std::copy_n to the position `pos` of a vector that has the room.
unfoldable pub write_at : ℕ → List ℕ → List ℕ → List ℕ
write_at pos [] dst = dst
write_at pos (x ∷ src) dst = write_at (pos + 1) src (set dst pos x)

pub length-write_at : (pos : ℕ) (src dst : List ℕ) → length (write_at pos src dst) ≡ length dst
unfolding write_at
length-write_at pos [] dst = refl
length-write_at pos (x ∷ src) dst =
    length-write_at (pos + 1) src (set dst pos x) ∙ length-set dst pos x

-- A copy changes nothing before and behind it.
write_at_outside :
    (src dst : List ℕ) (pos j : ℕ)
    → (j < pos) ⊎ (pos + length src ≤ j)
    → get_or (write_at pos src dst) j 0 ≡ get_or dst j 0
unfolding write_at
write_at_outside [] dst pos j h = refl
write_at_outside (x ∷ src) dst pos j h =
    write_at_outside src (set dst pos x) (pos + 1) j (ground arith)
    ∙ get_or-set_ne dst pos j x 0 (ground arith)

-- Where it writes it puts the source.
write_at_inside :
    (src dst : List ℕ) (pos j : ℕ)
    → pos + length src ≤ length dst
    → j < length src
    → get_or (write_at pos src dst) (pos + j) 0 ≡ get_or src j 0
unfolding write_at
write_at_inside [] dst pos j h k = elim k [ ]
write_at_inside (x ∷ src) dst pos zero h k =
    let e : pos + 0 ≡ pos = omega arith in
    rw e (
      write_at_outside src (set dst pos x) (pos + 1) pos (inl (omega arith))
      ∙ get_or-set_self dst pos x 0 (omega arith))
write_at_inside (x ∷ src) dst pos (suc j) h k =
    let e : pos + suc j ≡ pos + 1 + j = omega arith in
    rw e (
      write_at_inside src (set dst pos x) (pos + 1) j (omega (arith, length-set dst pos x))
        (omega arith))

-- Two copies that fill the vector are their concatenation.
pub write_both :
    (xs ys dst : List ℕ)
    → length dst ≡ length xs + length ys
    → write_at (length xs) ys (write_at 0 xs dst) ≡ xs ++ ys
write_both xs ys dst size = ext_get_or _ _ 0 (len ∙ (size ∙ sym (length-append xs ys))) entry
  where
    len : length (write_at (length xs) ys (write_at 0 xs dst)) ≡ length dst
    len = length-write_at (length xs) ys (write_at 0 xs dst) ∙ length-write_at 0 xs dst

    entry :
        (i : ℕ)
        → i < length (write_at (length xs) ys (write_at 0 xs dst))
        → get_or (write_at (length xs) ys (write_at 0 xs dst)) i 0 ≡ get_or (xs ++ ys) i 0
    entry i lt = elim (dec_lt i (length xs)) [
      | yes p ↦
          let z : 0 + i ≡ i = omega arith in
          write_at_outside ys (write_at 0 xs dst) (length xs) i (inl p)
          ∙ (rw z at (write_at_inside xs dst 0 i (omega arith) p)
              ∙ sym (get_or-append_left xs ys i 0 p))
      | no p ↦
          let e : length xs + (i - length xs) ≡ i = omega arith in
          let there =
            write_at_inside ys (write_at 0 xs dst) (length xs) (i - length xs)
              (omega (arith, length-write_at 0 xs dst)) (omega (arith, len)) in
          rw e at (there ∙ sym (get_or-append_right xs ys (i - length xs) 0))
    ]

-- A copy to the front leaves the rest of the vector behind it.
pub write_front :
    (src dst : List ℕ) → length src ≤ length dst → write_at 0 src dst ≡ src ++ drop (length src) dst
write_front src dst room = ext_get_or _ _ 0 (len ∙ sym total) entry
  where
    len : length (write_at 0 src dst) ≡ length dst
    len = length-write_at 0 src dst

    total : length (src ++ drop (length src) dst) ≡ length dst
    total = omega (arith, length-append src (drop (length src) dst), length-drop (length src) dst)

    entry :
        (i : ℕ)
        → i < length (write_at 0 src dst)
        → get_or (write_at 0 src dst) i 0 ≡ get_or (src ++ drop (length src) dst) i 0
    entry i lt = elim (dec_lt i (length src)) [
      | yes p ↦
          let z : 0 + i ≡ i = omega arith in
          rw z at (write_at_inside src dst 0 i (omega arith) p)
          ∙ sym (get_or-append_left src (drop (length src) dst) i 0 p)
      | no p ↦
          let e : length src + (i - length src) ≡ i = omega arith in
          write_at_outside src dst 0 i (inr (omega arith))
          ∙ (ap (λ k. get_or dst k 0) (sym e)
              ∙ (sym (get_or-drop (length src) dst (i - length src) 0)
                  ∙ (sym (get_or-append_right src (drop (length src) dst) (i - length src) 0)
                      ∙ ap (λ k. get_or (src ++ drop (length src) dst) k 0) e)))
    ]
