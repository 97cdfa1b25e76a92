-- ===== src/MockFhe/Galois/Rows.antt =====
-- `SwapRows`, `Conjugate` and their in-place forms.
use heu.Base.{
  ℕ, ◌+◌, ◌*◌, ◌<◌, ◌≤◌, ◌≡◌, sym, ap, ◌∙◌, true, List, ◌++◌, map, length, get_or, take, drop,
  replicate, length-replicate, length-map, length-take, length-drop, length-append,
  take-append-drop, get_or-append_left, get_or-append_right, get_or-drop, get_or-take, take_all,
  take-append, drop-append, ap₂, ==_refl, le→leb, ok, for_range, arith,
}
use heu.Base.Words.{neg64}
use heu.MockFhe.Objects.{Double, MockObj}
use heu.MockFhe.Evaluator.{Evaluator, is_bfv, is_ckks}
use heu.MockFhe.Copy.{write_at, write_both}
use heu.MockFhe.Slots.{Progress, slots-Progress, ext_slots}
use heu.MockFhe.Galois.{swap_rows, swap_entries, swap_rows_inplace, conjugate, conjugate_inplace}

-- The second row before the first.
abbrev pub swap_halves : ℕ → List ℕ → List ℕ
swap_halves half a = drop half a ++ take half a

module _ (half : ℕ) (a : List ℕ) (size : length a ≡ 2 * half) where
  length_rows : (length (take half a) ≡ half) × (length (drop half a) ≡ half)
  length_rows = (omega (arith, length-take half a), omega (arith, length-drop half a))

  length-swapped : length (swap_halves half a) ≡ 2 * half
  length-swapped = omega (arith, length-append (drop half a) (take half a), length_rows)

  swapped_slots :
      (j : ℕ)
      → j < half
      → (get_or (swap_halves half a) j 0 ≡ get_or a (j + half) 0)
        × (get_or (swap_halves half a) (j + half) 0 ≡ get_or a j 0)
  swapped_slots j h =
      let first : half + j ≡ j + half = omega arith in
      let second : length (drop half a) + j ≡ j + half = omega (arith, length_rows) in
      (
        get_or-append_left (drop half a) (take half a) j 0 (omega (arith, length_rows))
            ∙ (get_or-drop half a j 0 ∙ ap (λ k. get_or a k 0) first),
        ap (λ k. get_or (swap_halves half a) k 0) (sym second)
            ∙ (get_or-append_right (drop half a) (take half a) j 0 ∙ get_or-take half a j 0 h),
      )

  swap_writes :
      (n : ℕ)
      → n ≡ 2 * half
      → write_at half (take half a) (write_at 0 (take half (drop half a)) (replicate n 0))
        ≡ (swap_halves half a)
  swap_writes n e =
      let (front, rear) = length_rows in
      ap (λ t. write_at half (take half a) (write_at 0 t (replicate n 0)))
        (take_all half (drop half a) (omega arith))
      ∙ (ap (λ k. write_at k (take half a) (write_at 0 (drop half a) (replicate n 0))) (sym rear)
          ∙ write_both (drop half a) (take half a) (replicate n 0)
              (omega (arith, length-replicate {A = ℕ} n 0)))

  swap_loop : for_range half 0 (λ i s. swap_entries half i s) a ≡ (swap_halves half a)
  swap_loop = ext_slots half _ _ (p.size ∙ size) length-swapped λ j h.
      let done = p.done j h in
      let spec = swapped_slots j h in (done.0 ∙ sym spec.0, done.1 ∙ sym spec.1)
    where
      p :
          Progress half
            (λ i. i)
            (λ i. get_or a (i + half) 0)
            (λ i. get_or a i 0)
            a
            half
            (for_range half 0 (λ i s. swap_entries half i s) a)
      p =
          slots-Progress half a (omega arith) (λ i. i) (λ i. get_or a (i + half) 0)
            (λ i. get_or a i 0) (λ i s. get_or s (i + half) 0) (λ i s. get_or s i 0) (λ i h. h)
            (λ i j h k e. e) (λ i s h q. (q.left i h (λ j k. omega arith)).1)
            (λ i s h q. (q.left i h (λ j k. omega arith)).0)

  swap_halves_twice : swap_halves half (swap_halves half a) ≡ a
  swap_halves_twice =
      let (front, rear) = length_rows in
      ap₂ ◌++◌
        (ap (λ k. drop k (swap_halves half a)) (sym rear) ∙ drop-append (drop half a) (take half a))
        (ap (λ k. take k (swap_halves half a)) (sym rear) ∙ take-append (drop half a) (take half a))
      ∙ take-append-drop half a

  conjugate_writes :
      (n : ℕ)
      → n ≡ 2 * half
      → write_at half (map neg64 (drop half a)) (write_at 0 (take half a) (replicate n 0))
        ≡ take half a ++ map neg64 (drop half a)
  conjugate_writes n e =
      let (front, rear) = length_rows in
      ap (λ k. write_at k (map neg64 (drop half a)) (write_at 0 (take half a) (replicate n 0)))
        (sym front)
      ∙ write_both (take half a) (map neg64 (drop half a)) (replicate n 0)
          (omega (arith, length-replicate {A = ℕ} n 0, length-map neg64 (drop half a)))

-- An evaluator whose vectors are two full rows.
abbrev pub HasRows : Evaluator → Type 0
HasRows e = e.poly_degree ≡ 2 * e.half_degree

module _ {F : Type 0} (d : Double F) (e : Evaluator) (rows : HasRows e) where
  -- For BFV with the Galois key, a degree of two rows and a full vector, `SwapRows` and
  -- `SwapRowsInplace` both succeed and leave the second row before the first; only the in-place
  -- form keeps the scale.
  pub swap_rows-swap_rows_inplace :
      (a : MockObj F)
      → is_bfv e.schema ≡ true
      → e.glk ≡ true
      → length a.array ≡ e.poly_degree
      → (swap_rows d e a ≡ ok (record { array = swap_halves e.half_degree a.array; scale = d.one }))
        × (swap_rows_inplace e a
            ≡ ok (record { array = swap_halves e.half_degree a.array; scale = a.scale }))
  unfolding swap_rows swap_rows_inplace
  swap_rows-swap_rows_inplace a bfv key size = (
    simp (bfv, key, size, ==_refl)
        (ap (λ s. ok (record { array = s; scale = d.one }))
          (swap_writes e.half_degree a.array (size ∙ rows) e.poly_degree rows)),
    simp (bfv, key, size, ==_refl)
        (ap (λ s. ok (record { array = s; scale = a.scale }))
          (swap_loop e.half_degree a.array (size ∙ rows))),
  )

  -- For BFV with the Galois key, swapping the rows of a full vector of two rows in place twice
  -- gives the vector back, scale included.
  pub swap_rows_inplace_twice :
      (a : MockObj F)
      → is_bfv e.schema ≡ true
      → e.glk ≡ true
      → length a.array ≡ e.poly_degree
      → (r : MockObj F) × (swap_rows_inplace e a ≡ ok r) × (swap_rows_inplace e r ≡ ok a)
  swap_rows_inplace_twice a bfv key size =
      let full : length a.array ≡ 2 * e.half_degree = size ∙ rows in
      let r : MockObj F = record { array = swap_halves e.half_degree a.array; scale = a.scale } in
      (
        r,
        (swap_rows-swap_rows_inplace a bfv key size).1,
        (swap_rows-swap_rows_inplace r bfv key
              (length-swapped e.half_degree a.array full ∙ sym rows)).1
            ∙ ap (λ s. ok (record { array = s; scale = a.scale }))
                (swap_halves_twice e.half_degree a.array full),
      )

  -- With CKKS, a degree of two rows and a full vector, where the checks of `ConjugateInplace`
  -- pass, `Conjugate` gives the same result.
  pub conjugate-conjugate_inplace :
      (a : MockObj F)
      → is_ckks e.schema ≡ true
      → length a.array ≡ e.poly_degree
      → conjugate e a ≡ conjugate_inplace e a
  unfolding conjugate conjugate_inplace
  conjugate-conjugate_inplace a ckks size =
      let full : length a.array ≡ 2 * e.half_degree = size ∙ rows in
      let room : e.half_degree ≤ e.poly_degree = omega arith in
      simp (ckks, size, ==_refl, le→leb e.half_degree e.poly_degree room)
        (ap (λ s. ok (record { array = s; scale = a.scale }))
          (conjugate_writes e.half_degree a.array full e.poly_degree rows))
