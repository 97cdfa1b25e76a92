-- ===== src/Numpy/Reduce/Sums.antt =====
-- What the sums over ranges compute.
use heu.Base.{
  ℕ, zero, suc, ◌+◌, ◌-◌, ◌*◌, ◌<◌, ◌≤◌, ◌≡◌, refl, sym, ap, ◌∙◌, List, [], ◌∷◌, ◌++◌, length, take,
  drop, take-append-drop, drop_end, drop-drop, lt→ltb, Result, ok, err, arith,
}
use heu.Base.{empty_tensor}
use heu.Numpy.Matrix.{Matrix, read}
use heu.Numpy.Tabulate.{IsValid, position-lt}
use heu.Numpy.Reduce.{reduce_rest, parallel_reduce, sum_loop, sum_range, sum}

-- The ranges are not empty.
abbrev pub Positive : List ℕ → Type 0
Positive [] = Unit {0}
Positive (n ∷ ns) = (0 < n) × Positive ns

unfoldable pub total : List ℕ → ℕ
total [] = 0
total (n ∷ ns) = n + total ns

module _ {ℓ} {A : Type ℓ} where
  read-drop :
      (xs : List A) (i : ℕ)
      → i < length xs
      → (a : A) × (read xs i ≡ ok a) × (drop i xs ≡ a ∷ drop (i + 1) xs)
  unfolding read
  read-drop [] i h = absurd (omega arith)
  read-drop (x ∷ xs) zero h = (x, refl, refl)
  read-drop (x ∷ xs) (suc i) h =
      let (a, r, d) = read-drop xs i (omega arith) in
      let e : suc (i + 1) ≡ suc i + 1 = omega arith in (a, r, d ∙ ap (λ k. a ∷ drop k (x ∷ xs)) e)

module _ {ℓ} {A : Type ℓ} (add : A → A → A) where
  -- From the left.
  pub fold : A → List A → A
  fold s [] = s
  fold s (a ∷ xs) = fold (add s a) xs

  unfoldable pub sum_all : List A → Result A
  sum_all [] = err empty_tensor
  sum_all (a ∷ xs) = ok (fold a xs)

  fold-append : (s : A) (xs bs : List A) → fold s (xs ++ bs) ≡ fold (fold s xs) bs
  unfolding fold
  fold-append s [] bs = refl
  fold-append s (a ∷ xs) bs = fold-append (add s a) xs bs

  sum_loop-fold :
      (buf : List A) (n i : ℕ) (s : A)
      → i + n ≤ length buf
      → sum_loop add buf n i s ≡ ok (fold s (take n (drop i buf)))
  unfolding sum_loop fold
  sum_loop-fold buf zero i s h = refl
  sum_loop-fold buf (suc n) i s h =
      let (a, r, d) = read-drop buf i (omega arith) in
      rw (r, d) (sum_loop-fold buf n (i + 1) (add s a) (omega arith))

  module _ (assoc : (a b c : A) → add (add a b) c ≡ add a (add b c)) where
    add-fold : (s a : A) (xs : List A) → add s (fold a xs) ≡ fold (add s a) xs
    unfolding fold
    add-fold s a [] = refl
    add-fold s a (b ∷ xs) = add-fold s (add a b) xs ∙ ap (λ t. fold t xs) (sym (assoc s a b))

    range_fold :
        (buf : List A) (beg n : ℕ) (s : A)
        → 0 < n
        → beg + n ≤ length buf
        → (p : A) × (sum_range add buf beg n ≡ ok p) × (add s p ≡ fold s (take n (drop beg buf)))
    unfolding sum_range fold
    range_fold buf beg zero s pos h = absurd (omega arith)
    range_fold buf beg (suc n) s pos h =
        let (a, r, d) = read-drop buf beg (omega arith) in
        let e : suc n - 1 ≡ n = omega arith in
        (
          fold a (take n (drop (beg + 1) buf)),
          rw (r, e) (sum_loop-fold buf n (beg + 1) a (omega arith)),
          rw d (add-fold s a (take n (drop (beg + 1) buf))),
        )

    rest_fold :
        (buf : List A) (ns : List ℕ) (beg : ℕ) (s : A)
        → Positive ns
        → beg + total ns ≡ length buf
        → reduce_rest (λ a b. ok (add a b)) (sum_range add buf) ns beg s
          ≡ ok (fold s (drop beg buf))
    unfolding reduce_rest total fold
    rest_fold buf [] beg s p h = rw (drop_end buf beg (omega arith)) refl
    rest_fold buf (n ∷ ns) beg s p h =
        let (q, run, e) = range_fold buf beg n s p.0 (omega arith) in
        rw (run, e)
          (rest_fold buf ns (beg + n) _ p.1 (omega arith)
            ∙ ap ok (
                ap (fold (fold s (take n (drop beg buf)))) (sym (drop-drop beg n buf))
                ∙ (sym (fold-append s (take n (drop beg buf)) (drop n (drop beg buf)))
                    ∙ ap (fold s) (take-append-drop n (drop beg buf)))))

    whole_fold :
        (buf : List A) (n : ℕ) (ns : List ℕ)
        → 0 < n
        → Positive ns
        → n + total ns ≡ length buf
        → parallel_reduce (λ a b. ok (add a b)) (sum_range add buf) (n ∷ ns) ≡ sum_all buf
    unfolding parallel_reduce sum_range read sum_all total fold
    whole_fold [] n ns pos p h = absurd (omega arith)
    whole_fold (a ∷ xs) zero ns pos p h = absurd (omega arith)
    whole_fold (a ∷ xs) (suc n) ns pos p h =
        let e : suc n - 1 ≡ n = omega arith in
        rw (e, sum_loop-fold (a ∷ xs) n 1 a (omega arith))
          (rest_fold (a ∷ xs) ns (suc n) (fold a (take n xs)) p (omega arith)
            ∙ ap ok
                (sym (fold-append a (take n xs) (drop n xs)) ∙ ap (fold a) (take-append-drop n xs)))

    -- Where the addition is associative, the sum of a valid matrix that is not empty is the sum of its
    -- buffer from the left, for every way of cutting the buffer into ranges that are not empty.
    pub sum-sum_all :
        (ranges : List ℕ) (x : Matrix A)
        → IsValid x
        → (0 < x.rows) × (0 < x.cols)
        → Positive ranges
        → total ranges ≡ x.rows * x.cols
        → sum add ranges x ≡ sum_all x.buffer
    unfolding sum sum_all total
    sum-sum_all ranges x v (pr, pc) p h =
        rw (lt→ltb 0 x.cols pc, lt→ltb 0 x.rows pr) (cover ranges p (h ∙ sym v.filled))
      where
        filled : 0 < length x.buffer
        filled =
            let some_place : 0 * x.rows + 0 < x.rows * x.cols =
              position-lt x.rows x.cols 0 0 pr pc in
            rw v.filled (omega arith)

        cover :
            (ns : List ℕ)
            → Positive ns
            → total ns ≡ length x.buffer
            → parallel_reduce (λ a b. ok (add a b)) (sum_range add x.buffer) ns ≡ sum_all x.buffer
        cover [] p h = absurd (omega (arith, filled))
        cover (n ∷ ns) p h = whole_fold x.buffer n ns p.0 p.1 h
