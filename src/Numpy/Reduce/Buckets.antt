-- ===== src/Numpy/Reduce/Buckets.antt =====
-- What the sums by buckets compute.
use heu.Base.{
  ℕ, zero, suc, ◌+◌, ◌<◌, ◌≤◌, ◌≡◌, ◌≢◌, refl, sym, ap, ◌∙◌, inl, inr, List, [], ◌∷◌, length, set,
  length-set, replicate, length-replicate, ◌==◌, ==_refl, ==_ne, if◌then◌else◌, Bool-cases, ok,
  arith,
}
use native.Mathlib.Decide.{ℕ_discrete}
use heu.Numpy.Matrix.{Matrix, read, at}
use heu.Numpy.Reduce.{
  reduce_rest, parallel_reduce, bucket_loop, bucket_range, add_buckets, bucket_sums,
}
use heu.Numpy.Reduce.Sums.{total}

module _ {ℓ} {A : Type ℓ} where
  read-set_self : (xs : List A) (i : ℕ) (v : A) → i < length xs → read (set xs i v) i ≡ ok v
  unfolding read
  read-set_self [] i v h = absurd (omega arith)
  read-set_self (x ∷ xs) zero v h = refl
  read-set_self (x ∷ xs) (suc i) v h = read-set_self xs i v (omega arith)

  read-set_ne : (xs : List A) (i j : ℕ) (v : A) → i ≢ j → read (set xs i v) j ≡ read xs j
  unfolding read
  read-set_ne [] i j v h = refl
  read-set_ne (x ∷ xs) zero zero v h = absurd (h refl)
  read-set_ne (x ∷ xs) zero (suc j) v h = refl
  read-set_ne (x ∷ xs) (suc i) zero v h = refl
  read-set_ne (x ∷ xs) (suc i) (suc j) v h = read-set_ne xs i j v (λ e. h (ap suc e))

  read-replicate : (n i : ℕ) (v : A) → i < n → read (replicate n v) i ≡ ok v
  unfolding read
  read-replicate zero i v h = absurd (omega arith)
  read-replicate (suc n) zero v h = refl
  read-replicate (suc n) (suc i) v h = read-replicate n i v (omega arith)

module _ {ℓ} {A : Type ℓ} (add : A → A → A) where
  -- s plus each `f i` with `o i` equal to `b`, for `n` values of `i`.
  unfoldable pub collect : (ℕ → ℕ) → (ℕ → A) → ℕ → ℕ → ℕ → A → A
  collect o f b zero i s = s
  collect o f b (suc n) i s = collect o f b n (i + 1) (if o i == b then add s (f i) else s)

  collect-append :
      (o : ℕ → ℕ) (f : ℕ → A) (b m n i : ℕ) (s : A)
      → collect o f b n (i + m) (collect o f b m i s) ≡ collect o f b (m + n) i s
  unfolding collect
  collect-append o f b zero n i s =
      let e : i + 0 ≡ i = omega arith in let e' : 0 + n ≡ n = omega arith in rw (e, e') refl
  collect-append o f b (suc m) n i s =
      let e : i + suc m ≡ i + 1 + m = omega arith in
      let e' : suc m + n ≡ suc (m + n) = omega arith in
      rw (e, e') (collect-append o f b m n (i + 1) (if o i == b then add s (f i) else s))

  module _ (assoc : (a b c : A) → add (add a b) c ≡ add a (add b c)) where
    add-collect :
        (o : ℕ → ℕ) (f : ℕ → A) (b n i : ℕ) (s t : A)
        → add s (collect o f b n i t) ≡ collect o f b n i (add s t)
    unfolding collect
    add-collect o f b zero i s t = refl
    add-collect o f b (suc n) i s t = elim (Bool-cases (o i == b)) [
      | inl hit ↦ rw hit (
          add-collect o f b n (i + 1) s (add t (f i))
          ∙ ap (collect o f b n (i + 1)) (sym (assoc s t (f i))))
      | inr miss ↦ rw miss (add-collect o f b n (i + 1) s t)
    ]

-- The values of a vector with one entry for each bucket.
abbrev Values {ℓ} : {A : Type ℓ} → ℕ → (ℕ → A) → List A → Type ℓ
Values k v sums = (length sums ≡ k) × ((b : ℕ) → b < k → read sums b ≡ ok (v b))

module _ {ℓ} {A : Type ℓ} (add : A → A → A) (zero_of : A) where
  add_buckets_lem :
      (n j : ℕ) (xs ys : List A) (v w : ℕ → A)
      → ((t : ℕ) → t < j + n → read xs t ≡ ok (v t))
      → ((t : ℕ) → t < j + n → read ys t ≡ ok (w t))
      → (r : List A) × (add_buckets add zero_of n j xs ys ≡ ok r)
        × Values n (λ t. add (v (j + t)) (w (j + t))) r
  unfolding add_buckets
  add_buckets_lem zero j xs ys v w hx hy = ([], refl, (refl, λ b h. absurd (omega arith)))
  add_buckets_lem (suc n) j xs ys v w hx hy =
      let (r, run, (size, cells)) =
        add_buckets_lem n (j + 1) xs ys v w (λ t h. hx t (omega arith))
          (λ t h. hy t (omega arith)) in
      (
        add (v j) (w j) ∷ r,
        rw (hx j (omega arith), hy j (omega arith), run) refl,
        (ap suc size, entry r cells),
      )
    where
      entry :
          (r : List A)
          → ((b : ℕ) → b < n → read r b ≡ ok (add (v (j + 1 + b)) (w (j + 1 + b))))
          → (b : ℕ) → b < suc n
          → read (add (v j) (w j) ∷ r) b ≡ ok (add (v (j + b)) (w (j + b)))
      entry r cells zero h =
          let e : j ≡ j + 0 = omega arith in unfold read in (ap (λ k. ok (add (v k) (w k))) e)
      entry r cells (suc b) h =
          let e : j + 1 + b ≡ j + suc b = omega arith in
          unfold read in (cells b (omega arith) ∙ ap (λ k. ok (add (v k) (w k))) e)

  module _ (order_map : Matrix ℕ) (x : Matrix A) (k feature col : ℕ) (o : ℕ → ℕ) (f : ℕ → A)
      (ho : (i : ℕ) → i < x.rows → at order_map i feature ≡ ok (o i))
      (hx : (i : ℕ) → i < x.rows → at x i col ≡ ok (f i))
      (bounded : (i : ℕ) → i < x.rows → o i < k) where
    bucket_loop_lem :
        (n i : ℕ) (sums : List A) (v : ℕ → A)
        → i + n ≤ x.rows
        → Values k v sums
        → (r : List A) × (bucket_loop add zero_of order_map x feature col n i sums ≡ ok r)
          × Values k (λ b. collect add o f b n i (v b)) r
    unfolding bucket_loop collect
    bucket_loop_lem zero i sums v h vals = (sums, refl, vals)
    bucket_loop_lem (suc n) i sums v h (size, cells) =
        let lt : o i < k = bounded i (omega arith) in
        let sums' : List A = set sums (o i) (add (v (o i)) (f i)) in
        let vals : Values k (λ b. if o i == b then add (v b) (f i) else v b) sums' =
          (length-set sums (o i) _ ∙ size, λ b hb. entry b hb (ℕ_discrete (o i) b)) in
        let (r, run, good) = bucket_loop_lem n (i + 1) sums' _ (omega arith) vals in
        (r, rw (ho i (omega arith), hx i (omega arith), cells (o i) lt) run, good)
      where
        entry :
            (b : ℕ)
            → b < k
            → Dec (o i ≡ b)
            → read (set sums (o i) (add (v (o i)) (f i))) b
              ≡ ok (if o i == b then add (v b) (f i) else v b)
        entry b hb (yes e) =
            rw (← e, ==_refl (o i))
              (read-set_self sums (o i) _ (omega (arith, size, bounded i (omega arith))))
        entry b hb (no ne) = rw (==_ne (o i) b ne) (read-set_ne sums (o i) b _ ne ∙ cells b hb)

    bucket_range_lem :
        (beg n : ℕ)
        → beg + n ≤ x.rows
        → (r : List A) × (bucket_range add zero_of order_map x k feature col beg n ≡ ok r)
          × Values k (λ b. collect add o f b n beg zero_of) r
    unfolding bucket_range
    bucket_range_lem beg n h =
        bucket_loop_lem n beg (replicate k zero_of) (λ b. zero_of) h
          (length-replicate k zero_of, λ b hb. read-replicate k b zero_of hb)

    module _ (assoc : (a b c : A) → add (add a b) c ≡ add a (add b c))
        (add_zero : (a : A) → add a zero_of ≡ a) where
      -- The sums of the first `beg` rows, with those of the ranges behind them.
      reduce_rest_lem :
          (ns : List ℕ) (beg : ℕ) (sums : List A)
          → beg + total ns ≡ x.rows
          → Values k (λ b. collect add o f b beg 0 zero_of) sums
          → (r : List A) × (reduce_rest
                (add_buckets add zero_of k 0)
                (bucket_range add zero_of order_map x k feature col)
                ns
                beg
                sums
              ≡ ok r)
            × Values k (λ b. collect add o f b x.rows 0 zero_of) r
      unfolding reduce_rest total
      reduce_rest_lem [] beg sums h vals =
          let e : beg ≡ x.rows = omega arith in (sums, refl, rw e at vals)
      reduce_rest_lem (n ∷ ns) beg sums h (size, cells) =
          let (part, run, (psize, pcells)) = bucket_range_lem beg n (omega arith) in
          let (both, run', (bsize, bcells)) =
            add_buckets_lem k 0 sums part (λ b. collect add o f b beg 0 zero_of)
              (λ b. collect add o f b n beg zero_of) (λ b hb. cells b (omega arith))
              (λ b hb. pcells b (omega arith)) in
          let (r, runs, good) =
            reduce_rest_lem ns (beg + n) both (omega arith)
              (bsize, λ b hb. bcells b hb ∙ ap ok (joined b)) in
          (r, rw (run, run') runs, good)
        where
          joined :
              (b : ℕ)
              → add (collect add o f (0 + b) beg 0 zero_of) (collect add o f (0 + b) n beg zero_of)
                ≡ collect add o f b (beg + n) 0 zero_of
          joined b =
              let e : 0 + b ≡ b = omega arith in
              let e' : 0 + beg ≡ beg = omega arith in
              rw e (
                add-collect add assoc o f b n beg (collect add o f b beg 0 zero_of) zero_of
                ∙ (ap (collect add o f b n beg) (add_zero _)
                    ∙ (ap (λ i. collect add o f b n i (collect add o f b beg 0 zero_of)) (sym e')
                        ∙ collect-append add o f b beg n 0 zero_of)))

      -- Where the addition is associative and zero is neutral on its right, every way of cutting the
      -- rows into ranges gives, for each bucket, the sum of the column's elements that the
      -- order map puts into it.
      pub bucket_sums-collect :
          (ranges : List ℕ) (b : ℕ)
          → b < k
          → 0 < x.rows
          → total ranges ≡ x.rows
          → (sums : List A) × (bucket_sums add zero_of ranges order_map x k feature col ≡ ok sums)
            × (length sums ≡ k)
            × (read sums b ≡ ok (collect add o f b x.rows 0 zero_of))
      unfolding bucket_sums parallel_reduce total
      bucket_sums-collect [] b hb some_rows h = absurd (omega arith)
      bucket_sums-collect (n ∷ ns) b hb some_rows h =
          let (first, run, vals) = bucket_range_lem 0 n (omega arith) in
          let (r, runs, (size, cells)) = reduce_rest_lem ns n first h vals in
          (r, rw run runs, size, cells b hb)
