-- ===== src/Numpy/Reduce.antt =====
-- numpy/evaluator.cc: sums. The elements are added by `add`. `yacl::parallel_reduce` is given by the
-- lengths of the consecutive ranges that it hands out: it applies the body to each and combines the
-- results from the left, in their order.
pub mod Sums
pub mod Buckets
use heu.Base.{
  ℕ, zero, suc, ◌+◌, ◌-◌, ◌*◌, Bool, ◌&&◌, ◌||◌, List, [], ◌∷◌, length, set, replicate, ◌==◌, ltb,
  leb, if◌then◌else◌, Result, ok, err, enforce, ◌>>=◌, ◌>>◌,
}
use heu.Base.{Error, empty_tensor, shape_error, out_of_range}
use heu.Numpy.Matrix.{Matrix, read, at}

module _ {ℓ} {S : Type ℓ} (combine : S → S → Result S) (body : ℕ → ℕ → Result S) where
  -- The ranges behind the first one, from `beg` on.
  unfoldable pub reduce_rest : List ℕ → ℕ → S → Result S
  reduce_rest [] beg sum = ok sum
  reduce_rest (n ∷ ns) beg sum = do
    part ← body beg n
    sum' ← combine sum part
    reduce_rest ns (beg + n) sum'

  -- `body beg n` is for the range of `n` positions from `beg` on.
  unfoldable pub parallel_reduce : List ℕ → Result S
  unfolding reduce_rest
  parallel_reduce [] = err empty_tensor
  parallel_reduce (n ∷ ns) = do first ← body 0 n; reduce_rest ns n first

module _ {ℓ} {A : Type ℓ} (add : A → A → A) where
  -- for (i = beg + 1; i < end; ++i), with `n` rounds to go.
  unfoldable pub sum_loop : List A → ℕ → ℕ → A → Result A
  unfolding read
  sum_loop buf zero i sum = ok sum
  sum_loop buf (suc n) i sum = do a ← read buf i; sum_loop buf n (i + 1) (add sum a)

  unfoldable pub sum_range : List A → ℕ → ℕ → Result A
  unfolding sum_loop read
  sum_range buf beg n = do sum ← read buf beg; sum_loop buf (n - 1) (beg + 1) sum

  unfoldable pub sum : List ℕ → Matrix A → Result A
  unfolding parallel_reduce sum_range
  sum ranges x = do
    enforce (ltb 0 x.cols && ltb 0 x.rows) empty_tensor
    parallel_reduce (λ a b. ok (add a b)) (sum_range x.buffer) ranges

module _ {ℓ} {A : Type ℓ} (add : A → A → A) (zero_of : A) where
  -- sums[order_map(i, feature)] += x(i, col), with `n` rounds to go; the entries of the order map are
  -- the indices that its numbers are converted to.
  unfoldable pub bucket_loop : Matrix ℕ → Matrix A → ℕ → ℕ → ℕ → ℕ → List A → Result (List A)
  unfolding read at
  bucket_loop order_map x feature col zero i sums = ok sums
  bucket_loop order_map x feature col (suc n) i sums = do
    bucket ← at order_map i feature
    a ← at x i col
    s ← read sums bucket
    bucket_loop order_map x feature col n (i + 1) (set sums bucket (add s a))

  unfoldable pub bucket_range : Matrix ℕ → Matrix A → ℕ → ℕ → ℕ → ℕ → ℕ → Result (List A)
  unfolding bucket_loop
  bucket_range order_map x bucket_num feature col beg n =
      bucket_loop order_map x feature col n beg (replicate bucket_num zero_of)

  -- result[j] = a[j] + b[j] for the first `n` entries, from entry `j` on.
  unfoldable pub add_buckets : ℕ → ℕ → List A → List A → Result (List A)
  unfolding read
  add_buckets zero j a b = ok []
  add_buckets (suc n) j a b = do
    s ← read a j
    t ← read b j
    rest ← add_buckets n (j + 1) a b
    ok (add s t ∷ rest)

  unfoldable pub bucket_sums : List ℕ → Matrix ℕ → Matrix A → ℕ → ℕ → ℕ → Result (List A)
  unfolding parallel_reduce bucket_range add_buckets
  bucket_sums ranges order_map x bucket_num feature col =
      parallel_reduce (add_buckets bucket_num 0) (bucket_range order_map x bucket_num feature col)
        ranges

  -- cache_sum += bucket_sums[i], from the front.
  unfoldable pub cumulate : A → List A → List A
  cumulate cache_sum [] = []
  cumulate cache_sum (s ∷ sums) = add cache_sum s ∷ cumulate (add cache_sum s) sums

  -- res(i + start_offset, col) = values[i].
  unfoldable pub write_column : Matrix A → ℕ → ℕ → List A → Result (Matrix A)
  write_column res row col [] = ok res
  write_column res row col (v ∷ vs) = do
    enforce (ltb row res.rows && ltb col res.cols) out_of_range
    write_column (record res { buffer = set res.buffer (col * res.rows + row) v }) (row + 1) col vs

  unfoldable pub feature_loop :
      List ℕ → Matrix ℕ → Matrix A → ℕ → Bool → ℕ → ℕ → ℕ → Matrix A → Result (Matrix A)
  unfolding bucket_sums cumulate write_column
  feature_loop ranges order_map x bucket_num cumsum col zero feature res = ok res
  feature_loop ranges order_map x bucket_num cumsum col (suc n) feature res = do
    sums ← bucket_sums ranges order_map x bucket_num feature col
    res' ←
        write_column res (bucket_num * feature) col (if cumsum then cumulate zero_of sums else sums)
    feature_loop ranges order_map x bucket_num cumsum col n (feature + 1) res'

  unfoldable pub column_loop :
      List ℕ → Matrix ℕ → Matrix A → ℕ → Bool → ℕ → ℕ → Matrix A → Result (Matrix A)
  unfolding feature_loop
  column_loop ranges order_map x bucket_num cumsum zero col res = ok res
  column_loop ranges order_map x bucket_num cumsum (suc n) col res = do
    res' ← feature_loop ranges order_map x bucket_num cumsum col order_map.cols 0 res
    column_loop ranges order_map x bucket_num cumsum n (col + 1) res'

  unfoldable pub bucket_checks : Matrix ℕ → Matrix A → Result (Unit {0})
  bucket_checks order_map x = do
    enforce (ltb 0 x.cols && ltb 0 x.rows) empty_tensor
    enforce (order_map.rows == x.rows) shape_error

  unfoldable pub feature_wise_bucket_sum_inplace :
      List ℕ → Matrix A → Matrix ℕ → ℕ → Bool → Matrix A → Result (Matrix A)
  unfolding column_loop bucket_checks
  feature_wise_bucket_sum_inplace ranges x order_map bucket_num cumsum res = do
    bucket_checks order_map x
    enforce (bucket_num * order_map.cols == res.rows) shape_error
    enforce (x.cols == res.cols) shape_error
    column_loop ranges order_map x bucket_num cumsum x.cols 0 res

  -- The new matrix holds `fresh` before the sums are written.
  unfoldable pub feature_wise_bucket_sum :
      A → List ℕ → Matrix A → Matrix ℕ → ℕ → Bool → Result (Matrix A)
  unfolding feature_wise_bucket_sum_inplace
  feature_wise_bucket_sum fresh ranges x order_map bucket_num cumsum = do
    bucket_checks order_map x
    feature_wise_bucket_sum_inplace ranges x order_map bucket_num cumsum (record {
      rows = bucket_num * order_map.cols;
      cols = x.cols;
      n_dims = 2;
      buffer = replicate (bucket_num * order_map.cols * x.cols) fresh;
    })
