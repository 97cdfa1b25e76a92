-- ===== src/Numpy/Matrix.antt =====
-- matrix.h of heu/library/numpy. The buffer is Eigen's, by columns.
use heu.Base.{
  ℕ, zero, suc, ◌+◌, ◌-◌, ◌*◌, ◌/◌, ◌%◌, Bool, not, ◌&&◌, ◌||◌, List, [], ◌∷◌, length, take, ltb,
  leb, ◌==◌, if◌then◌else◌, Result, ok, err, enforce, ◌>>=◌, ◌>>◌,
}
use heu.Base.{dim_error, shape_error, squeeze_error, not_reached, out_of_range}

pub record Matrix {ℓ} (A : Type ℓ) : Type ℓ where
  pub rows : ℕ
  pub cols : ℕ
  pub n_dims : ℕ
  pub buffer : List A

-- The checks of the constructors.
unfoldable pub check_dims : ℕ → ℕ → ℕ → Result (Unit {0})
check_dims rows cols n_dims = do
  enforce (leb n_dims 2) dim_error
  if n_dims == 1
      then enforce (cols == 1) shape_error
      else (if n_dims == 0 then enforce (rows == 1 && cols == 1) shape_error else ok tt)

-- One entry of a buffer; a read behind the end is not defined in the source.
unfoldable pub read {ℓ} : {A : Type ℓ} → List A → ℕ → Result A
read [] i = err out_of_range
read (x ∷ xs) zero = ok x
read (x ∷ xs) (suc i) = read xs i

-- `f` at the indices `from`, …, `from + n - 1`, in turn.
unfoldable pub tabulate {ℓ} : {C : Type ℓ} → ℕ → ℕ → (ℕ → Result C) → Result (List C)
tabulate zero from f = ok []
tabulate (suc n) from f = do c ← f from; cs ← tabulate n (from + 1) f; ok (c ∷ cs)

-- view.rows() > 1 ? 1 : (0 + view.cols() > 1 ? 1 : 0), as C++ reads it.
abbrev pub min_dim : ℕ → ℕ → ℕ
min_dim rows cols = if ltb 1 rows then 1 else (if ltb 1 cols then 1 else 0)

abbrev pub squeeze_checks : ℕ → Bool → Bool → Result (Unit {0})
squeeze_checks n_dims squeeze_row squeeze_col =
    if n_dims == 1
    then enforce (not squeeze_col) squeeze_error
    else (if n_dims == 0 then enforce (not squeeze_row && not squeeze_col) squeeze_error else ok tt)

module _ {ℓ} {A : Type ℓ} where
  unfoldable pub at : Matrix A → ℕ → ℕ → Result A
  unfolding read
  at m row col = read m.buffer (col * m.rows + row)

  unfoldable pub shape : Matrix A → List ℕ
  shape m = take m.n_dims (m.rows ∷ m.cols ∷ [])

  -- A new matrix whose element at `row` and `col` is `update row col`: the constructor and `ForEach`,
  -- which hands out each position of the buffer once, in a row of the given length.
  unfoldable pub for_each : ℕ → ℕ → ℕ → (ℕ → ℕ → Result A) → Result (Matrix A)
  unfolding check_dims tabulate
  for_each rows cols n_dims update = do
    check_dims rows cols n_dims
    cells ← tabulate (rows * cols) 0 (λ i. update (i % rows) (i / rows))
    ok (record { rows = rows; cols = cols; n_dims = n_dims; buffer = cells })

  unfoldable pub transpose : Matrix A → Result (Matrix A)
  unfolding for_each at
  transpose m = do
    enforce (m.n_dims == 2) dim_error
    for_each m.cols m.rows m.n_dims (λ row col. at m col row)

  -- The view of the rows and columns of the two lists of indices.
  unfoldable pub view : Matrix A → List ℕ → List ℕ → ℕ → Result (Matrix A)
  unfolding for_each at read
  view m row_indices col_indices n_dims =
      for_each (length row_indices) (length col_indices) n_dims
        λ row col. do r ← read row_indices row; c ← read col_indices col; at m r c

  -- The transposed view.
  unfoldable pub view_transposed : Matrix A → List ℕ → List ℕ → ℕ → Result (Matrix A)
  unfolding for_each at read
  view_transposed m row_indices col_indices n_dims =
      for_each (length col_indices) (length row_indices) n_dims
        λ row col. do r ← read row_indices col; c ← read col_indices row; at m r c

  unfoldable pub get_item : Matrix A → List ℕ → List ℕ → Bool → Bool → Result (Matrix A)
  unfolding view view_transposed
  get_item m row_indices col_indices squeeze_row squeeze_col = do
    squeeze_checks m.n_dims squeeze_row squeeze_col
    let low = min_dim (length row_indices) (length col_indices)
    let one_row = squeeze_row && leb (length row_indices) 1
    if (not squeeze_row && not squeeze_col) || m.n_dims == low
        then view m row_indices col_indices m.n_dims
        else (if squeeze_col && leb (length col_indices) 1
            then (do
              let new_dim = if one_row then m.n_dims - 1 - 1 else m.n_dims - 1
              enforce (leb low new_dim) squeeze_error
              view m row_indices col_indices new_dim)
            else (if one_row
                then (do
                  enforce (leb low (m.n_dims - 1)) squeeze_error
                  view_transposed m row_indices col_indices (m.n_dims - 1))
                else err not_reached))
