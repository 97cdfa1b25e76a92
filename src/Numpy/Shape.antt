-- ===== src/Numpy/Shape.antt =====
-- shape.h of heu/library/numpy. The extents are not negative.
use heu.Base.{ℕ, List, [], ◌∷◌, length, get_or, ltb, Result, ok, err, enforce, ◌>>◌}
use heu.Base.{index_error}
use heu.Base.Int.{ℤ, pos, negsuc, ◌+ℤ◌}

unfoldable pub n_dim : List ℕ → ℕ
n_dim shape = length shape

-- The test `0 <= index && index < Ndim()`, and the look-up.
abbrev checked : List ℕ → ℤ → Result ℕ
checked shape (pos i) = do enforce (ltb i (length shape)) index_error; ok (get_or shape i 0)
checked shape (negsuc i) = err index_error

-- A negative index counts from the end.
unfoldable pub get_dim : List ℕ → ℤ → Result ℕ
get_dim shape (pos i) = checked shape (pos i)
get_dim shape (negsuc i) = checked shape (negsuc i +ℤ pos (length shape))

-- For a dim-1 tensor the only extent is that of the rows.
unfoldable pub rows_alloc : List ℕ → ℕ
rows_alloc [] = 1
rows_alloc (r ∷ rest) = r

unfoldable pub cols_alloc : List ℕ → ℕ
cols_alloc [] = 1
cols_alloc (r ∷ []) = 1
cols_alloc (r ∷ c ∷ rest) = c
