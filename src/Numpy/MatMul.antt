-- ===== src/Numpy/MatMul.antt =====
-- numpy/evaluator.cc: the matrix product. The product and the sum of elements (the evaluator of the
-- algorithm in use) are arguments; the overload for evaluators that work on whole vectors multiplies
-- the same elements and adds them from the left too, where it has no reduction of its own.
pub mod Terms
pub mod Product
use heu.Base.{
  ℕ, zero, suc, ◌+◌, ◌-◌, ◌*◌, Bool, true, false, ◌&&◌, ◌||◌, ◌==◌, ltb, leb, if◌then◌else◌, Result,
  ok, err, enforce, ◌>>=◌, ◌>>◌,
}
use heu.Base.{Error, dim_error, shape_error, empty_tensor}
use heu.Base.Int.{ℤ, pos, negsuc}
use heu.Numpy.Shape.{n_dim, get_dim}
use heu.Numpy.Matrix.{Matrix, at, for_each, shape}

-- MatmulDim of the numbers of dimensions.
unfoldable pub matmul_dim : ℕ → ℕ → ℕ
matmul_dim x y =
    let low = if leb x y then x else y in
    let high = if leb x y then y else x in
    if low == 0 then high else (if low == 2 then 2 else high - 1)

-- An operand of `DoMatMul`: a matrix or its transpose.
pub record Operand {ℓ} (A : Type ℓ) : Type ℓ where
  pub rows : ℕ
  pub cols : ℕ
  pub entry : ℕ → ℕ → Result A

unfoldable pub plain {ℓ} : {A : Type ℓ} → Matrix A → Operand A
plain m = record { rows = m.rows; cols = m.cols; entry = λ row col. at m row col }

unfoldable pub transposed {ℓ} : {A : Type ℓ} → Matrix A → Operand A
transposed m = record { rows = m.cols; cols = m.rows; entry = λ row col. at m col row }

module _ {ℓ κ μ} {A : Type ℓ} {B : Type κ} {C : Type μ} (mul : A → B → C) (add : C → C → C) where
  abbrev pub term : Operand A → Operand B → ℕ → ℕ → ℕ → Result C
  term mx my row col j = do a ← mx.entry row j; b ← my.entry j col; ok (mul a b)

  -- for (j = from; j < from + n; ++j) sum += mx(row, j) * my(j, col).
  unfoldable pub sum_terms : Operand A → Operand B → ℕ → ℕ → ℕ → ℕ → C → Result C
  sum_terms mx my row col zero from sum = ok sum
  sum_terms mx my row col (suc n) from sum = do
    t ← term mx my row col from
    sum_terms mx my row col n (from + 1) (add sum t)

  unfoldable pub dot : Operand A → Operand B → ℕ → ℕ → Result C
  unfolding sum_terms
  dot mx my row col = do first ← term mx my row col 0; sum_terms mx my row col (mx.cols - 1) 1 first

  -- A vector as the result is always vertical.
  unfoldable pub do_mat_mul : Operand A → Operand B → ℕ → Result (Matrix C)
  unfolding for_each dot
  do_mat_mul mx my out_dim =
      let flip = out_dim == 1 && ltb 1 my.cols in
      do
        (if out_dim == 1 then enforce (mx.rows == 1 || my.cols == 1) shape_error else ok tt)
        (if flip
            then for_each my.cols mx.rows out_dim (λ row col. dot mx my col row)
            else for_each mx.rows my.cols out_dim (λ row col. dot mx my row col))

  unfoldable pub mat_mul : Matrix A → Matrix B → Result (Matrix C)
  unfolding do_mat_mul plain transposed matmul_dim get_dim n_dim shape
  mat_mul x y = do
    enforce (ltb 0 x.n_dims && ltb 0 y.n_dims) dim_error
    last ← get_dim (shape x) (negsuc 0)
    first ← get_dim (shape y) (pos 0)
    enforce (last == first) shape_error
    enforce (ltb 0 (x.rows * x.cols) || ltb 0 (y.rows * y.cols)) empty_tensor
    let out_dim = matmul_dim (n_dim (shape x)) (n_dim (shape y))
    if x.n_dims == 1
        then do_mat_mul (transposed x) (plain y) out_dim
        else do_mat_mul (plain x) (plain y) out_dim
