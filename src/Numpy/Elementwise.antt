-- ===== src/Numpy/Elementwise.antt =====
-- numpy/evaluator.cc: the operations element by element, with broadcasting. The operation on the
-- elements (`phe::Evaluator`) is an argument. Both overloads of `DoCall` read the same elements.
pub mod Broadcast
use heu.Base.{
  ℕ, ◌+◌, ◌-◌, ◌*◌, ◌/◌, ◌%◌, Bool, ◌&&◌, ◌||◌, ◌==◌, leb, if◌then◌else◌, Result, ok, err, enforce,
  ◌>>=◌, ◌>>◌,
}
use heu.Base.{Error, shape_error}
use heu.Numpy.Matrix.{Matrix, read, for_each}

pub record Dimension : Type 0 where
  pub rows : ℕ
  pub cols : ℕ
  pub n_dims : ℕ

unfoldable pub dimension {ℓ} : {A : Type ℓ} → Matrix A → Dimension
dimension m = record { rows = m.rows; cols = m.cols; n_dims = m.n_dims }

unfoldable pub is_compatible_shape : Dimension → Dimension → Bool
is_compatible_shape a b =
    ((a.rows == 1 || b.rows == 1) || a.rows == b.rows)
    && ((a.cols == 1 || b.cols == 1) || a.cols == b.cols)

abbrev pub max : ℕ → ℕ → ℕ
max a b = if leb a b then b else a

unfoldable pub compute_cast_shape : Dimension → Dimension → Dimension
compute_cast_shape a b = record {
  rows = max a.rows b.rows;
  cols = max a.cols b.cols;
  n_dims = max a.n_dims b.n_dims;
}

unfoldable pub compute_cast_stride : ℕ × ℕ → Dimension → Dimension → ℕ × ℕ
compute_cast_stride (s0, s1) sizes new_sizes =
    (if sizes.rows == new_sizes.rows then s0 else 0, if sizes.cols == new_sizes.cols then s1 else 0)

-- x_base[row * x_stride[0] + col * x_stride[1]].
unfoldable pub strided {ℓ} : {A : Type ℓ} → Matrix A → ℕ × ℕ → ℕ → ℕ → Result A
unfolding read
strided m (s0, s1) row col = read m.buffer (row * s0 + col * s1)

module _ {ℓ κ μ} {A : Type ℓ} {B : Type κ} {C : Type μ} (op : A → B → C) where
  unfoldable pub dense_op : Matrix A → Matrix B → Result (Matrix C)
  unfolding dimension is_compatible_shape compute_cast_shape compute_cast_stride strided for_each
  dense_op x y = do
    enforce (is_compatible_shape (dimension x) (dimension y)) shape_error
    let size = compute_cast_shape (dimension x) (dimension y)
    let x_stride = compute_cast_stride (1, x.rows) (dimension x) size
    let y_stride = compute_cast_stride (1, y.rows) (dimension y) size
    for_each size.rows size.cols size.n_dims
        λ row col. do a ← strided x x_stride row col; b ← strided y y_stride row col; ok (op a b)

  -- `Add` and `Mul` of a plaintext and a ciphertext: the operands in the other order.
  unfoldable pub dense_op_swapped : Matrix B → Matrix A → Result (Matrix C)
  unfolding dense_op
  dense_op_swapped y x = dense_op x y
