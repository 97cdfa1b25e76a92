-- ===== src/Numpy/Examples.antt =====
-- Matrices of natural numbers in place of ciphertexts.
use heu.Base.{ℕ, zero, suc, ◌+◌, ◌*◌, ◌≡◌, refl, [], ◌∷◌, ok, arith, true}
use native.Mathlib.Nat.{add_assoc}
use heu.Numpy.Matrix.{Matrix, check_dims, read, at}
use heu.Numpy.Tabulate.{IsValid}
use heu.Numpy.Elementwise.{dense_op, is_compatible_shape, dimension}
use heu.Numpy.Elementwise.Broadcast.{source_index, dense_op-broadcast}
use heu.Numpy.MatMul.{mat_mul}
use heu.Numpy.MatMul.Terms.{Holds, product_at}
use heu.Numpy.MatMul.Product.{mat_mul_matrices, mat_mul_vector}
use heu.Base.{length, ◌-◌, ◌<◌, List}
use native.Mathlib.Nat.{add-zero}
use heu.Numpy.Reduce.{sum, bucket_sums}
use heu.Numpy.Reduce.Buckets.{collect, bucket_sums-collect}
use heu.Numpy.Matrix.{read}
use heu.Numpy.Reduce.Sums.{total, sum_all, sum-sum_all}
use heu.Base.{err, false, not_reached}
use heu.Numpy.Matrix.{get_item}
use heu.Numpy.Views.{AllBelow, get_item_not_reached, get_item_view}

-- [[1, 3], [2, 4]], by columns, and a column and a vector of two rows.
abbrev square : Matrix ℕ
square = record { rows = 2; cols = 2; n_dims = 2; buffer = 1 ∷ 2 ∷ 3 ∷ 4 ∷ [] }

abbrev column : Matrix ℕ
column = record { rows = 2; cols = 1; n_dims = 2; buffer = 5 ∷ 6 ∷ [] }

abbrev vector : Matrix ℕ
vector = record { rows = 2; cols = 1; n_dims = 1; buffer = 5 ∷ 6 ∷ [] }

square-IsValid : IsValid square
unfolding check_dims
square-IsValid = record { filled = refl; dims = refl }

column-IsValid : IsValid column
unfolding check_dims
column-IsValid = record { filled = refl; dims = refl }

vector-IsValid : IsValid vector
unfolding check_dims
vector-IsValid = record { filled = refl; dims = refl }

fit : is_compatible_shape (dimension square) (dimension column) ≡ true
unfolding is_compatible_shape dimension
fit = refl

dense_op-broadcast_example :
    (m : Matrix ℕ) × (a b : ℕ) × (dense_op (λ s t. s + t) square column ≡ ok m)
    × IsValid m
    × (m.rows ≡ 2)
    × (m.cols ≡ 2)
    × (m.n_dims ≡ 2)
    × (at square (source_index 2 1) (source_index 2 1) ≡ ok a)
    × (at column (source_index 2 1) (source_index 1 1) ≡ ok b)
    × (at m 1 1 ≡ ok (a + b))
dense_op-broadcast_example =
    dense_op-broadcast (λ s t. s + t) square column square-IsValid column-IsValid 1 1 fit
      (omega arith, omega arith) (omega arith, omega arith) (omega arith) (omega arith)

-- row + 2 * col + 1.
abbrev square_at : ℕ → ℕ → ℕ
square_at row col = row + 2 * col + 1

square-Holds : Holds square square_at
unfolding at read
square-Holds zero zero h k = refl
square-Holds zero (suc zero) h k = refl
square-Holds (suc zero) zero h k = refl
square-Holds (suc zero) (suc zero) h k = refl
square-Holds zero (suc (suc c)) h k = absurd (omega arith)
square-Holds (suc zero) (suc (suc c)) h k = absurd (omega arith)
square-Holds (suc (suc r)) c h k = absurd (omega arith)

vector-Holds : Holds vector (λ row col. row + 5)
unfolding at read
vector-Holds zero zero h k = refl
vector-Holds (suc zero) zero h k = refl
vector-Holds zero (suc c) h k = absurd (omega arith)
vector-Holds (suc zero) (suc c) h k = absurd (omega arith)
vector-Holds (suc (suc r)) c h k = absurd (omega arith)

mat_mul_matrices_example :
    (m : Matrix ℕ) × (mat_mul (λ s t. s * t) (λ s t. s + t) square square ≡ ok m)
    × IsValid m
    × (m.rows ≡ 2)
    × (m.cols ≡ 2)
    × (m.n_dims ≡ 2)
    × (at m 0 1 ≡ ok (product_at (λ s t. s * t) (λ s t. s + t) square_at square_at 1 0 1))
mat_mul_matrices_example =
    mat_mul_matrices (λ s t. s * t) (λ s t. s + t) square square square-IsValid square-IsValid
      square_at square_at square-Holds square-Holds 0 1 (refl, refl) refl (omega arith, omega arith)
      (omega arith) (omega arith)

mat_mul_vector_example :
    (m : Matrix ℕ) × (mat_mul (λ s t. s * t) (λ s t. s + t) vector square ≡ ok m)
    × IsValid m
    × (m.rows ≡ 2)
    × (m.cols ≡ 1)
    × (m.n_dims ≡ 1)
    × (at m 1 0 ≡ ok (product_at (λ s t. s * t) (λ s t. s + t) (λ r c. c + 5) square_at 1 0 1))
mat_mul_vector_example =
    mat_mul_vector (λ s t. s * t) (λ s t. s + t) vector square vector-IsValid square-IsValid
      (λ row col. row + 5) square_at vector-Holds square-Holds 1 (refl, refl) refl (omega arith)
      (omega arith)

three_and_one : total (3 ∷ 1 ∷ []) ≡ 2 * 2
unfolding total
three_and_one = refl

sum-sum_all_example :
    sum (λ s t. s + t) (3 ∷ 1 ∷ []) square ≡ sum_all (λ s t. s + t) (1 ∷ 2 ∷ 3 ∷ 4 ∷ [])
sum-sum_all_example =
    sum-sum_all (λ s t. s + t) add_assoc (3 ∷ 1 ∷ []) square square-IsValid
      (omega arith, omega arith) (omega arith, (omega arith, tt)) three_and_one

-- The first row goes to bucket 1, the second to bucket 0.
abbrev order_map : Matrix ℕ
order_map = record { rows = 2; cols = 1; n_dims = 2; buffer = 1 ∷ 0 ∷ [] }

order_map-bucket : (i : ℕ) → i < 2 → at order_map i 0 ≡ ok (1 - i)
unfolding at read
order_map-bucket zero h = refl
order_map-bucket (suc zero) h = refl
order_map-bucket (suc (suc i)) h = absurd (omega arith)

one_and_one : total (1 ∷ 1 ∷ []) ≡ 2
unfolding total
one_and_one = refl

bucket_sums-collect_example :
    (sums : List ℕ) × (bucket_sums (λ s t. s + t) 0 (1 ∷ 1 ∷ []) order_map vector 2 0 0 ≡ ok sums)
    × (length sums ≡ 2)
    × (read sums 1 ≡ ok (collect (λ s t. s + t) (λ i. 1 - i) (λ i. i + 5) 1 2 0 0))
bucket_sums-collect_example =
    bucket_sums-collect (λ s t. s + t) 0 order_map vector 2 0 0 (λ i. 1 - i) (λ i. i + 5)
      order_map-bucket (λ i h. vector-Holds i 0 h (omega arith)) (λ i h. omega arith) add_assoc
      add-zero (1 ∷ 1 ∷ []) 1 (omega arith) (omega arith) one_and_one

get_item_not_reached_example :
    get_item square (0 ∷ 1 ∷ []) (0 ∷ 1 ∷ []) true false ≡ err not_reached
get_item_not_reached_example =
    get_item_not_reached square (0 ∷ 1 ∷ []) (0 ∷ 1 ∷ []) true false refl (omega arith)
      (omega arith) refl

row_one : AllBelow (1 ∷ []) 2
unfolding read
row_one zero h = (1, refl, omega arith)
row_one (suc k) h = absurd (omega arith)

reversed : AllBelow (1 ∷ 0 ∷ []) 2
unfolding read
reversed zero h = (1, refl, omega arith)
reversed (suc zero) h = (0, refl, omega arith)
reversed (suc (suc k)) h = absurd (omega arith)

read_one : read {A = ℕ} (1 ∷ []) 0 ≡ ok 1
unfolding read
read_one = refl

read_zero : read {A = ℕ} (1 ∷ 0 ∷ []) 1 ≡ ok 0
unfolding read
read_zero = refl

get_item_view_example :
    (v : Matrix ℕ) × (get_item square (1 ∷ []) (1 ∷ 0 ∷ []) false false ≡ ok v)
    × IsValid v
    × (v.rows ≡ 1)
    × (v.cols ≡ 2)
    × (at v 0 1 ≡ at square 1 0)
get_item_view_example =
    get_item_view square (1 ∷ []) (1 ∷ 0 ∷ []) 0 1 1 0 square-IsValid refl row_one reversed
      (omega arith) (omega arith) read_one read_zero
