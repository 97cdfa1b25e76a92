-- ===== src/Numpy/MatMul/Terms.antt =====
-- The elements of a product as sums, and the extents that it compares.
use heu.Base.{
  ℕ, zero, suc, ◌+◌, ◌-◌, ◌*◌, ◌<◌, ◌≡◌, refl, ap, ◌∙◌, ◌==◌, ==_iff, enforce-eq-ok, ok, enforce,
  arith,
}
use heu.Base.{shape_error}
use heu.Base.Int.{pos, negsuc, ◌+ℤ◌}
use heu.Numpy.Shape.{get_dim, n_dim}
use heu.Numpy.Matrix.{Matrix, check_dims, at, shape}
use heu.Numpy.Tabulate.{IsValid, position-lt}
use heu.Numpy.MatMul.{Operand, term, sum_terms, dot}

pub size-pos : (rows cols : ℕ) → 0 < rows → 0 < cols → 0 < rows * cols
size-pos rows cols h k =
    let place : 0 * rows + 0 < rows * cols = position-lt rows cols 0 0 h k in omega arith

-- The elements of the matrix are the values of `f`.
abbrev pub Holds {ℓ} : {A : Type ℓ} → Matrix A → (ℕ → ℕ → A) → Type ℓ
Holds m f = (row col : ℕ) → row < m.rows → col < m.cols → at m row col ≡ ok (f row col)

abbrev pub Shows {ℓ} : {A : Type ℓ} → Operand A → (ℕ → ℕ → A) → Type ℓ
Shows m f = (row col : ℕ) → row < m.rows → col < m.cols → m.entry row col ≡ ok (f row col)

-- h 0 + … + h n.
pub sum_to {ℓ} : {C : Type ℓ} → (C → C → C) → (ℕ → C) → ℕ → C
sum_to add h zero = h 0
sum_to add h (suc n) = add (sum_to add h n) (h (suc n))

module _ {ℓ} {A : Type ℓ} (m : Matrix A) where
  pub last_matrix : m.n_dims ≡ 2 → get_dim (shape m) (negsuc 0) ≡ ok m.cols
  unfolding get_dim shape ◌+ℤ◌
  last_matrix e = rw e refl

  pub first_matrix : m.n_dims ≡ 2 → get_dim (shape m) (pos 0) ≡ ok m.rows
  unfolding get_dim shape
  first_matrix e = rw e refl

  pub n_dim_matrix : m.n_dims ≡ 2 → n_dim (shape m) ≡ 2
  unfolding n_dim shape
  n_dim_matrix e = rw e refl

  pub last_vector : m.n_dims ≡ 1 → get_dim (shape m) (negsuc 0) ≡ ok m.rows
  unfolding get_dim shape ◌+ℤ◌
  last_vector e = rw e refl

  pub n_dim_vector : m.n_dims ≡ 1 → n_dim (shape m) ≡ 1
  unfolding n_dim shape
  n_dim_vector e = rw e refl

  pub vector_cols : IsValid m → m.n_dims ≡ 1 → m.cols ≡ 1
  vector_cols v e = (==_iff m.cols 1).0 (enforce-eq-ok (m.cols == 1) shape_error (checks v.dims))
    where
      checks : check_dims m.rows m.cols m.n_dims ≡ ok tt → enforce (m.cols == 1) shape_error ≡ ok tt
      checks h = unfold check_dims in (rw e at h)

module _ {ℓ κ μ} {A : Type ℓ} {B : Type κ} {C : Type μ} (mul : A → B → C) (add : C → C → C) where
  -- The element of the product.
  abbrev pub product_at : (ℕ → ℕ → A) → (ℕ → ℕ → B) → ℕ → ℕ → ℕ → C
  product_at f g n row col = sum_to add (λ j. mul (f row j) (g j col)) n

  module _ (mx : Operand A) (my : Operand B) (f : ℕ → ℕ → A) (g : ℕ → ℕ → B) (sx : Shows mx f)
      (sy : Shows my g) (inner : mx.cols ≡ my.rows) where
    term_lem :
        (row col j : ℕ)
        → row < mx.rows
        → col < my.cols
        → j < mx.cols
        → term mul add mx my row col j ≡ ok (mul (f row j) (g j col))
    term_lem row col j h k l = rw (sx row j h l, sy j col (omega arith) k) refl

    sum_terms_lem :
        (row col n from : ℕ)
        → row < mx.rows
        → col < my.cols
        → from + 1 + n ≡ mx.cols
        → sum_terms mul add mx my row col n (from + 1) (product_at f g from row col)
          ≡ ok (product_at f g (from + n) row col)
    unfolding sum_terms sum_to
    sum_terms_lem row col zero from h k e = let z : from + 0 ≡ from = omega arith in rw z refl
    sum_terms_lem row col (suc n) from h k e =
        let z : from + suc n ≡ suc from + n = omega arith in
        let w : from + 1 ≡ suc from = omega arith in
        rw (term_lem row col (from + 1) h k (omega arith), z, w)
          (let next = sum_terms_lem row col n (suc from) h k (omega arith) in
            let u : suc from + 1 ≡ suc (suc from) = omega arith in next)

    pub dot_lem :
        (row col : ℕ)
        → row < mx.rows
        → col < my.cols
        → 0 < mx.cols
        → dot mul add mx my row col ≡ ok (product_at f g (mx.cols - 1) row col)
    unfolding dot sum_to
    dot_lem row col h k some_terms =
        let z : 0 + (mx.cols - 1) ≡ mx.cols - 1 = omega arith in
        rw (term_lem row col 0 h k some_terms) (
          sum_terms_lem row col (mx.cols - 1) 0 h k (omega arith)
          ∙ ap (λ n. ok (product_at f g n row col)) z)
