-- ===== src/Numpy/MatMul/Product.antt =====
-- What the matrix product computes.
use heu.Base.{
  ℕ, ◌-◌, ◌*◌, ◌<◌, ◌≡◌, refl, sym, ◌∙◌, true, false, ◌&&◌, ◌==◌, ==_iff, ltb, lt→ltb, Bool-cases,
  inl, inr, if◌then◌else◌, ok, arith,
}
use heu.Numpy.Matrix.{Matrix, check_dims, at, for_each}
use heu.Numpy.Tabulate.{IsValid, for_each_lem}
use heu.Numpy.MatMul.{plain, transposed, dot, do_mat_mul, mat_mul, matmul_dim}
use heu.Numpy.MatMul.Terms.{
  Holds, product_at, size-pos, dot_lem, last_matrix, first_matrix, n_dim_matrix, last_vector,
  n_dim_vector, vector_cols,
}

module _ {ℓ κ μ} {A : Type ℓ} {B : Type κ} {C : Type μ} (mul : A → B → C) (add : C → C → C) where
  module _ (x : Matrix A) (y : Matrix B) (vx : IsValid x) (vy : IsValid y) (f : ℕ → ℕ → A)
      (g : ℕ → ℕ → B) (hx : Holds x f) (hy : Holds y g) where
    -- The calls behind the checks.
    matrices_run :
        (x.n_dims ≡ 2) × (y.n_dims ≡ 2)
        → x.cols ≡ y.rows
        → (0 < x.rows) × (0 < x.cols)
        → mat_mul mul add x y
          ≡ for_each x.rows y.cols 2 (λ r c. dot mul add (plain x) (plain y) r c)
    unfolding mat_mul do_mat_mul
    matrices_run (dx, dy) inner (xr, xc) =
        let tests : (ltb 0 x.n_dims && ltb 0 y.n_dims) ≡ true = ground arith in
        let flat : (x.n_dims == 1) ≡ false = ground arith in
        let same : (x.cols == y.rows) ≡ true = (==_iff x.cols y.rows).1 inner in
        let filled : ltb 0 (x.rows * x.cols) ≡ true = lt→ltb 0 _ (size-pos x.rows x.cols xr xc) in
        rw
          (
            tests,
            flat,
            last_matrix x dx,
            first_matrix y dy,
            same,
            filled,
            n_dim_matrix x dx,
            n_dim_matrix y dy,
          )
          (unfold matmul_dim plain in refl)

    vector_run :
        (x.n_dims ≡ 1) × (y.n_dims ≡ 2)
        → x.rows ≡ y.rows
        → 0 < x.rows
        → 0 < y.cols
        → mat_mul mul add x y ≡ (
            if ltb 1 y.cols
            then for_each y.cols x.cols 1 (λ r c. dot mul add (transposed x) (plain y) c r)
            else for_each x.cols y.cols 1 (λ r c. dot mul add (transposed x) (plain y) r c))
    unfolding mat_mul do_mat_mul
    vector_run (dx, dy) inner xr yc =
        let tests : (ltb 0 x.n_dims && ltb 0 y.n_dims) ≡ true = ground arith in
        let flat : (x.n_dims == 1) ≡ true = ground arith in
        let one : x.cols ≡ 1 = vector_cols x vx dx in
        let thin : (x.cols == 1) ≡ true = (==_iff x.cols 1).1 one in
        let same : (x.rows == y.rows) ≡ true = (==_iff x.rows y.rows).1 inner in
        let filled : ltb 0 (x.rows * x.cols) ≡ true =
          lt→ltb 0 _ (size-pos x.rows x.cols xr (omega arith)) in
        rw
          (
            tests,
            flat,
            last_vector x dx,
            first_matrix y dy,
            same,
            filled,
            n_dim_vector x dx,
            n_dim_matrix y dy,
          )
          (unfold matmul_dim plain transposed in (rw thin refl))

    -- The product of two valid matrices of two dimensions, whose inner extents agree and which
    -- have a row and a column on the left, is a valid matrix of two dimensions, and its element at
    -- `row` and `col` is the sum from the left of the products of the elements of that row and
    -- that column.
    pub mat_mul_matrices :
        (row col : ℕ)
        → (x.n_dims ≡ 2) × (y.n_dims ≡ 2)
        → x.cols ≡ y.rows
        → (0 < x.rows) × (0 < x.cols)
        → row < x.rows
        → col < y.cols
        → (m : Matrix C) × (mat_mul mul add x y ≡ ok m)
          × IsValid m
          × (m.rows ≡ x.rows)
          × (m.cols ≡ y.cols)
          × (m.n_dims ≡ 2)
          × (at m row col ≡ ok (product_at mul add f g (x.cols - 1) row col))
    unfolding plain
    mat_mul_matrices row col dims inner (xr, xc) h k =
        let (m, run, v, mr, mc, md, cells) =
          for_each_lem x.rows y.cols 2 (λ r c. dot mul add (plain x) (plain y) r c)
            (unfold check_dims in refl) (λ r c hr hc. (_, cell r c hr hc)) in
        (
          m,
          matrices_run dims inner (xr, xc) ∙ run,
          v,
          mr,
          mc,
          md,
          cells row col h k ∙ cell row col h k,
        )
      where
        cell :
            (r c : ℕ)
            → r < x.rows
            → c < y.cols
            → dot mul add (plain x) (plain y) r c ≡ ok (product_at mul add f g (x.cols - 1) r c)
        cell r c h k =
            dot_lem mul add (plain x) (plain y) f g (unfold plain in hx) (unfold plain in hy) inner
              r c h k xc

    -- A vector times a matrix, with inner extents that agree and are not 0, is a valid vector with as
    -- many rows as the matrix has columns, and its element `i` is the sum from the left of the
    -- products of the vector's elements and those of column `i`.
    pub mat_mul_vector :
        (i : ℕ)
        → (x.n_dims ≡ 1) × (y.n_dims ≡ 2)
        → x.rows ≡ y.rows
        → 0 < x.rows
        → i < y.cols
        → (m : Matrix C) × (mat_mul mul add x y ≡ ok m)
          × IsValid m
          × (m.rows ≡ y.cols)
          × (m.cols ≡ 1)
          × (m.n_dims ≡ 1)
          × (at m i 0 ≡ ok (product_at mul add (λ r c. f c r) g (x.rows - 1) 0 i))
    unfolding plain transposed
    mat_mul_vector i (dx, dy) inner xr k = elim (Bool-cases (ltb 1 y.cols)) [
      | inl wide ↦
          let (m, run, v, mr, mc, md, cells) =
            for_each_lem y.cols x.cols 1 (λ r c. dot mul add (transposed x) (plain y) c r)
              (checked y.cols x.cols one) (λ r c hr hc. (_, cell c r hc hr)) in
          (
            m,
            vector_run (dx, dy) inner xr (omega arith) ∙ rw wide run,
            v,
            mr,
            mc ∙ one,
            md,
            cells i 0 k (omega (arith, one)) ∙ cell 0 i (omega (arith, one)) k,
          )
      | inr thin ↦
          let single : y.cols ≡ 1 = ground arith in
          let z : i ≡ 0 = omega arith in
          let (m, run, v, mr, mc, md, cells) =
            for_each_lem x.cols y.cols 1 (λ r c. dot mul add (transposed x) (plain y) r c)
              (checked x.cols y.cols single) (λ r c hr hc. (_, cell r c hr hc)) in
          (
            m,
            vector_run (dx, dy) inner xr (omega arith) ∙ rw thin run,
            v,
            mr ∙ (one ∙ sym single),
            mc ∙ single,
            md,
            rw z (
                cells 0 0 (omega (arith, one)) (omega arith)
                ∙ cell 0 0 (omega (arith, one)) (omega arith)),
          )
    ]
      where
        one : x.cols ≡ 1
        one = vector_cols x vx dx

        checked : (r c : ℕ) → c ≡ 1 → check_dims r c 1 ≡ ok tt
        checked r c e = unfold check_dims in (rw e refl)

        cell :
            (r c : ℕ)
            → r < x.cols
            → c < y.cols
            → dot mul add (transposed x) (plain y) r c
              ≡ ok (product_at mul add (λ r c. f c r) g (x.rows - 1) r c)
        cell r c h k =
            dot_lem mul add (transposed x) (plain y) (λ r c. f c r) g
              (unfold transposed in (λ r c h k. hx c r k h)) (unfold plain in hy) inner r c h k xr
