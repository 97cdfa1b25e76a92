-- ===== src/Numpy/Elementwise/Broadcast.antt =====
-- What the operations element by element compute.
use heu.Base.{
  ℕ, ◌*◌, ◌<◌, ◌≡◌, refl, ap, ◌∙◌, Bool, true, false, ◌&&◌, ◌||◌, ◌==◌, ==_iff, if◌then◌else◌,
  Bool-cases, ◌⊎◌, inl, inr, Result, ok, err, ◌>>=◌, arith,
}
use heu.Base.{shape_error}
use heu.Numpy.Matrix.{Matrix, check_dims, read, at}
use heu.Numpy.Tabulate.{IsValid, at_within, for_each_lem}
use heu.Numpy.Elementwise.{
  Dimension, dimension, is_compatible_shape, compute_cast_shape, compute_cast_stride, strided,
  dense_op, max,
}

-- An index of the result, in an operand with `extent` positions: the only one is repeated.
abbrev pub source_index : ℕ → ℕ → ℕ
source_index extent i = if extent == 1 then 0 else i

-- Extents are compatible when equal, or when one of them is 1.
abbrev fits : ℕ → ℕ → Bool
fits a b = (a == 1 || b == 1) || a == b

-- An extent that the result's extent `n` repeats or keeps.
abbrev Extends : ℕ → ℕ → Type 0
Extends a n = (a ≡ n) ⊎ (a ≡ 1)

fits-Extends :
    (a b : ℕ) → fits a b ≡ true → 0 < a → 0 < b → Extends a (max a b) × Extends b (max a b)
fits-Extends a b f p q = elim (Bool-cases (a == 1)) [
  | inl one ↦ (inr ((==_iff a 1).0 one), inl (ground arith))
  | inr more ↦ elim (Bool-cases (b == 1)) [
    | inl one ↦ (inl (ground arith), inr ((==_iff b 1).0 one))
    | inr also ↦ (inl (ground arith), inl (ground arith))
  ]
]

source_index-lt : (a n i : ℕ) → Extends a n → i < n → source_index a i < a
source_index-lt a n i (inl e) h = ground arith
source_index-lt a n i (inr e) h = ground arith

-- With a stride of 0 for an extent that is repeated, the source index is read.
stride_index :
    (a n i s : ℕ) → Extends a n → i < n → i * (if a == n then s else 0) ≡ source_index a i * s
stride_index a n i s x h = elim (Bool-cases (a == n)) [
  | inl same ↦ let e : source_index a i ≡ i = ground arith in rw (same, e) refl
  | inr other ↦
      let one : a ≡ 1 = elim x [ inl e ↦ absurd (ground arith) | inr e ↦ e ] in
      let e : source_index a i ≡ 0 = ground arith in rw (other, e) (omega arith)
]

and_parts : (s t : Bool) → (s && t) ≡ true → (s ≡ true) × (t ≡ true)
and_parts true true h = (refl, refl)
and_parts true false h = cc
and_parts false t h = cc

-- The check of the result's dimensions follows from those of the operands.
check_max :
    (r c n r' c' n' : ℕ)
    → check_dims r c n ≡ ok tt
    → check_dims r' c' n' ≡ ok tt
    → check_dims (max r r') (max c c') (max n n') ≡ ok tt
unfolding check_dims
check_max r c n r' c' n' h k = ground arith

module _ {ℓ} {A : Type ℓ} (m : Matrix A) (v : IsValid m) (big : Dimension) where
  strided-at :
      (row col : ℕ)
      → Extends m.rows big.rows
      → Extends m.cols big.cols
      → row < big.rows
      → col < big.cols
      → strided m (compute_cast_stride (1, m.rows) (dimension m) big) row col
        ≡ at m (source_index m.rows row) (source_index m.cols col)
  unfolding strided compute_cast_stride dimension at
  strided-at row col er ec h k = ap (read m.buffer) (
      omega (
        arith,
        stride_index m.rows big.rows row 1 er h,
        stride_index m.cols big.cols col m.rows ec k,
      ))

module _ {ℓ κ μ} {A : Type ℓ} {B : Type κ} {C : Type μ} (op : A → B → C) where
  -- Operands whose shapes are not compatible are refused.
  refuses :
      (x : Matrix A) (y : Matrix B)
      → is_compatible_shape (dimension x) (dimension y) ≡ false
      → dense_op op x y ≡ err shape_error
  unfolding dense_op
  refuses x y h = rw h refl

  module _ (x : Matrix A) (y : Matrix B) (vx : IsValid x) (vy : IsValid y) where
    abbrev big : Dimension
    big = compute_cast_shape (dimension x) (dimension y)

    abbrev cell : ℕ → ℕ → Result C
    cell row col = strided x (compute_cast_stride (1, x.rows) (dimension x) big) row col >>= λ a.
        strided y (compute_cast_stride (1, y.rows) (dimension y) big) row col >>= λ b. ok (op a b)

    cell_lem :
        (row col : ℕ)
        → Extends x.rows big.rows × Extends y.rows big.rows
        → Extends x.cols big.cols × Extends y.cols big.cols
        → row < big.rows
        → col < big.cols
        → (a : A) × (b : B) × (at x (source_index x.rows row) (source_index x.cols col) ≡ ok a)
          × (at y (source_index y.rows row) (source_index y.cols col) ≡ ok b)
          × (cell row col ≡ ok (op a b))
    cell_lem row col (xr, yr) (xc, yc) h k =
        let (a, ea) =
          at_within x (source_index x.rows row) (source_index x.cols col) vx
            (source_index-lt x.rows big.rows row xr h) (source_index-lt x.cols big.cols col xc k) in
        let (b, eb) =
          at_within y (source_index y.rows row) (source_index y.cols col) vy
            (source_index-lt y.rows big.rows row yr h) (source_index-lt y.cols big.cols col yc k) in
        (
          a,
          b,
          ea,
          eb,
          rw (strided-at x vx big row col xr xc h k, ea, strided-at y vy big row col yr yc h k, eb)
              refl,
        )

    -- For valid operands that are not empty and whose shapes are compatible, the operation succeeds
    -- with a valid matrix of the larger extents. Each of its elements is the operation's result on the
    -- elements at the same place, where an extent of 1 is repeated.
    pub dense_op-broadcast :
        (row col : ℕ)
        → is_compatible_shape (dimension x) (dimension y) ≡ true
        → (0 < x.rows) × (0 < x.cols)
        → (0 < y.rows) × (0 < y.cols)
        → row < max x.rows y.rows
        → col < max x.cols y.cols
        → (m : Matrix C) × (a : A) × (b : B) × (dense_op op x y ≡ ok m)
          × IsValid m
          × (m.rows ≡ max x.rows y.rows)
          × (m.cols ≡ max x.cols y.cols)
          × (m.n_dims ≡ max x.n_dims y.n_dims)
          × (at x (source_index x.rows row) (source_index x.cols col) ≡ ok a)
          × (at y (source_index y.rows row) (source_index y.cols col) ≡ ok b)
          × (at m row col ≡ ok (op a b))
    unfolding dense_op is_compatible_shape dimension compute_cast_shape
    dense_op-broadcast row col compatible (xr, xc) (yr, yc) h k =
        let parts = and_parts _ _ compatible in
        let er = fits-Extends x.rows y.rows parts.0 xr yr in
        let ec = fits-Extends x.cols y.cols parts.1 xc yc in
        let (m, run, v, mr, mc, md, cells) =
          for_each_lem big.rows big.cols big.n_dims cell
            (check_max x.rows x.cols x.n_dims y.rows y.cols y.n_dims vx.dims vy.dims)
            (λ r c hr hc. let (a, b, ea, eb, e) = cell_lem r c er ec hr hc in (op a b, e)) in
        let (a, b, ea, eb, e) = cell_lem row col er ec h k in
        (m, a, b, rw compatible run, v, mr, mc, md, ea, eb, cells row col h k ∙ e)
