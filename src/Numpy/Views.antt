-- ===== src/Numpy/Views.antt =====
-- Transposed matrices and selections: matrix.h of heu/library/numpy.
use heu.Base.{
  ℕ, suc, ◌+◌, ◌*◌, ◌/◌, ◌%◌, ◌<◌, ◌≡◌, refl, sym, ap, ◌∙◌, true, false, ◌||◌, Bool, List, [], ◌∷◌,
  length, ◌==◌, ==_iff, ok, err, ◌>>=◌, ok-injective, arith, ap₂,
}
use heu.Base.{not_reached}
use native.Mathlib.Nat.{div-add-mod'}
use heu.Numpy.Matrix.{Matrix, check_dims, read, at, transpose, view, get_item}
use heu.Numpy.Tabulate.{IsValid, at_within, for_each_lem, position_split}

two_dims : (rows cols n : ℕ) → n ≡ 2 → check_dims rows cols n ≡ ok tt
unfolding check_dims
two_dims rows cols n e = rw e refl

-- Every index of the list is below the extent.
abbrev pub AllBelow : List ℕ → ℕ → Type 0
AllBelow indices extent =
    (k : ℕ) → k < length indices → (a : ℕ) × (read indices k ≡ ok a) × (a < extent)

module _ {ℓ} {A : Type ℓ} where
  ext_read :
      (xs ys : List A)
      → length xs ≡ length ys
      → ((i : ℕ) → i < length xs → read xs i ≡ read ys i)
      → xs ≡ ys
  unfolding read
  ext_read [] [] e h = refl
  ext_read [] (y ∷ ys) e h = absurd (omega arith)
  ext_read (x ∷ xs) [] e h = absurd (omega arith)
  ext_read (x ∷ xs) (y ∷ ys) e h =
      ap₂ ◌∷◌ (ok-injective x y (h 0 (omega arith)))
        (ext_read xs ys (omega arith) (λ i lt. h (suc i) (omega arith)))

  -- Valid matrices of the same extents with the same elements have the same buffer.
  same_buffer :
      (m n : Matrix A)
      → IsValid m
      → IsValid n
      → n.rows ≡ m.rows
      → n.cols ≡ m.cols
      → ((row col : ℕ) → row < m.rows → col < m.cols → at n row col ≡ at m row col)
      → n.buffer ≡ m.buffer
  unfolding at
  same_buffer m n vm vn er ec h = ext_read n.buffer m.buffer sizes cell
    where
      sizes : length n.buffer ≡ length m.buffer
      sizes = vn.filled ∙ (ap₂ (λ (a b : ℕ). a * b) er ec ∙ sym vm.filled)

      cell : (i : ℕ) → i < length n.buffer → read n.buffer i ≡ read m.buffer i
      cell i lt =
          let (r, c) = position_split m.rows m.cols i (omega (arith, lt, sizes, vm.filled)) in
          let e : i / m.rows * m.rows + i % m.rows ≡ i = div-add-mod' i m.rows in
          let same = h (i % m.rows) (i / m.rows) r c in rw e at (rw er at same)

  transpose_once :
      (m : Matrix A)
      → IsValid m
      → m.n_dims ≡ 2
      → (t : Matrix A) × (transpose m ≡ ok t)
        × IsValid t
        × (t.rows ≡ m.cols)
        × (t.cols ≡ m.rows)
        × (t.n_dims ≡ m.n_dims)
        × ((row col : ℕ) → row < m.cols → col < m.rows → at t row col ≡ at m col row)
  unfolding transpose
  transpose_once m v e =
      let (t, run, w, r, c, d, cells) =
        for_each_lem m.cols m.rows m.n_dims (λ row col. at m col row)
          (two_dims m.cols m.rows m.n_dims e) (λ row col h k. at_within m col row v k h) in
      let test : (m.n_dims == 2) ≡ true = (==_iff m.n_dims 2).1 e in
      (t, rw test run, w, r, c, d, cells)

  -- A valid matrix of two dimensions can be transposed; the result is valid, has the extents swapped,
  -- and transposing it gives the matrix back.
  pub transpose-transpose :
      (m : Matrix A)
      → IsValid m
      → m.n_dims ≡ 2
      → (t : Matrix A) × (transpose m ≡ ok t)
        × IsValid t
        × (t.rows ≡ m.cols)
        × (t.cols ≡ m.rows)
        × (transpose t ≡ ok m)
  transpose-transpose m v e =
      let (t, run, w, r, c, d, cells) = transpose_once m v e in
      let (n, again, w', r', c', d', cells') = transpose_once t w (d ∙ e) in
      let er : n.rows ≡ m.rows = r' ∙ c in
      let ec : n.cols ≡ m.cols = c' ∙ r in
      let eb : n.buffer ≡ m.buffer =
        same_buffer m n v w' er ec
          (λ row col h k. cells' row col (rw c h) (rw r k) ∙ cells col row k h) in
      let same : n ≡ m =
        λ i. record { rows = er i; cols = ec i; n_dims = (d' ∙ d) i; buffer = eb i } in
      (t, run, w, r, c, again ∙ ap ok same)

  -- Asking to squeeze a selection of several rows and several columns of a matrix of two dimensions
  -- gives the error that should not be reached, whatever the elements are.
  pub get_item_not_reached :
      (m : Matrix A) (row_indices col_indices : List ℕ) (squeeze_row squeeze_col : Bool)
      → m.n_dims ≡ 2
      → 1 < length row_indices
      → 1 < length col_indices
      → (squeeze_row || squeeze_col) ≡ true
      → get_item m row_indices col_indices squeeze_row squeeze_col ≡ err not_reached
  unfolding get_item
  get_item_not_reached m rs cs true true e hr hc some_squeeze = ground arith
  get_item_not_reached m rs cs true false e hr hc some_squeeze = ground arith
  get_item_not_reached m rs cs false true e hr hc some_squeeze = ground arith
  get_item_not_reached m rs cs false false e hr hc some_squeeze = cc

  get_item_plain :
      (m : Matrix A) (rs cs : List ℕ)
      → m.n_dims ≡ 2
      → get_item m rs cs false false ≡ view m rs cs m.n_dims
  unfolding get_item
  get_item_plain m rs cs e =
      let one : (m.n_dims == 1) ≡ false = ground arith in
      let zero_dims : (m.n_dims == 0) ≡ false = ground arith in rw (one, zero_dims) refl

  -- Without squeezing, a selection of rows and columns of a valid matrix of two dimensions, by indices
  -- in their extents, is a valid matrix, and its element at i and j is that at the i-th row index and
  -- the j-th column index.
  pub get_item_view :
      (m : Matrix A) (rs cs : List ℕ) (i j r c : ℕ)
      → IsValid m
      → m.n_dims ≡ 2
      → AllBelow rs m.rows
      → AllBelow cs m.cols
      → i < length rs
      → j < length cs
      → read rs i ≡ ok r
      → read cs j ≡ ok c
      → (v : Matrix A) × (get_item m rs cs false false ≡ ok v)
        × IsValid v
        × (v.rows ≡ length rs)
        × (v.cols ≡ length cs)
        × (at v i j ≡ at m r c)
  unfolding view
  get_item_view m rs cs i j r c valid e hr hc hi hj ri cj =
      let (v, run, w, vr, vc, vd, cells) =
        for_each_lem (length rs) (length cs) m.n_dims
          (λ row col. read rs row >>= λ a. read cs col >>= λ b. at m a b)
          (two_dims (length rs) (length cs) m.n_dims e)
          (λ row col h k.
            let (a, ra, la) = hr row h in
            let (b, rb, lb) = hc col k in
            let (x, found) = at_within m a b valid la lb in (x, rw (ra, rb) found)) in
      (v, get_item_plain m rs cs e ∙ run, w, vr, vc, cells i j hi hj ∙ rw (ri, cj) refl)
