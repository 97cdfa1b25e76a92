-- ===== src/Numpy/Tabulate.antt =====
-- Matrices whose elements are computed one by one.
use heu.Base.{
  ℕ, zero, suc, ◌+◌, ◌*◌, ◌/◌, ◌%◌, ◌<◌, ◌≤◌, ◌≡◌, refl, sym, ap, ◌∙◌, List, [], ◌∷◌, length,
  Result, ok, arith,
}
use native.Mathlib.Decide.{dec_lt}
use native.Mathlib.Nat.{
  mul-le-mul_right, add-mul-mod_self_left, mod-eq_of_lt, add-mul-div_right, div-eq_of_lt,
  div-lt_iff_lt-mul, mod-lt, mul_comm,
}
use heu.Numpy.Matrix.{Matrix, check_dims, read, tabulate, at, for_each}

module _ {ℓ} {A : Type ℓ} where
  pub read_within : (xs : List A) (i : ℕ) → i < length xs → (a : A) × (read xs i ≡ ok a)
  unfolding read
  read_within [] i h = absurd (omega arith)
  read_within (x ∷ xs) zero h = (x, refl)
  read_within (x ∷ xs) (suc i) h = read_within xs i (omega arith)

  tabulate_lem :
      (n from : ℕ) (f : ℕ → Result A)
      → ((i : ℕ) → from ≤ i → i < from + n → (a : A) × (f i ≡ ok a))
      → (xs : List A) × (tabulate n from f ≡ ok xs)
        × (length xs ≡ n)
        × ((i : ℕ) → i < n → read xs i ≡ f (from + i))
  unfolding tabulate
  tabulate_lem zero from f e = ([], refl, refl, λ i lt. absurd (omega arith))
  tabulate_lem (suc n) from f e =
      let (xs, run, size, cells) =
        tabulate_lem n (from + 1) f (λ i lo hi. e i (omega arith) (omega arith)) in
      let (x, first) = e from (omega arith) (omega arith) in
      (x ∷ xs, rw (first, run) refl, ap suc size, cell x xs first cells)
    where
      cell :
          (x : A) (xs : List A)
          → f from ≡ ok x
          → ((i : ℕ) → i < n → read xs i ≡ f (from + 1 + i))
          → (i : ℕ) → i < suc n
          → read (x ∷ xs) i ≡ f (from + i)
      cell x xs first cells zero lt =
          let e : from ≡ from + 0 = omega arith in unfold read in (sym first ∙ ap f e)
      cell x xs first cells (suc i) lt =
          let e : from + 1 + i ≡ from + suc i = omega arith in
          unfold read in (cells i (omega arith) ∙ ap f e)

-- Positions in a buffer by columns.
pub position-lt : (rows cols row col : ℕ) → row < rows → col < cols → col * rows + row < rows * cols
position-lt rows cols row col h k =
    let below : suc col * rows ≤ cols * rows = mul-le-mul_right rows k in omega arith

pub position_row : (rows row col : ℕ) → row < rows → (col * rows + row) % rows ≡ row
position_row rows row col h =
    ap (λ k. k % rows) (shuffle rows) ∙ (add-mul-mod_self_left row rows col ∙ mod-eq_of_lt h)
  where
    shuffle : (n : ℕ) → col * n + row ≡ row + n * col
    shuffle n = omega arith

pub position_col : (rows row col : ℕ) → row < rows → (col * rows + row) / rows ≡ col
position_col rows row col h =
    ap (λ k. k / rows) (shuffle rows)
    ∙ (add-mul-div_right row col (omega arith) ∙ omega (arith, div-eq_of_lt h))
  where
    shuffle : (n : ℕ) → col * n + row ≡ row + col * n
    shuffle n = omega arith

pub position_split : (rows cols i : ℕ) → i < rows * cols → (i % rows < rows) × (i / rows < cols)
position_split rows cols i h = elim (dec_lt 0 rows) [
  | yes p ↦ (mod-lt i p, (div-lt_iff_lt-mul p).1 (omega (arith, mul_comm rows cols)))
  | no p ↦ let z : rows ≡ 0 = omega arith in absurd (omega (arith, ap (λ (t : ℕ). t * cols) z))
]

-- What a matrix holds is what its constructor lets through.
pub record IsValid {ℓ} {A : Type ℓ} (m : Matrix A) : Type ℓ where
  pub filled : length m.buffer ≡ m.rows * m.cols
  pub dims : check_dims m.rows m.cols m.n_dims ≡ ok tt

module _ {ℓ} {A : Type ℓ} where
  -- Inside a valid matrix every element can be read.
  pub at_within :
      (m : Matrix A) (row col : ℕ)
      → IsValid m
      → row < m.rows
      → col < m.cols
      → (a : A) × (at m row col ≡ ok a)
  unfolding at
  at_within m row col v h k =
      read_within m.buffer (col * m.rows + row)
        (omega (arith, v.filled, position-lt m.rows m.cols row col h k))

  -- Where the dimensions are allowed and each element is defined, the new matrix is valid, has
  -- the dimensions and holds the elements.
  pub for_each_lem :
      (rows cols n_dims : ℕ) (update : ℕ → ℕ → Result A)
      → check_dims rows cols n_dims ≡ ok tt
      → ((row col : ℕ) → row < rows → col < cols → (a : A) × (update row col ≡ ok a))
      → (m : Matrix A) × (for_each rows cols n_dims update ≡ ok m)
        × IsValid m
        × (m.rows ≡ rows)
        × (m.cols ≡ cols)
        × (m.n_dims ≡ n_dims)
        × ((row col : ℕ) → row < rows → col < cols → at m row col ≡ update row col)
  unfolding for_each at
  for_each_lem rows cols n_dims update good e =
      let (cells, run, size, entry) =
        tabulate_lem (rows * cols) 0 (λ i. update (i % rows) (i / rows))
          (λ i lo hi.
            let (r, c) = position_split rows cols i (omega arith) in e (i % rows) (i / rows) r c) in
      (
        record { rows = rows; cols = cols; n_dims = n_dims; buffer = cells },
        rw (good, run) refl,
        record { filled = size; dims = good },
        refl,
        refl,
        refl,
        λ row col h k.
            entry (col * rows + row) (position-lt rows cols row col h k) ∙ place rows row col h,
      )
    where
      place :
          (n row col : ℕ)
          → row < n
          → update ((0 + (col * n + row)) % n) ((0 + (col * n + row)) / n) ≡ update row col
      place n row col h =
          let e : 0 + (col * n + row) ≡ col * n + row = omega arith in
          rw (e, position_row n row col h, position_col n row col h) refl
