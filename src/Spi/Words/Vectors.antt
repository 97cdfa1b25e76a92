-- ===== src/Spi/Words/Vectors.antt =====
-- The loops over items, against the operations on vectors of integers.
use heu.Base.{
  suc, ◌≡◌, refl, ap, List, [], ◌∷◌, length, ◌==◌, Result, ok, err, ◌>>◌, enforce, Bool-cases, inl,
  inr,
}
use heu.Base.{shape_error, not_supported}
use heu.Base.Int.{ℤ}
use heu.Spi.Batch.{Content, single, many}
use heu.Spi.Words.{for_each_2, call_binary}

-- A result of the operations that stands for a result on integers.
abbrev pub Agrees : {V Z : Type 0} → (V → Z → Type 0) → Result V → Result Z → Type 0
Agrees R (ok v) (ok z) = R v z
Agrees R (err e) (err f) = e ≡ f
Agrees R (ok v) (err f) = ⊥
Agrees R (err e) (ok z) = ⊥

module _ {V Z : Type 0} (R : V → Z → Type 0) where
  unfoldable pub Pointwise : List V → List Z → Type 0
  Pointwise [] [] = Unit
  Pointwise (v ∷ vs) (z ∷ zs) = R v z × Pointwise vs zs
  Pointwise [] (z ∷ zs) = ⊥
  Pointwise (v ∷ vs) [] = ⊥

  -- A scalar or an array of the same length.
  unfoldable pub Holding : Content V → Content Z → Type 0
  unfolding Pointwise
  Holding (single v) (single z) = R v z
  Holding (many vs) (many zs) = Pointwise vs zs
  Holding (single v) (many zs) = ⊥
  Holding (many vs) (single z) = ⊥

  Pointwise-length : (vs : List V) (zs : List Z) → Pointwise vs zs → length vs ≡ length zs
  unfolding Pointwise
  Pointwise-length [] [] h = refl
  Pointwise-length (v ∷ vs) (z ∷ zs) h = ap suc (Pointwise-length vs zs h.1)
  Pointwise-length [] (z ∷ zs) h = absurd h
  Pointwise-length (v ∷ vs) [] h = absurd h

-- The operation on integers: entry by entry, on arrays of the same length.
unfoldable pub zip : (ℤ → ℤ → ℤ) → List ℤ → List ℤ → List ℤ
zip g [] ws = []
zip g (v ∷ vs) [] = []
zip g (v ∷ vs) (w ∷ ws) = g v w ∷ zip g vs ws

unfoldable pub combine : (ℤ → ℤ → ℤ) → Content ℤ → Content ℤ → Result (Content ℤ)
unfolding zip
combine g (single v) (single w) = ok (single (g v w))
combine g (many vs) (many ws) = do
  enforce (length vs == length ws) shape_error
  ok (many (zip g vs ws))
combine g (single v) (many ws) = err not_supported
combine g (many vs) (single w) = err not_supported

module _ {A B R : Type 0} (f : A → B → Result R) (g : ℤ → ℤ → ℤ) (In : ℤ → A → Type 0)
    (Other : ℤ → B → Type 0) (Out : ℤ → R → Type 0)
    (each : (v w : ℤ) (x : A) (y : B)
      → In v x
      → Other w y
      → (z : R) × (f x y ≡ ok z) × Out (g v w) z) where
  for_each_2-zip :
      (vs ws : List ℤ) (xs : List A) (ys : List B)
      → Pointwise In vs xs
      → Pointwise Other ws ys
      → (zs : List R) × (for_each_2 f xs ys ≡ ok zs) × Pointwise Out (zip g vs ws) zs
  unfolding for_each_2 zip Pointwise
  for_each_2-zip [] ws [] ys h k = ([], refl, tt)
  for_each_2-zip (v ∷ vs) [] (x ∷ xs) [] h k = ([], refl, tt)
  for_each_2-zip (v ∷ vs) (w ∷ ws) (x ∷ xs) (y ∷ ys) h k =
      let (z, is_z, held) = each v w x y h.0 k.0 in
      let (zs, are, rest) = for_each_2-zip vs ws xs ys h.1 k.1 in
      (z ∷ zs, rw (is_z, are) refl, (held, rest))
  for_each_2-zip [] ws (x ∷ xs) ys h k = absurd h
  for_each_2-zip (v ∷ vs) ws [] ys h k = absurd h
  for_each_2-zip (v ∷ vs) [] (x ∷ xs) (y ∷ ys) h k = absurd k
  for_each_2-zip (v ∷ vs) (w ∷ ws) (x ∷ xs) [] h k = absurd k

  pub call_binary-combine :
      (v w : Content ℤ) (x : Content A) (y : Content B)
      → Holding In v x
      → Holding Other w y
      → Agrees (Holding Out) (combine g v w) (call_binary f x y)
  unfolding call_binary combine Holding
  call_binary-combine (single v) (single w) (single x) (single y) h k =
      let (z, is_z, held) = each v w x y h k in rw is_z held
  call_binary-combine (many vs) (many ws) (many xs) (many ys) h k =
      let (zs, are, held) = for_each_2-zip vs ws xs ys h k in
      let first = Pointwise-length In vs xs h in
      let second = Pointwise-length Other ws ys k in
      elim (Bool-cases (length xs == length ys)) [
        | inl same ↦ rw (first, second, same, are) held
        | inr differ ↦ rw (first, second, differ) refl
      ]
  call_binary-combine (single v) (many ws) (single x) (many ys) h k = refl
  call_binary-combine (many vs) (single w) (many xs) (single y) h k = refl
  call_binary-combine (single v) w (many xs) y h k = absurd h
  call_binary-combine (many vs) w (single x) y h k = absurd h
  call_binary-combine (single v) (single w) (single x) (many ys) h k = absurd k
  call_binary-combine (single v) (many ws) (single x) (single y) h k = absurd k
  call_binary-combine (many vs) (single w) (many xs) (many ys) h k = absurd k
  call_binary-combine (many vs) (many ws) (many xs) (single y) h k = absurd k
