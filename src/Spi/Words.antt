-- ===== src/Spi/Words.antt =====
-- heu/spi/he/sketches/scalar/word_evaluator.h and helpful_macros.h: the operations on items, by the
-- scheme's operations on one plaintext or ciphertext. The elements of an array are computed in order;
-- items that hold neither plaintexts nor ciphertexts are left out.
pub mod Vectors
pub mod Refinement
use heu.Base.{ℕ, Bool, List, [], ◌∷◌, length, ◌==◌, Result, ok, err, ◌>>=◌, ◌>>◌, enforce}
use heu.Base.{shape_error, not_supported}
use heu.Spi.Batch.{Content, single, many}

-- What a scheme implements, on plaintexts P and ciphertexts C.
pub record WordOps (P C : Type 0) : Type 0 where
  pub negate_p : P → Result P
  pub negate_c : C → Result C
  pub add_pp : P → P → Result P
  pub add_cp : C → P → Result C
  pub add_cc : C → C → Result C
  pub add_inplace_cp : C → P → Result C
  pub add_inplace_cc : C → C → Result C
  pub mul_pp : P → P → Result P
  pub mul_cp : C → P → Result C
  pub mul_cc : C → C → Result C

pub data Item (P C : Type 0) : Type 0 where
  plaintext : Content P → Item P C
  ciphertext : Content C → Item P C

module _ {A B : Type 0} (f : A → Result B) where
  unfoldable pub for_each : List A → Result (List B)
  for_each [] = ok []
  for_each (x ∷ xs) = do y ← f x; ys ← for_each xs; ok (y ∷ ys)

  unfoldable pub call_unary : Content A → Result (Content B)
  call_unary (single x) = do y ← f x; ok (single y)
  call_unary (many xs) = do ys ← for_each xs; ok (many ys)

module _ {A B R : Type 0} (f : A → B → Result R) where
  unfoldable pub for_each_2 : List A → List B → Result (List R)
  for_each_2 [] ys = ok []
  for_each_2 (x ∷ xs) [] = ok []
  for_each_2 (x ∷ xs) (y ∷ ys) = do z ← f x y; zs ← for_each_2 xs ys; ok (z ∷ zs)

  unfoldable pub call_binary : Content A → Content B → Result (Content R)
  call_binary (single x) (single y) = do z ← f x y; ok (single z)
  call_binary (many xs) (many ys) = do
    enforce (length xs == length ys) shape_error
    zs ← for_each_2 xs ys
    ok (many zs)
  call_binary (single x) (many ys) = err not_supported
  call_binary (many xs) (single y) = err not_supported

module _ {P C : Type 0} where
  abbrev plain_item : Result (Content P) → Result (Item P C)
  plain_item r = r >>= λ x. ok (plaintext x)

  abbrev cipher_item : Result (Content C) → Result (Item P C)
  cipher_item r = r >>= λ x. ok (ciphertext x)

  -- DefineBinaryFunc
  unfoldable pub binary :
      (P → P → Result P)
      → (P → C → Result C)
      → (C → P → Result C)
      → (C → C → Result C)
      → Item P C
      → Item P C
      → Result (Item P C)
  unfolding call_binary
  binary pp pc cp cc (ciphertext x) (ciphertext y) = cipher_item (call_binary cc x y)
  binary pp pc cp cc (ciphertext x) (plaintext y) = cipher_item (call_binary cp x y)
  binary pp pc cp cc (plaintext x) (ciphertext y) = cipher_item (call_binary pc x y)
  binary pp pc cp cc (plaintext x) (plaintext y) = plain_item (call_binary pp x y)

  -- DefineBinaryInplaceFunc, which gives what the first item is afterwards: a plaintext stays as it is.
  unfoldable pub binary_inplace :
      (C → P → Result C) → (C → C → Result C) → Item P C → Item P C → Result (Item P C)
  unfolding call_binary
  binary_inplace cp cc (ciphertext x) (ciphertext y) = cipher_item (call_binary cc x y)
  binary_inplace cp cc (ciphertext x) (plaintext y) = cipher_item (call_binary cp x y)
  binary_inplace cp cc (plaintext x) y = ok (plaintext x)

  module _ (s : WordOps P C) where
    abbrev pub sub_pp : P → P → Result P
    sub_pp x y = s.negate_p y >>= λ z. s.add_pp x z

    abbrev pub sub_pc : P → C → Result C
    sub_pc x y = s.negate_c y >>= λ z. s.add_cp z x

    abbrev pub sub_cp : C → P → Result C
    sub_cp x y = s.negate_p y >>= λ z. s.add_cp x z

    abbrev pub sub_cc : C → C → Result C
    sub_cc x y = s.negate_c y >>= λ z. s.add_cc x z

    abbrev pub sub_inplace_cp : C → P → Result C
    sub_inplace_cp x y = s.negate_p y >>= λ z. s.add_inplace_cp x z

    abbrev pub sub_inplace_cc : C → C → Result C
    sub_inplace_cc x y = s.negate_c y >>= λ z. s.add_inplace_cc x z

    unfoldable pub negate : Item P C → Result (Item P C)
    unfolding call_unary
    negate (ciphertext x) = cipher_item (call_unary s.negate_c x)
    negate (plaintext x) = plain_item (call_unary s.negate_p x)

    unfoldable pub add : Item P C → Item P C → Result (Item P C)
    add = binary s.add_pp (λ x y. s.add_cp y x) s.add_cp s.add_cc

    unfoldable pub add_inplace : Item P C → Item P C → Result (Item P C)
    add_inplace = binary_inplace s.add_inplace_cp s.add_inplace_cc

    unfoldable pub sub : Item P C → Item P C → Result (Item P C)
    sub = binary sub_pp sub_pc sub_cp sub_cc

    unfoldable pub sub_inplace : Item P C → Item P C → Result (Item P C)
    sub_inplace = binary_inplace sub_inplace_cp sub_inplace_cc

    unfoldable pub mul : Item P C → Item P C → Result (Item P C)
    mul = binary s.mul_pp (λ x y. s.mul_cp y x) s.mul_cp s.mul_cc
