-- ===== src/MockPhe/Examples.antt =====
-- Items of mock_phe: an array of ciphertexts and an array of plaintexts.
use heu.Base.{ℕ, ◌+◌, ◌≡◌, refl, [], ◌∷◌, ok, arith}
use heu.Base.Int.{ℤ, pos, negsuc, pos_part, neg_part, neg_ℤ, ◌+ℤ◌, ◌-ℤ◌}
use heu.Spi.Batch.{Content, many}
use heu.Spi.Words as S
use heu.Spi.Words.{Item, plaintext, ciphertext}
use heu.Spi.Words.Vectors.{Agrees, Pointwise, Holding, combine}
use heu.Spi.Words.Refinement.{HoldsItem, add_sub-Agrees, add_sub_inplace-Agrees}
use heu.MockPhe.{Ciphertext, decrypt}
use heu.MockPhe.Homomorphic.{evaluator, Fits, Same, Of, evaluator-IsScheme}

-- A size that is the same for opposite numbers.
abbrev size : ℤ → ℕ
size x = pos_part x + neg_part x

size-neg_ℤ : (x : ℤ) → size (neg_ℤ x) ≡ size x
size-neg_ℤ x = ground arith

abbrev ciphers : Item ℤ Ciphertext
ciphers = ciphertext (many (record { bn = pos 3 } ∷ record { bn = negsuc 4 } ∷ []))

abbrev plains : Item ℤ Ciphertext
plains = plaintext (many (pos 2 ∷ pos 7 ∷ []))

ciphers-HoldsItem :
    HoldsItem (Fits size 8 size-neg_ℤ) (Of size 8 size-neg_ℤ) (many (pos 3 ∷ negsuc 4 ∷ [])) ciphers
unfolding HoldsItem Holding Pointwise decrypt
ciphers-HoldsItem = (refl, (refl, tt))

plains-HoldsItem :
    HoldsItem (Fits size 8 size-neg_ℤ) (Of size 8 size-neg_ℤ) (many (pos 2 ∷ pos 7 ∷ [])) plains
unfolding HoldsItem Holding Pointwise
plains-HoldsItem = ((refl, omega arith), ((refl, omega arith), tt))

add_sub-Agrees_example :
    Agrees
      (HoldsItem (Same size 8 size-neg_ℤ) (Of size 8 size-neg_ℤ))
      (combine (λ m k. m +ℤ k) (many (pos 3 ∷ negsuc 4 ∷ [])) (many (pos 2 ∷ pos 7 ∷ [])))
      (S.add (evaluator size 8 size-neg_ℤ) ciphers plains)
    × Agrees
        (HoldsItem (Same size 8 size-neg_ℤ) (Of size 8 size-neg_ℤ))
        (combine (λ m k. m -ℤ k) (many (pos 3 ∷ negsuc 4 ∷ [])) (many (pos 2 ∷ pos 7 ∷ [])))
        (S.sub (evaluator size 8 size-neg_ℤ) ciphers plains)
add_sub-Agrees_example =
    add_sub-Agrees (evaluator size 8 size-neg_ℤ) (Fits size 8 size-neg_ℤ) (Same size 8 size-neg_ℤ)
      (Of size 8 size-neg_ℤ) (evaluator-IsScheme size 8 size-neg_ℤ) (many (pos 3 ∷ negsuc 4 ∷ []))
      (many (pos 2 ∷ pos 7 ∷ [])) ciphers plains ciphers-HoldsItem plains-HoldsItem

ciphers-Holding :
    Holding
      (Of size 8 size-neg_ℤ)
      (many (pos 3 ∷ negsuc 4 ∷ []))
      (many (record { bn = pos 3 } ∷ record { bn = negsuc 4 } ∷ []))
unfolding Holding Pointwise decrypt
ciphers-Holding = (refl, (refl, tt))

add_sub_inplace-Agrees_example :
    Agrees
      (HoldsItem (Same size 8 size-neg_ℤ) (Of size 8 size-neg_ℤ))
      (combine (λ m k. m +ℤ k) (many (pos 3 ∷ negsuc 4 ∷ [])) (many (pos 2 ∷ pos 7 ∷ [])))
      (S.add_inplace (evaluator size 8 size-neg_ℤ) ciphers plains)
    × Agrees
        (HoldsItem (Same size 8 size-neg_ℤ) (Of size 8 size-neg_ℤ))
        (combine (λ m k. m -ℤ k) (many (pos 3 ∷ negsuc 4 ∷ [])) (many (pos 2 ∷ pos 7 ∷ [])))
        (S.sub_inplace (evaluator size 8 size-neg_ℤ) ciphers plains)
    × ((p : Content ℤ)
        → S.add_inplace (evaluator size 8 size-neg_ℤ) (plaintext p) plains ≡ ok (plaintext p))
    × ((p : Content ℤ)
        → S.sub_inplace (evaluator size 8 size-neg_ℤ) (plaintext p) plains ≡ ok (plaintext p))
add_sub_inplace-Agrees_example =
    add_sub_inplace-Agrees (evaluator size 8 size-neg_ℤ) (Fits size 8 size-neg_ℤ)
      (Same size 8 size-neg_ℤ) (Of size 8 size-neg_ℤ) (evaluator-IsScheme size 8 size-neg_ℤ)
      (many (pos 3 ∷ negsuc 4 ∷ [])) (many (pos 2 ∷ pos 7 ∷ []))
      (many (record { bn = pos 3 } ∷ record { bn = negsuc 4 } ∷ [])) plains ciphers-Holding
      plains-HoldsItem
