-- ===== src/MockFhe/Pipeline.antt =====
-- Mock BFV end to end: encode, encrypt, evaluate, decrypt, decode.
use heu.Base.{
  ℕ, zero, suc, ◌-◌, ◌≤◌, ◌≡◌, refl, sym, ap, ap₂, ◌∙◌, true, List, [], ◌∷◌, ◌++◌, length,
  replicate, zip_with, ==_refl, Result, ok, ◌>>=◌, arith,
}
use heu.Base.Words.{mul64, add64, zero-mul64}
use heu.MockFhe.Objects.{Double, MockObj, encrypt, decrypt}
use heu.MockFhe.Evaluator.{Evaluator, is_bfv, add}
use heu.MockFhe.Multiply.Defs.{do_mul, mul}
use heu.MockFhe.Multiply.Arrays.{length-zip_with}
use heu.MockFhe.Encoders.{batch_encode, batch_decode}
use heu.MockFhe.Encoders.RoundTrip.{padded, length-padded, batch_encode-padded, batch_decode_full}

-- Both messages in one ciphertext each, an operation on the two, and the result read back.
abbrev pub evaluate_encrypted :
    {F : Type 0}
    → Double F
    → ℕ
    → (MockObj F → MockObj F → Result (MockObj F))
    → List ℕ
    → List ℕ
    → List ℕ
    → Result (List ℕ)
evaluate_encrypted d n operation x y out = do
  px ← batch_encode d n x
  py ← batch_encode d n y
  cx ← encrypt n px
  cy ← encrypt n py
  c ← operation cx cy
  batch_decode n (decrypt c) out

zip-append :
    (f : ℕ → ℕ → ℕ) (x y u v : List ℕ)
    → length x ≡ length y
    → zip_with f (x ++ u) (y ++ v) ≡ zip_with f x y ++ zip_with f u v
zip-append f [] [] u v e = refl
zip-append f [] (b ∷ y) u v e = absurd (omega arith)
zip-append f (a ∷ x) [] u v e = absurd (omega arith)
zip-append f (a ∷ x) (b ∷ y) u v e = ap (◌∷◌ (f a b)) (zip-append f x y u v (omega arith))

zip-replicate :
    (f : ℕ → ℕ → ℕ) (k : ℕ) → f 0 0 ≡ 0 → zip_with f (replicate k 0) (replicate k 0) ≡ replicate k 0
zip-replicate f zero z = refl
zip-replicate f (suc k) z = ap₂ ◌∷◌ z (zip-replicate f k z)

-- The padding of two messages of one length is the padding of the result.
zip-padded :
    (f : ℕ → ℕ → ℕ) (n : ℕ) (x y : List ℕ)
    → f 0 0 ≡ 0
    → length x ≡ length y
    → zip_with f (padded n x) (padded n y) ≡ padded n (zip_with f x y)
zip-padded f n x y z e =
    zip-append f x y (replicate (n - length x) 0) (replicate (n - length y) 0) e
    ∙ ap (◌++◌ (zip_with f x y)) (
        ap (λ k. zip_with f (replicate (n - length x) 0) (replicate (n - k) 0)) (sym e)
        ∙ (zip-replicate f (n - length x) z
            ∙ ap (λ k. replicate (n - k) 0) (sym (length-zip_with f x y e))))

encrypt_full : {F : Type 0} (n : ℕ) (m : MockObj F) → length m.array ≡ n → encrypt n m ≡ ok m
unfolding encrypt
encrypt_full n m h = rw (h, ==_refl n) refl

module _ {F : Type 0} (d : Double F) (n : ℕ) (x y out : List ℕ) where
  -- Any operation that works entry by entry on full vectors does so through the encryption.
  pointwise :
      (operation : MockObj F → MockObj F → Result (MockObj F)) (f : ℕ → ℕ → ℕ) (s : F)
      → f 0 0 ≡ 0
      → ((a b : MockObj F)
          → length a.array ≡ length b.array
          → a.scale ≡ d.one
          → b.scale ≡ d.one
          → operation a b ≡ ok (record { array = zip_with f a.array b.array; scale = s }))
      → length x ≡ length y
      → length x ≤ n
      → length out ≡ n
      → evaluate_encrypted d n operation x y out ≡ ok (padded n (zip_with f x y))
  pointwise operation f s z op e h k =
      let px : MockObj F = record { array = padded n x; scale = d.one } in
      let py : MockObj F = record { array = padded n y; scale = d.one } in
      let hx : length px.array ≡ n = length-padded n x h in
      let hy : length py.array ≡ n = length-padded n y (omega arith) in
      rw
        (
          batch_encode-padded d n x h,
          batch_encode-padded d n y (omega arith),
          encrypt_full n px hx,
          encrypt_full n py hy,
          op px py (hx ∙ sym hy) refl refl,
        )
        (unfold decrypt in
          (batch_decode_full d n
              (record { array = zip_with f (padded n x) (padded n y); scale = s }) out
              (length-zip_with f (padded n x) (padded n y) (hx ∙ sym hy) ∙ hx) k
            ∙ ap ok (zip-padded f n x y z e)))

  -- With BFV, the product of two encrypted messages of one length, at most the degree, decrypts and
  -- decodes to their products entry by entry, with zeros up to the degree.
  pub evaluate_encrypted-mul :
      (e : Evaluator)
      → is_bfv e.schema ≡ true
      → length x ≡ length y
      → length x ≤ n
      → length out ≡ n
      → evaluate_encrypted d n (mul d e) x y out ≡ ok (padded n (zip_with mul64 x y))
  evaluate_encrypted-mul e bfv =
      pointwise (mul d e) mul64 d.one (zero-mul64 0)
        (λ a b same p q. unfold mul do_mul in (simp (same, ==_refl, bfv) refl))

  -- Likewise the sum, where the equal scales pass the test of nearness.
  pub evaluate_encrypted-add :
      d.near d.one d.one ≡ true
      → length x ≡ length y
      → length x ≤ n
      → length out ≡ n
      → evaluate_encrypted d n (add d) x y out ≡ ok (padded n (zip_with add64 x y))
  evaluate_encrypted-add near =
      pointwise (add d) add64 (d.mean d.one d.one) zero
        (λ a b same p q. unfold add in (simp (same, ==_refl, p, q, near) refl))
    where
      zero : add64 0 0 ≡ 0
      zero = unfold add64 in refl
