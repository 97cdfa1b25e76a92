-- ===== src/Spi/Words/Refinement.antt =====
-- The operations on items compute on the vectors of integers that the items hold, errors included.
use heu.Base.{◌≡◌, refl, Result, ok, err, ◌>>=◌}
use heu.Base.Int.{ℤ, neg_ℤ, ◌+ℤ◌, ◌-ℤ◌}
use heu.Base.Int.Ring.{add_comm}
use heu.Paillier.Scheme.Values.{sub_opposite}
use heu.Paillier.Scheme.Runs.{opposite_plus}
use heu.Spi.Batch.{Content}
use heu.Spi.Words as S
use heu.Spi.Words.{
  WordOps, Item, plaintext, ciphertext, for_each, for_each_2, call_unary, call_binary, binary,
  binary_inplace, sub_pp, sub_pc, sub_cp, sub_cc, sub_inplace_cp, sub_inplace_cc,
}
use heu.Spi.Words.Vectors.{Agrees, Holding, combine, call_binary-combine}

-- What a scheme promises of its operations: they succeed and compute on the integers that plaintexts
-- and ciphertexts stand for. `InP` holds of the plaintexts that the operations accept.
pub record IsScheme {P C : Type 0} (s : WordOps P C) (InP OutP : ℤ → P → Type 0)
    (Of : ℤ → C → Type 0) : Type 0 where
  pub negate_p_is : (m : ℤ) (x : P) → InP m x → (z : P) × (s.negate_p x ≡ ok z) × InP (neg_ℤ m) z
  pub negate_c_is : (m : ℤ) (x : C) → Of m x → (z : C) × (s.negate_c x ≡ ok z) × Of (neg_ℤ m) z
  pub add_pp_is :
      (m k : ℤ) (x y : P) → InP m x → InP k y → (z : P) × (s.add_pp x y ≡ ok z) × OutP (m +ℤ k) z
  pub add_cp_is :
      (m k : ℤ) (x : C) (y : P) → Of m x → InP k y → (z : C) × (s.add_cp x y ≡ ok z) × Of (m +ℤ k) z
  pub add_cc_is :
      (m k : ℤ) (x y : C) → Of m x → Of k y → (z : C) × (s.add_cc x y ≡ ok z) × Of (m +ℤ k) z
  pub add_inplace_cp_is :
      (m k : ℤ) (x : C) (y : P)
      → Of m x
      → InP k y
      → (z : C) × (s.add_inplace_cp x y ≡ ok z) × Of (m +ℤ k) z
  pub add_inplace_cc_is :
      (m k : ℤ) (x y : C)
      → Of m x
      → Of k y
      → (z : C) × (s.add_inplace_cc x y ≡ ok z) × Of (m +ℤ k) z

module _ {P C : Type 0} (InP : ℤ → P → Type 0) (Of : ℤ → C → Type 0) where
  -- The item holds the integers.
  unfoldable pub HoldsItem : Content ℤ → Item P C → Type 0
  unfolding Holding
  HoldsItem v (plaintext x) = Holding InP v x
  HoldsItem v (ciphertext x) = Holding Of v x

  plain-Agrees :
      (r : Result (Content ℤ)) (t : Result (Content P))
      → Agrees (Holding InP) r t
      → Agrees HoldsItem r (t >>= λ x. ok (plaintext x))
  unfolding HoldsItem
  plain-Agrees (ok v) (ok x) h = h
  plain-Agrees (err e) (err f) h = h
  plain-Agrees (ok v) (err f) h = absurd h
  plain-Agrees (err e) (ok x) h = absurd h

  cipher-Agrees :
      (r : Result (Content ℤ)) (t : Result (Content C))
      → Agrees (Holding Of) r t
      → Agrees HoldsItem r (t >>= λ x. ok (ciphertext x))
  unfolding HoldsItem
  cipher-Agrees (ok v) (ok x) h = h
  cipher-Agrees (err e) (err f) h = h
  cipher-Agrees (ok v) (err f) h = absurd h
  cipher-Agrees (err e) (ok x) h = absurd h

module _ {P C : Type 0} (s : WordOps P C) (InP OutP : ℤ → P → Type 0) (Of : ℤ → C → Type 0)
    (laws : IsScheme s InP OutP Of) where
  -- Add of two items.
  add-Agrees :
      (v w : Content ℤ) (x y : Item P C)
      → HoldsItem InP Of v x
      → HoldsItem InP Of w y
      → Agrees (HoldsItem OutP Of) (combine (λ m k. m +ℤ k) v w) (S.add s x y)
  unfolding S.add binary HoldsItem
  add-Agrees v w (plaintext x) (plaintext y) h k =
      plain-Agrees OutP Of _ _
        (call_binary-combine s.add_pp (λ m k. m +ℤ k) InP InP OutP laws.add_pp_is v w x y h k)
  add-Agrees v w (plaintext x) (ciphertext y) h k = cipher-Agrees OutP Of _ _ (
      call_binary-combine (λ x y. s.add_cp y x) (λ m k. m +ℤ k) InP Of Of
        (λ m k x y f g. rw (add_comm m k) (laws.add_cp_is k m y x g f)) v w x y h k)
  add-Agrees v w (ciphertext x) (plaintext y) h k =
      cipher-Agrees OutP Of _ _
        (call_binary-combine s.add_cp (λ m k. m +ℤ k) Of InP Of laws.add_cp_is v w x y h k)
  add-Agrees v w (ciphertext x) (ciphertext y) h k =
      cipher-Agrees OutP Of _ _
        (call_binary-combine s.add_cc (λ m k. m +ℤ k) Of Of Of laws.add_cc_is v w x y h k)

  sub_cc_is :
      (m k : ℤ) (x y : C) → Of m x → Of k y → (z : C) × (sub_cc s x y ≡ ok z) × Of (m -ℤ k) z
  sub_cc_is m k x y f g =
      let (z, ran, held) = laws.negate_c_is k y g in
      rw (ran, ← sub_opposite m k) (laws.add_cc_is m (neg_ℤ k) x z f held)

  sub_cp_is :
      (m k : ℤ) (x : C) (y : P) → Of m x → InP k y → (z : C) × (sub_cp s x y ≡ ok z) × Of (m -ℤ k) z
  sub_cp_is m k x y f g =
      let (z, ran, held) = laws.negate_p_is k y g in
      rw (ran, ← sub_opposite m k) (laws.add_cp_is m (neg_ℤ k) x z f held)

  sub_pc_is :
      (m k : ℤ) (x : P) (y : C) → InP m x → Of k y → (z : C) × (sub_pc s x y ≡ ok z) × Of (m -ℤ k) z
  sub_pc_is m k x y f g =
      let (z, ran, held) = laws.negate_c_is k y g in
      rw (ran, ← opposite_plus k m) (laws.add_cp_is (neg_ℤ k) m z x held f)

  sub_pp_is :
      (m k : ℤ) (x y : P) → InP m x → InP k y → (z : P) × (sub_pp s x y ≡ ok z) × OutP (m -ℤ k) z
  sub_pp_is m k x y f g =
      let (z, ran, held) = laws.negate_p_is k y g in
      rw (ran, ← sub_opposite m k) (laws.add_pp_is m (neg_ℤ k) x z f held)

  -- Sub of two items, of which the sketch makes negation and addition.
  sub-Agrees :
      (v w : Content ℤ) (x y : Item P C)
      → HoldsItem InP Of v x
      → HoldsItem InP Of w y
      → Agrees (HoldsItem OutP Of) (combine (λ m k. m -ℤ k) v w) (S.sub s x y)
  unfolding S.sub binary HoldsItem
  sub-Agrees v w (plaintext x) (plaintext y) h k =
      plain-Agrees OutP Of _ _
        (call_binary-combine (sub_pp s) (λ m k. m -ℤ k) InP InP OutP sub_pp_is v w x y h k)
  sub-Agrees v w (plaintext x) (ciphertext y) h k =
      cipher-Agrees OutP Of _ _
        (call_binary-combine (sub_pc s) (λ m k. m -ℤ k) InP Of Of sub_pc_is v w x y h k)
  sub-Agrees v w (ciphertext x) (plaintext y) h k =
      cipher-Agrees OutP Of _ _
        (call_binary-combine (sub_cp s) (λ m k. m -ℤ k) Of InP Of sub_cp_is v w x y h k)
  sub-Agrees v w (ciphertext x) (ciphertext y) h k =
      cipher-Agrees OutP Of _ _
        (call_binary-combine (sub_cc s) (λ m k. m -ℤ k) Of Of Of sub_cc_is v w x y h k)

  sub_inplace_cc_is :
      (m k : ℤ) (x y : C)
      → Of m x
      → Of k y
      → (z : C) × (sub_inplace_cc s x y ≡ ok z) × Of (m -ℤ k) z
  sub_inplace_cc_is m k x y f g =
      let (z, ran, held) = laws.negate_c_is k y g in
      rw (ran, ← sub_opposite m k) (laws.add_inplace_cc_is m (neg_ℤ k) x z f held)

  sub_inplace_cp_is :
      (m k : ℤ) (x : C) (y : P)
      → Of m x
      → InP k y
      → (z : C) × (sub_inplace_cp s x y ≡ ok z) × Of (m -ℤ k) z
  sub_inplace_cp_is m k x y f g =
      let (z, ran, held) = laws.negate_p_is k y g in
      rw (ran, ← sub_opposite m k) (laws.add_inplace_cp_is m (neg_ℤ k) x z f held)

  -- An operation in place whose first item holds ciphertexts.
  inplace-Agrees :
      (g : ℤ → ℤ → ℤ) (cp : C → P → Result C) (cc : C → C → Result C)
      → ((m k : ℤ) (x : C) (y : P) → Of m x → InP k y → (z : C) × (cp x y ≡ ok z) × Of (g m k) z)
      → ((m k : ℤ) (x y : C) → Of m x → Of k y → (z : C) × (cc x y ≡ ok z) × Of (g m k) z)
      → (v w : Content ℤ) (x : Content C) (y : Item P C) → Holding Of v x
      → HoldsItem InP Of w y
      → Agrees (HoldsItem OutP Of) (combine g v w) (binary_inplace cp cc (ciphertext x) y)
  unfolding binary_inplace HoldsItem
  inplace-Agrees g cp cc cp_is cc_is v w x (plaintext y) h k =
      cipher-Agrees OutP Of _ _ (call_binary-combine cp g Of InP Of cp_is v w x y h k)
  inplace-Agrees g cp cc cp_is cc_is v w x (ciphertext y) h k =
      cipher-Agrees OutP Of _ _ (call_binary-combine cc g Of Of Of cc_is v w x y h k)

-- For a scheme that keeps its promises and items that hold scalars or arrays of integers: `Add` and
-- `Sub` of two items, of plaintexts or ciphertexts, give an item that holds the sums and the
-- differences, entry by entry; for arrays of different lengths, and for a scalar and an array, both
-- throw the error for them and nothing else.
pub add_sub-Agrees :
    {P C : Type 0} (s : WordOps P C) (InP OutP : ℤ → P → Type 0) (Of : ℤ → C → Type 0)
    (laws : IsScheme s InP OutP Of) (v w : Content ℤ) (x y : Item P C)
    → HoldsItem InP Of v x
    → HoldsItem InP Of w y
    → Agrees (HoldsItem OutP Of) (combine (λ m k. m +ℤ k) v w) (S.add s x y)
      × Agrees (HoldsItem OutP Of) (combine (λ m k. m -ℤ k) v w) (S.sub s x y)
add_sub-Agrees s InP OutP Of laws v w x y h k =
    (add-Agrees s InP OutP Of laws v w x y h k, sub-Agrees s InP OutP Of laws v w x y h k)

-- For a scheme that keeps its promises: `AddInplace` and `SubInplace` leave sums and differences in an
-- item of ciphertexts, entry by entry, and throw as `Add` and `Sub` do; an item of plaintexts stays as
-- it is, whatever the second item, and nothing is thrown.
pub add_sub_inplace-Agrees :
    {P C : Type 0} (s : WordOps P C) (InP OutP : ℤ → P → Type 0) (Of : ℤ → C → Type 0)
    (laws : IsScheme s InP OutP Of) (v w : Content ℤ) (x : Content C) (y : Item P C)
    → Holding Of v x
    → HoldsItem InP Of w y
    → Agrees (HoldsItem OutP Of) (combine (λ m k. m +ℤ k) v w) (S.add_inplace s (ciphertext x) y)
      × Agrees (HoldsItem OutP Of) (combine (λ m k. m -ℤ k) v w) (S.sub_inplace s (ciphertext x) y)
      × ((p : Content P) → S.add_inplace s (plaintext p) y ≡ ok (plaintext p))
      × ((p : Content P) → S.sub_inplace s (plaintext p) y ≡ ok (plaintext p))
unfolding S.add_inplace S.sub_inplace binary_inplace
add_sub_inplace-Agrees s InP OutP Of laws v w x y h k = (
  inplace-Agrees s InP OutP Of laws (λ m k. m +ℤ k) s.add_inplace_cp s.add_inplace_cc
      laws.add_inplace_cp_is laws.add_inplace_cc_is v w x y h k,
  inplace-Agrees s InP OutP Of laws (λ m k. m -ℤ k) (sub_inplace_cp s) (sub_inplace_cc s)
      (sub_inplace_cp_is s InP OutP Of laws) (sub_inplace_cc_is s InP OutP Of laws) v w x y h k,
  λ p. refl,
  λ p. refl,
)
