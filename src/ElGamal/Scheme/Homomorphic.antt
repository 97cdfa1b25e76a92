-- ===== src/ElGamal/Scheme/Homomorphic.antt =====
-- Decryption of what the evaluator computes on encryptions.
use heu.Base.{
  ℕ, ◌+◌, ◌*◌, ◌<◌, ◌≤◌, ◌≡◌, refl, ap, ◌∙◌, List, length, le→leb, if◌then◌else◌, Result, ok, err,
  arith,
}
use heu.Base.{too_big}
use heu.Base.Int.{ℤ, pos, pos_part, neg_part, ◌+ℤ◌}
use heu.ElGamal.Group.{IsGroup}
use heu.ElGamal.LookupTable.{Curve, LookupTable, init, search, table_max_value, search_max_value}
use heu.ElGamal.LookupTable.Fill.{NonEmpty, AllBelow, numbers}
use heu.ElGamal.LookupTable.Giant.{in_reach}
use heu.ElGamal.LookupTable.Complete.{Covers, init-search_all}
use heu.ElGamal.Scheme as S
use heu.ElGamal.Scheme.{PublicKey, SecretKey, Ciphertext}
use heu.ElGamal.Scheme.Circuit.{Circuit, value, InBounds, run, one_operand, two_operands}
use heu.ElGamal.Scheme.Encryptions.{
  IsEncryption, sum-IsEncryption, negate-IsEncryption, difference-IsEncryption, shift-IsEncryption,
  unshift-IsEncryption, from-IsEncryption, multiple-IsEncryption, zero-IsEncryption,
  fresh-IsEncryption,
}

plus_zero : (m : ℤ) → m +ℤ pos 0 ≡ m
unfolding ◌+ℤ◌
plus_zero m = ground arith

module _ {P : Type 0} (c : Curve P) {window : ℕ} (g : IsGroup c window) (x : ℤ) where
  abbrev public_key : PublicKey P
  public_key = record { curve = c; h = c.mul_base x }

  abbrev Encrypts : ℤ → Ciphertext P → Type 0
  Encrypts m ct = IsEncryption c g x m ct.c1 ct.c2

  abbrev Yields : ℤ → Result (Ciphertext P) → Type 0
  Yields m r = (ct : Ciphertext P) × (r ≡ ok ct) × Encrypts m ct

  one_operand_lem :
      {m n : ℤ} (f : Ciphertext P → Ciphertext P) (r : Result (Ciphertext P))
      → ((ct : Ciphertext P) → Encrypts m ct → Encrypts n (f ct))
      → Yields m r
      → Yields n (one_operand f r)
  one_operand_lem f r step (ct, run, enc) = (f ct, rw run refl, step ct enc)

  two_operands_lem :
      {m n k : ℤ} (f : Ciphertext P → Ciphertext P → Ciphertext P) (r s : Result (Ciphertext P))
      → ((a b : Ciphertext P) → Encrypts m a → Encrypts n b → Encrypts k (f a b))
      → Yields m r
      → Yields n s
      → Yields k (two_operands f r s)
  two_operands_lem f r s step (a, run_a, enc_a) (b, run_b, enc_b) =
      (f a b, rw (run_a, run_b) refl, step a b enc_a enc_b)

  run-Yields : (e : Circuit) → InBounds e → Yields (value e) (run public_key e)
  unfolding value InBounds run S.encrypt S.encrypt_zero S.randomize S.add S.add_inplace S.sub
      S.sub_inplace S.add_plain S.add_plain_inplace S.plain_add S.sub_plain S.sub_plain_inplace
      S.plain_sub S.mul S.mul_inplace S.plain_mul S.negate S.negate_inplace
  run-Yields (Circuit.encrypt m r) h = (
    record { ec = c; c1 = c.mul_base (pos r); c2 = c.mul_double_base m (pos r) (c.mul_base x) },
    rw (le→leb _ _ h) refl,
    fresh-IsEncryption c g x m (pos r),
  )
  run-Yields (Circuit.encrypt_zero r) h = (_, refl, zero-IsEncryption c g x (pos r))
  run-Yields (Circuit.randomize a r) h =
      one_operand_lem (λ u. S.randomize public_key u r) (run public_key a)
        (λ u e. rw (← plus_zero (value a)) (
          sum-IsEncryption c g x (value a) (pos 0) u.c1 u.c2 _ _ e
            (zero-IsEncryption c g x (pos r))))
        (run-Yields a h)
  run-Yields (Circuit.add a b) h =
      two_operands_lem (S.add public_key) (run public_key a) (run public_key b)
        (λ u v. sum-IsEncryption c g x (value a) (value b) u.c1 u.c2 v.c1 v.c2) (run-Yields a h.0)
        (run-Yields b h.1)
  run-Yields (Circuit.add_inplace a b) h =
      two_operands_lem (S.add_inplace public_key) (run public_key a) (run public_key b)
        (λ u v. sum-IsEncryption c g x (value a) (value b) u.c1 u.c2 v.c1 v.c2) (run-Yields a h.0)
        (run-Yields b h.1)
  run-Yields (Circuit.sub a b) h =
      two_operands_lem (S.sub public_key) (run public_key a) (run public_key b)
        (λ u v. difference-IsEncryption c g x (value a) (value b) u.c1 u.c2 v.c1 v.c2)
        (run-Yields a h.0) (run-Yields b h.1)
  run-Yields (Circuit.sub_inplace a b) h =
      two_operands_lem (S.sub_inplace public_key) (run public_key a) (run public_key b)
        (λ u v. difference-IsEncryption c g x (value a) (value b) u.c1 u.c2 v.c1 v.c2)
        (run-Yields a h.0) (run-Yields b h.1)
  run-Yields (Circuit.add_plain a p) h =
      one_operand_lem (λ u. S.add_plain public_key u p) (run public_key a)
        (λ u. shift-IsEncryption c g x (value a) p u.c1 u.c2) (run-Yields a h)
  run-Yields (Circuit.add_plain_inplace a p) h =
      one_operand_lem (λ u. S.add_plain_inplace public_key u p) (run public_key a)
        (λ u. shift-IsEncryption c g x (value a) p u.c1 u.c2) (run-Yields a h)
  run-Yields (Circuit.sub_plain a p) h =
      one_operand_lem (λ u. S.sub_plain public_key u p) (run public_key a)
        (λ u. unshift-IsEncryption c g x (value a) p u.c1 u.c2) (run-Yields a h)
  run-Yields (Circuit.sub_plain_inplace a p) h =
      one_operand_lem (λ u. S.sub_plain_inplace public_key u p) (run public_key a)
        (λ u. unshift-IsEncryption c g x (value a) p u.c1 u.c2) (run-Yields a h)
  run-Yields (Circuit.mul a p) h =
      one_operand_lem (λ u. S.mul public_key u p) (run public_key a)
        (λ u. multiple-IsEncryption c g x (value a) p u.c1 u.c2) (run-Yields a h)
  run-Yields (Circuit.mul_inplace a p) h =
      one_operand_lem (λ u. S.mul_inplace public_key u p) (run public_key a)
        (λ u. multiple-IsEncryption c g x (value a) p u.c1 u.c2) (run-Yields a h)
  run-Yields (Circuit.plain_add p a) h =
      one_operand_lem (S.plain_add public_key p) (run public_key a)
        (λ u. shift-IsEncryption c g x (value a) p u.c1 u.c2) (run-Yields a h)
  run-Yields (Circuit.plain_sub p a) h =
      one_operand_lem (S.plain_sub public_key p) (run public_key a)
        (λ u. from-IsEncryption c g x (value a) p u.c1 u.c2) (run-Yields a h)
  run-Yields (Circuit.plain_mul p a) h =
      one_operand_lem (S.plain_mul public_key p) (run public_key a)
        (λ u. multiple-IsEncryption c g x (value a) p u.c1 u.c2) (run-Yields a h)
  run-Yields (Circuit.negate a) h =
      one_operand_lem (S.negate public_key) (run public_key a)
        (λ u. negate-IsEncryption c g x (value a) u.c1 u.c2) (run-Yields a h)
  run-Yields (Circuit.negate_inplace a) h =
      one_operand_lem (S.negate_inplace public_key) (run public_key a)
        (λ u. negate-IsEncryption c g x (value a) u.c1 u.c2) (run-Yields a h)

  -- Decryption searches for the encrypted number.
  decrypt-Encrypts :
      (t : LookupTable P) (m : ℤ) (ct : Ciphertext P)
      → Encrypts m ct
      → S.decrypt public_key (record { x = x; curve = c; table = t }) ct
        ≡ search t table_max_value search_max_value (c.mul_base m)
  unfolding S.decrypt
  decrypt-Encrypts t m ct e = ap (search t table_max_value search_max_value) (
      g.sub_is ct.c2 (c.mul ct.c1 x)
      ∙ (ap (λ z. c.add z (c.negate (c.mul ct.c1 x))) e
          ∙ (g.add_assoc (c.mul_base m) (c.mul ct.c1 x) (c.negate (c.mul ct.c1 x))
              ∙ (ap (c.add (c.mul_base m)) (g.add-negate (c.mul ct.c1 x))
                  ∙ (g.add_comm (c.mul_base m) (c.mul_base (pos 0)) ∙ g.zero-add (c.mul_base m))))))

  some_points : 0 < table_max_value
  unfolding table_max_value
  some_points = omega arith

  some_steps : 0 < search_max_value
  unfolding search_max_value
  some_steps = omega arith

  pub decrypt-run :
      (slots_for : ℕ → ℕ) (blocks : List (ℕ × ℕ)) (e : Circuit)
      → 0 < slots_for table_max_value
      → NonEmpty blocks
      → AllBelow table_max_value (numbers blocks)
      → length (numbers blocks) ≤ table_max_value
      → Covers table_max_value blocks
      → InBounds e
      → pos_part (value e) + neg_part (value e) + search_max_value * table_max_value ≤ window
      → (t : LookupTable P) × (init c table_max_value slots_for blocks ≡ ok t)
        × (ct : Ciphertext P) × (run public_key e ≡ ok ct)
        × (S.decrypt public_key (record { x = x; curve = c; table = t }) ct ≡ (
            if in_reach (search_max_value * table_max_value) (value e)
            then ok (value e)
            else err too_big))
  decrypt-run slots_for blocks e slots full below few covers bounds near =
      let (t, filled, found) =
        init-search_all c g table_max_value slots_for blocks search_max_value (value e) some_points
          some_steps slots full below few covers near in
      let (ct, ran, enc) = run-Yields e bounds in
      (t, filled, ct, ran, decrypt-Encrypts t (value e) ct enc ∙ found)
