-- ===== src/Dgk/Scheme.antt =====
-- dgk/encryptor.cc, decryptor.cc, evaluator.cc and evaluator.h. The masks are what `RandomHr` returns;
-- a multiplication by 0 draws one, too. Errors of `HE_ASSERT` and `YACL_ENFORCE` are results.
use heu.Base.{ℕ, not, ◌&&◌, if◌then◌else◌, Result, ok, ◌>>=◌, ◌>>◌, enforce}
use heu.Base.{plaintext_out_of_range, invalid_ciphertext}
use heu.Base.Int.{ℤ, pos, negsuc, neg_ℤ, ltb_ℤ, ◌-ℤ◌}
use heu.Paillier.BigInts.{BigInts}
use heu.Paillier.Scheme.{Ciphertext, is_negative, within, same_int}
use heu.Additive.Tables.{Tables}
use heu.Additive.Runs.{Operations}
use heu.Dgk.Keys.{PublicKey, SecretKey, decrypt_log, encrypt_raw, plaintext_bound}

-- VALIDATE(ct)
unfoldable pub validate : PublicKey → Ciphertext → Result (Unit {0})
validate pk ct = enforce (not (is_negative ct.c) && ltb_ℤ ct.c pk.n) invalid_ciphertext

module _ (b : BigInts) (tables : Tables) (pk : PublicKey) where
  unfoldable pub encrypt_zero : ℤ → Ciphertext
  encrypt_zero hr = record { c = hr }

  unfoldable pub encrypt : ℤ → ℤ → Result Ciphertext
  encrypt m hr = do
    enforce (within m (plaintext_bound b tables pk)) plaintext_out_of_range
    ok (record { c = b.space_mul pk.n (encrypt_raw b tables pk m) hr })

  unfoldable pub randomize : Ciphertext → ℤ → Result Ciphertext
  unfolding validate
  randomize ct hr = do validate pk ct; ok (record { c = b.space_mul pk.n ct.c hr })

  unfoldable pub add : Ciphertext → Ciphertext → Result Ciphertext
  unfolding validate
  add x y = do validate pk x; validate pk y; ok (record { c = b.space_mul pk.n x.c y.c })

  unfoldable pub add_plain : Ciphertext → ℤ → Result Ciphertext
  unfolding add
  add_plain x p = add x (record { c = encrypt_raw b tables pk p })

  -- hr is drawn where p is 0.
  unfoldable pub mul : Ciphertext → ℤ → ℤ → Result Ciphertext
  unfolding validate encrypt_zero
  mul x p hr = do
    validate pk x
    if same_int p (pos 0)
        then ok (encrypt_zero hr)
        else if same_int p (pos 1)
        then ok x
        else ok (record { c = b.map_into pk.n (b.pow_mod (b.map_back pk.n x.c) p pk.n) })

  unfoldable pub negate : Ciphertext → ℤ → Result Ciphertext
  unfolding mul
  negate x hr = mul x (negsuc 0) hr

  unfoldable pub sub : Ciphertext → Ciphertext → ℤ → Result Ciphertext
  unfolding add negate
  sub x y hr = do z ← negate y hr; add x z

  unfoldable pub sub_plain : Ciphertext → ℤ → Result Ciphertext
  unfolding add_plain
  sub_plain x p = add_plain x (neg_ℤ p)

  unfoldable pub plain_sub : ℤ → Ciphertext → ℤ → Result Ciphertext
  unfolding add_plain negate
  plain_sub p x hr = do z ← negate x hr; add_plain z p

  unfoldable pub decrypt : SecretKey → Ciphertext → Result ℤ
  unfolding validate
  decrypt sk ct = do
    validate pk ct
    m ← decrypt_log b sk (b.map_back pk.n ct.c)
    ok (if ltb_ℤ (plaintext_bound b tables pk) m then m -ℤ pk.u else m)

-- The operations, where the calls of `RandomHr` return the masks, and those within a multiplication
-- the masks for its operands.
abbrev pub operations : BigInts → Tables → PublicKey → (ℕ → ℤ) → (Ciphertext → ℤ → ℤ) → Operations
operations b tables pk masks zero_masks = record {
  encrypt = λ m i. encrypt b tables pk m (masks i);
  encrypt_zero = λ i. encrypt_zero b tables pk (masks i);
  randomize = λ x i. randomize b tables pk x (masks i);
  add = add b tables pk;
  add_inplace = add b tables pk;
  sub = λ x y. sub b tables pk x y (zero_masks y (negsuc 0));
  sub_inplace = λ x y. sub b tables pk x y (zero_masks y (negsuc 0));
  add_plain = add_plain b tables pk;
  sub_plain = sub_plain b tables pk;
  plain_sub = λ p x. plain_sub b tables pk p x (zero_masks x (negsuc 0));
  mul = λ x p. mul b tables pk x p (zero_masks x p);
  negate = λ x. negate b tables pk x (zero_masks x (negsuc 0));
}
