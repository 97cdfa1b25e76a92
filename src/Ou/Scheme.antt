-- ===== src/Ou/Scheme.antt =====
-- ou/encryptor.cc, decryptor.cc and evaluator.cc. What `GetHr` returns is an argument, the mask; how
-- it comes about is in Cache. Errors of `HE_ASSERT` and `YACL_ENFORCE` are results.
use heu.Base.{ℕ, ◌+◌, not, ◌&&◌, ◌==◌, if◌then◌else◌, Result, ok, ◌>>=◌, ◌>>◌, enforce}
use heu.Base.{plaintext_out_of_range, invalid_ciphertext, not_paired}
use heu.Base.Int.{ℤ, pos, pos_part, neg_part, neg_ℤ, ltb_ℤ, ◌-ℤ◌, ◌*ℤ◌}
use heu.Paillier.BigInts.{BigInts}
use heu.Paillier.Scheme.{Ciphertext, is_negative, within, same_int}
use heu.Additive.Tables.{Tables}
use heu.Additive.Runs.{Operations}
use heu.Ou.Keys.{PublicKey, SecretKey, message_bits}

-- VALIDATE(ct)
unfoldable pub validate : PublicKey → Ciphertext → Result (Unit {0})
validate pk ct = enforce (not (is_negative ct.c) && ltb_ℤ ct.c pk.n) invalid_ciphertext

-- The constructor of the decryptor.
unfoldable pub create_decryptor : PublicKey → SecretKey → Result (PublicKey × SecretKey)
create_decryptor pk sk = do enforce (same_int (sk.p2 *ℤ sk.q) pk.n) not_paired; ok (pk, sk)

module _ (b : BigInts) (tables : Tables) (pk : PublicKey) where
  -- G^m, by way of the inverse for a negative m.
  unfoldable pub power_of_g : ℤ → ℤ
  power_of_g m =
      if is_negative m
      then tables.power pk.n pk.capital_g_inv (message_bits b pk.max_plaintext)
          (pos (pos_part m + neg_part m))
      else tables.power pk.n pk.capital_g (message_bits b pk.max_plaintext) m

  unfoldable pub encrypt_zero : ℤ → Ciphertext
  encrypt_zero hr = record { c = hr }

  unfoldable pub encrypt : ℤ → ℤ → Result Ciphertext
  unfolding power_of_g
  encrypt m hr = do
    enforce (within m pk.max_plaintext) plaintext_out_of_range
    ok (record { c = b.space_mul pk.n hr (power_of_g m) })

  unfoldable pub randomize : Ciphertext → ℤ → Result Ciphertext
  unfolding validate
  randomize ct hr = do validate pk ct; ok (record { c = b.space_mul pk.n ct.c hr })

  unfoldable pub add : Ciphertext → Ciphertext → Result Ciphertext
  unfolding validate
  add x y = do validate pk x; validate pk y; ok (record { c = b.space_mul pk.n x.c y.c })

  unfoldable pub add_inplace : Ciphertext → Ciphertext → Result Ciphertext
  unfolding validate
  add_inplace x y = do validate pk x; validate pk y; ok (record x { c = b.space_mul pk.n x.c y.c })

  unfoldable pub add_plain : Ciphertext → ℤ → Result Ciphertext
  unfolding validate power_of_g
  add_plain x p = do
    validate pk x
    enforce (within p pk.max_plaintext) plaintext_out_of_range
    ok (record { c = b.space_mul pk.n x.c (power_of_g p) })

  unfoldable pub negate : Ciphertext → Result Ciphertext
  unfolding validate
  negate x = do
    validate pk x
    let tmp = b.map_back pk.n x.c
    ok (record { c = b.map_into pk.n (b.inv_mod tmp pk.n) })

  unfoldable pub sub : Ciphertext → Ciphertext → Result Ciphertext
  unfolding add negate
  sub x y = do z ← negate y; add x z

  unfoldable pub sub_inplace : Ciphertext → Ciphertext → Result Ciphertext
  unfolding add_inplace negate
  sub_inplace x y = do z ← negate y; add_inplace x z

  unfoldable pub sub_plain : Ciphertext → ℤ → Result Ciphertext
  unfolding add_plain
  sub_plain x p = add_plain x (neg_ℤ p)

  unfoldable pub plain_sub : ℤ → Ciphertext → Result Ciphertext
  unfolding add_plain negate
  plain_sub p x = do z ← negate x; add_plain z p

  -- The power behind the special cases.
  unfoldable pub mul_general : Ciphertext → ℤ → Ciphertext
  mul_general x p =
      let base = b.map_back pk.n x.c in record { c = b.map_into pk.n (b.pow_mod base p pk.n) }

  unfoldable pub mul : Ciphertext → ℤ → Result Ciphertext
  unfolding validate negate mul_general
  mul x p = do
    validate pk x
    let p_bits = b.bit_count p
    if p_bits == 0
        then ok (record { c = b.space_identity pk.n })
        else if p_bits == 1
        then if is_negative p then negate x else ok x
        else ok (mul_general x p)

  unfoldable pub decrypt : SecretKey → Ciphertext → Result ℤ
  unfolding validate
  decrypt sk ct = do
    validate pk ct
    let power = b.pow_mod (b.rem (b.map_back pk.n ct.c) sk.p2) sk.t sk.p2
    let out = b.mul_mod (b.div (power -ℤ pos 1) sk.p) sk.gp_inv sk.p
    ok (if ltb_ℤ sk.p_half out then out -ℤ sk.p else out)

-- The operations, where the calls of `GetHr` return the masks.
abbrev pub operations : BigInts → Tables → PublicKey → (ℕ → ℤ) → Operations
operations b tables pk masks = record {
  encrypt = λ m i. encrypt b tables pk m (masks i);
  encrypt_zero = λ i. encrypt_zero b tables pk (masks i);
  randomize = λ x i. randomize b tables pk x (masks i);
  add = add b tables pk;
  add_inplace = add_inplace b tables pk;
  sub = sub b tables pk;
  sub_inplace = sub_inplace b tables pk;
  add_plain = add_plain b tables pk;
  sub_plain = sub_plain b tables pk;
  plain_sub = plain_sub b tables pk;
  mul = mul b tables pk;
  negate = negate b tables pk;
}
