-- ===== src/Paillier/Scheme.antt =====
-- paillier_zahlen/encryptor.cc, decryptor.cc and evaluator.cc. The number that `RandomExactBits`
-- draws is an argument. Errors of `HE_ASSERT` and `YACL_ENFORCE` are results.
pub mod Circuit
pub mod Values
pub mod Runs
use heu.Base.{
  ℕ, ◌+◌, Bool, true, false, not, ◌&&◌, leb, ◌==◌, if◌then◌else◌, Result, ok, err, ◌>>=◌, ◌>>◌,
  enforce,
}
use heu.Base.{plaintext_out_of_range, invalid_ciphertext, not_paired}
use heu.Base.Int.{ℤ, pos, negsuc, pos_part, neg_part, neg_ℤ, ltb_ℤ, ◌+ℤ◌, ◌-ℤ◌, ◌*ℤ◌}
use heu.Paillier.BigInts.{BigInts}
use heu.Paillier.Keys.{PublicKey, SecretKey}

pub record Ciphertext : Type 0 where
  pub c : ℤ

abbrev pub is_negative : ℤ → Bool
is_negative (pos a) = false
is_negative (negsuc a) = true

-- a.CompareAbs(b) <= 0
abbrev pub within : ℤ → ℤ → Bool
within a b = leb (pos_part a + neg_part a) (pos_part b + neg_part b)

-- a == b
abbrev pub same_int : ℤ → ℤ → Bool
same_int a b = pos_part a + neg_part b == pos_part b + neg_part a

-- VALIDATE(ct)
unfoldable pub validate : PublicKey → Ciphertext → Result (Unit {0})
validate pk ct = enforce (not (is_negative ct.c) && ltb_ℤ ct.c pk.n_square) invalid_ciphertext

-- The residue of the plaintext for one of the primes.
unfoldable pub decrypt_part : BigInts → ℤ → ℤ → ℤ → ℤ → ℤ → ℤ
decrypt_part b c phi p_square p h =
    let power = b.pow_mod c phi p_square in b.mul_mod (b.div (power -ℤ pos 1) p) h p

-- The remainder theorem, and the negative numbers.
unfoldable pub recombine : BigInts → PublicKey → SecretKey → ℤ → ℤ → ℤ
recombine b pk sk mp mq =
    let out = b.mul_mod (mq -ℤ mp) sk.p_inv_mod_q sk.q *ℤ sk.p +ℤ mp in
    if ltb_ℤ pk.n_half out then out -ℤ pk.n else out

-- The constructor of the decryptor.
unfoldable pub create_decryptor : PublicKey → SecretKey → Result (PublicKey × SecretKey)
create_decryptor pk sk = do enforce (same_int (sk.p *ℤ sk.q) pk.n) not_paired; ok (pk, sk)

module _ (b : BigInts) (pk : PublicKey) where
  unfoldable pub get_rn : ℕ → ℤ
  get_rn r = b.space_pow pk.n_square pk.h_s (pos r)

  unfoldable pub encrypt_zero : ℕ → Ciphertext
  unfolding get_rn
  encrypt_zero r = record { c = get_rn r }

  unfoldable pub encrypt : ℤ → ℕ → Result Ciphertext
  unfolding get_rn
  encrypt m r = do
    enforce (within m pk.n_half) plaintext_out_of_range
    let gm = pk.n *ℤ m +ℤ pos 1
    ok (record { c = b.space_mul pk.n_square (b.map_into pk.n_square gm) (get_rn r) })

  unfoldable pub randomize : Ciphertext → ℕ → Result Ciphertext
  unfolding validate get_rn
  randomize ct r = do validate pk ct; ok (record { c = b.space_mul pk.n_square ct.c (get_rn r) })

  unfoldable pub add : Ciphertext → Ciphertext → Result Ciphertext
  unfolding validate
  add x y = do validate pk x; validate pk y; ok (record { c = b.space_mul pk.n_square x.c y.c })

  unfoldable pub add_inplace : Ciphertext → Ciphertext → Result Ciphertext
  unfolding validate
  add_inplace x y = do
    validate pk x
    validate pk y
    ok (record x { c = b.space_mul pk.n_square x.c y.c })

  unfoldable pub add_plain : Ciphertext → ℤ → Result Ciphertext
  unfolding validate
  add_plain x p = do
    validate pk x
    enforce (within p pk.n_half) plaintext_out_of_range
    let gm = pk.n *ℤ p +ℤ pos 1
    ok (record { c = b.space_mul pk.n_square x.c (b.map_into pk.n_square gm) })

  unfoldable pub negate : Ciphertext → Result Ciphertext
  unfolding validate
  negate x = do
    validate pk x
    let tmp = b.map_back pk.n_square x.c
    ok (record { c = b.map_into pk.n_square (b.inv_mod tmp pk.n_square) })

  unfoldable pub sub : Ciphertext → Ciphertext → Result Ciphertext
  unfolding add negate
  sub x y = do z ← negate y; add x z

  unfoldable pub sub_inplace : Ciphertext → Ciphertext → Result Ciphertext
  unfolding add_inplace negate
  sub_inplace x y = do z ← negate y; add_inplace x z

  unfoldable pub sub_plain : Ciphertext → ℤ → Result Ciphertext
  unfolding add_plain
  sub_plain x p = add_plain x (neg_ℤ p)

  unfoldable pub plain_sub : ℤ → Ciphertext → Result Ciphertext
  unfolding add_plain negate
  plain_sub p x = do z ← negate x; add_plain z p

  -- The power behind the special cases.
  unfoldable pub mul_general : Ciphertext → ℤ → Ciphertext
  mul_general x p =
      let base = b.map_back pk.n_square x.c in
      record { c = b.map_into pk.n_square (b.pow_mod base p pk.n_square) }

  unfoldable pub mul : Ciphertext → ℤ → Result Ciphertext
  unfolding validate negate mul_general
  mul x p = do
    validate pk x
    let p_bits = b.bit_count p
    if p_bits == 0
        then ok (record { c = b.space_identity pk.n_square })
        else if p_bits == 1
        then if is_negative p then negate x else ok x
        else ok (mul_general x p)

  unfoldable pub decrypt : SecretKey → Ciphertext → Result ℤ
  unfolding validate decrypt_part recombine
  decrypt sk ct = do
    validate pk ct
    let c = b.map_back pk.n_square ct.c
    let mp = decrypt_part b c sk.phi_p sk.p_square sk.p sk.hp
    let mq = decrypt_part b c sk.phi_q sk.q_square sk.q sk.hq
    ok (recombine b pk sk mp mq)
