-- ===== src/ElGamal/Scheme.antt =====
-- elgamal/scalar_encryptor.cc, scalar_decryptor.cc and scalar_evaluator.cc, with the keys and the
-- ciphertext of public_key.h, secret_key.h and ciphertext.h. The random number that `RandomLtN`
-- draws is an argument. An operation of `EcGroup` that works in place is the one that returns its
-- result, stored into the operand.
pub mod Circuit
pub mod Encryptions
pub mod Homomorphic
use heu.Base.{ℕ, ◌+◌, ◌≤◌, ◌≡◌, Bool, leb, Result, ok, err, ◌>>◌, enforce}
use heu.Base.{plaintext_out_of_range}
use heu.Base.Int.{ℤ, pos, pos_part, neg_part, ◌+ℤ◌, ◌-ℤ◌, ◌*ℤ◌}
use heu.ElGamal.LookupTable.{
  Curve, LookupTable, search, max_supported_value, table_max_value, search_max_value,
}

pub record PublicKey (P : Type 0) : Type 0 where
  pub curve : Curve P
  -- xG
  pub h : P

pub record SecretKey (P : Type 0) : Type 0 where
  pub x : ℤ
  pub curve : Curve P
  pub table : LookupTable P

pub record Ciphertext (P : Type 0) : Type 0 where
  pub ec : Curve P
  pub c1 : P
  pub c2 : P

module _ {P : Type 0} (pk : PublicKey P) where
  open pk use {curve, h}

  abbrev pub plaintext_bound : ℕ
  plaintext_bound = max_supported_value

  unfoldable pub encrypt_zero : ℕ → Ciphertext P
  encrypt_zero r = record { ec = curve; c1 = curve.mul_base (pos r); c2 = curve.mul h (pos r) }

  -- |m| is the sum of its two parts.
  unfoldable pub encrypt : ℤ → ℕ → Result (Ciphertext P)
  encrypt m r = do
    enforce (leb (pos_part m + neg_part m) plaintext_bound) plaintext_out_of_range
    ok (record { ec = curve; c1 = curve.mul_base (pos r); c2 = curve.mul_double_base m (pos r) h })

  unfoldable pub add : Ciphertext P → Ciphertext P → Ciphertext P
  add a b = record { ec = curve; c1 = curve.add a.c1 b.c1; c2 = curve.add a.c2 b.c2 }

  unfoldable pub add_plain : Ciphertext P → ℤ → Ciphertext P
  add_plain a b = record { ec = curve; c1 = a.c1; c2 = curve.add a.c2 (curve.mul_base b) }

  unfoldable pub plain_add : ℤ → Ciphertext P → Ciphertext P
  unfolding add_plain
  plain_add a b = add_plain b a

  unfoldable pub add_inplace : Ciphertext P → Ciphertext P → Ciphertext P
  add_inplace a b =
      let a1 : Ciphertext P = record a { c1 = curve.add a.c1 b.c1 } in
      record a1 { c2 = curve.add a1.c2 b.c2 }

  unfoldable pub add_plain_inplace : Ciphertext P → ℤ → Ciphertext P
  add_plain_inplace a b = record a { c2 = curve.add a.c2 (curve.mul_base b) }

  -- `r` is drawn below the size of the field.
  unfoldable pub randomize : Ciphertext P → ℕ → Ciphertext P
  unfolding add_inplace
  randomize ct r =
      add_inplace ct (record { ec = curve; c1 = curve.mul_base (pos r); c2 = curve.mul h (pos r) })

  unfoldable pub sub : Ciphertext P → Ciphertext P → Ciphertext P
  sub a b = record { ec = curve; c1 = curve.sub a.c1 b.c1; c2 = curve.sub a.c2 b.c2 }

  unfoldable pub sub_plain : Ciphertext P → ℤ → Ciphertext P
  sub_plain a b = record { ec = curve; c1 = a.c1; c2 = curve.sub a.c2 (curve.mul_base b) }

  unfoldable pub plain_sub : ℤ → Ciphertext P → Ciphertext P
  plain_sub a b = record {
    ec = curve;
    c1 = curve.negate b.c1;
    c2 = curve.sub (curve.mul_base a) b.c2;
  }

  unfoldable pub sub_inplace : Ciphertext P → Ciphertext P → Ciphertext P
  sub_inplace a b =
      let a1 : Ciphertext P = record a { c1 = curve.sub a.c1 b.c1 } in
      record a1 { c2 = curve.sub a1.c2 b.c2 }

  unfoldable pub sub_plain_inplace : Ciphertext P → ℤ → Ciphertext P
  sub_plain_inplace a p = record a { c2 = curve.sub a.c2 (curve.mul_base p) }

  unfoldable pub mul : Ciphertext P → ℤ → Ciphertext P
  mul a b = record { ec = curve; c1 = curve.mul a.c1 b; c2 = curve.mul a.c2 b }

  unfoldable pub plain_mul : ℤ → Ciphertext P → Ciphertext P
  unfolding mul
  plain_mul a b = mul b a

  unfoldable pub mul_inplace : Ciphertext P → ℤ → Ciphertext P
  mul_inplace a b =
      let a1 : Ciphertext P = record a { c1 = curve.mul a.c1 b } in
      record a1 { c2 = curve.mul a1.c2 b }

  unfoldable pub negate : Ciphertext P → Ciphertext P
  negate a = record { ec = curve; c1 = curve.negate a.c1; c2 = curve.negate a.c2 }

  unfoldable pub negate_inplace : Ciphertext P → Ciphertext P
  negate_inplace a =
      let a1 : Ciphertext P = record a { c1 = curve.negate a.c1 } in
      record a1 { c2 = curve.negate a1.c2 }

  unfoldable pub decrypt : SecretKey P → Ciphertext P → Result ℤ
  decrypt sk ct =
      let mg = curve.sub ct.c2 (curve.mul ct.c1 sk.x) in
      search sk.table table_max_value search_max_value mg
