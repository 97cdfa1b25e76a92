-- ===== src/MockFhe/Objects.antt =====
-- base.h, encryptor.cc and decryptor.cc of mock_fhe. A `double` is an abstract type with the
-- operations that the code applies; an int64_t is its bit pattern.
use heu.Base.{ℕ, Bool, List, replicate, length, ◌==◌, Result, ok, enforce, ◌>>◌}
use heu.Base.{illegal_plaintext}

-- The floating-point operations on the scale.
pub record Double (F : Type 0) : Type 0 where
  pub one : F
  pub of_int64 : ℕ → F
  -- std::abs(a - b) <= 1e-2
  pub near : F → F → Bool
  -- (a + b) / 2
  pub mean : F → F → F
  pub mul : F → F → F
  pub div : F → F → F
  -- An int64_t divided by a double and converted to int64_t.
  pub quotient : ℕ → F → ℕ

-- A Plaintext or a Ciphertext.
pub record MockObj (F : Type 0) : Type 0 where
  pub array : List ℕ
  pub scale : F

module _ {F : Type 0} (d : Double F) where
  unfoldable pub encrypt_zero : ℕ → MockObj F
  encrypt_zero poly_degree = record { array = replicate poly_degree 0; scale = d.one }

unfoldable pub encrypt : {F : Type 0} → ℕ → MockObj F → Result (MockObj F)
encrypt poly_degree m = do
  enforce (length m.array == poly_degree) illegal_plaintext
  ok (record { array = m.array; scale = m.scale })

unfoldable pub decrypt : {F : Type 0} → MockObj F → MockObj F
decrypt ct = record { array = ct.array; scale = ct.scale }
