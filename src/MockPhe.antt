-- ===== src/MockPhe.antt =====
-- heu/algorithms/incubator/mock_phe: a scheme whose ciphertexts are the plaintexts. The number of bits
-- of a big integer is an argument.
pub mod Homomorphic
pub mod Examples
use heu.Base.{ℕ, ◌≤◌, leb, Result, ok, ◌>>=◌, ◌>>◌, enforce}
use heu.Base.{illegal_plaintext}
use heu.Base.Int.{ℤ, pos, neg_ℤ, ◌+ℤ◌, ◌*ℤ◌}
use heu.Spi.Words.{WordOps}

pub record Ciphertext : Type 0 where
  pub bn : ℤ

module _ (bit_count : ℤ → ℕ) (key_size : ℕ) where
  abbrev fits : ℤ → Result (Unit {0})
  fits m = enforce (leb (bit_count m) key_size) illegal_plaintext

  abbrev pub encrypt_zero : Ciphertext
  encrypt_zero = record { bn = pos 0 }

  unfoldable pub encrypt : ℤ → Result Ciphertext
  encrypt m = do fits m; ok (record { bn = m })

  unfoldable pub decrypt : Ciphertext → ℤ
  decrypt ct = ct.bn

  unfoldable pub negate : Ciphertext → Ciphertext
  negate x = record { bn = neg_ℤ x.bn }

  unfoldable pub add_plain : Ciphertext → ℤ → Result Ciphertext
  add_plain x k = do fits k; ok (record { bn = x.bn +ℤ k })

  unfoldable pub add_plain_inplace : Ciphertext → ℤ → Result Ciphertext
  add_plain_inplace x k = do fits k; ok (record { bn = x.bn +ℤ k })

  unfoldable pub add : Ciphertext → Ciphertext → Ciphertext
  add x y = record { bn = x.bn +ℤ y.bn }

  unfoldable pub mul_plain : Ciphertext → ℤ → Ciphertext
  mul_plain x k = record { bn = x.bn *ℤ k }
