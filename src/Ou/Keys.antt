-- ===== src/Ou/Keys.antt =====
-- ou/public_key.h, public_key.cc and secret_key.h. The Montgomery space and the tables of powers are
-- known by the modulus, the bases and the bits, which the key holds.
use heu.Base.{ℕ, ◌+◌, ◌-◌, ◌%◌, ◌^◌}
use heu.Base.Int.{ℤ}
use heu.Paillier.BigInts.{BigInts}

pub record PublicKey : Type 0 where
  pub n : ℤ
  pub capital_g : ℤ
  pub capital_h : ℤ
  pub capital_g_inv : ℤ
  pub max_plaintext : ℤ

pub record SecretKey : Type 0 where
  pub p : ℤ
  pub q : ℤ
  pub t : ℤ
  pub gp_inv : ℤ
  pub p2 : ℤ
  pub p_half : ℤ
  pub n : ℤ

-- kRandomBits1024, kRandomBits2048, kRandomBits3072
abbrev pub random_bits_1024 : ℕ
random_bits_1024 = 80

abbrev pub random_bits_2048 : ℕ
random_bits_2048 = 110

abbrev pub random_bits_3072 : ℕ
random_bits_3072 = 128

-- x - 1, of the type size_t.
abbrev pub one_less : ℕ → ℕ
one_less x = (x + 2 ^ 64 - 1) % 2 ^ 64

module _ (b : BigInts) where
  unfoldable pub init_public : ℤ → ℤ → ℤ → ℤ → PublicKey
  init_public n capital_g capital_h max_plaintext = record {
    n = n;
    capital_g = capital_g;
    capital_h = capital_h;
    capital_g_inv = b.inv_mod capital_g n;
    max_plaintext = max_plaintext;
  }

  -- The bits of the tables for plaintexts up to a bound.
  unfoldable pub message_bits : ℤ → ℕ
  message_bits max_plaintext = one_less (b.bit_count max_plaintext)
