-- ===== src/Dgk/Keys.antt =====
-- dgk/public_key.h, public_key.cc and secret_key.h, secret_key.cc. The Montgomery space and the tables
-- of powers are known by the modulus, the bases and the bits. The table of logarithms is the list of
-- what is put into it, where the first of equal keys counts, as with emplace.
use heu.Base.{ℕ, zero, suc, ◌+◌, ◌-◌, List, [], ◌∷◌, Result, ok, err, if◌then◌else◌}
use heu.Base.{invalid_ciphertext}
use heu.Base.Int.{ℤ, pos, pos_part}
use heu.Paillier.BigInts.{BigInts}
use heu.Paillier.Scheme.{same_int}
use heu.Additive.Tables.{Tables}

pub record PublicKey : Type 0 where
  pub n : ℤ
  pub g : ℤ
  pub h : ℤ
  pub u : ℤ

pub record SecretKey : Type 0 where
  pub p : ℤ
  pub q : ℤ
  pub vp : ℤ
  pub vq : ℤ
  pub u : ℤ
  pub g : ℤ
  pub log_table : List (ℤ × ℤ)

-- kRandExpBits
abbrev pub rand_exp_bits : ℕ
rand_exp_bits = 400

-- The entry for a key.
unfoldable pub find_log : ℤ → List (ℤ × ℤ) → Result ℤ
find_log key [] = err invalid_ciphertext
find_log key ((ct, i) ∷ entries) = if same_int ct key then ok i else find_log key entries

module _ (b : BigInts) where
  -- The loop that fills the table, for a number of rounds.
  unfoldable pub fill_logs : ℕ → ℕ → ℤ → ℤ → ℤ → List (ℤ × ℤ)
  fill_logs zero i qm p ct = []
  fill_logs (suc rounds) i qm p ct =
      let next = b.mul_mod ct qm p in (next, pos i) ∷ fill_logs rounds (i + 1) qm p next

  unfoldable pub init_secret : ℤ → ℤ → ℤ → ℤ → ℤ → ℤ → SecretKey
  init_secret p q vp vq u g =
      let qm = b.pow_mod g vp p in
      record {
        p = p;
        q = q;
        vp = vp;
        vq = vq;
        u = u;
        g = g;
        log_table = (pos 1, pos 0) ∷ fill_logs (pos_part u - 1) 1 qm p (pos 1);
      }

  unfoldable pub decrypt_log : SecretKey → ℤ → Result ℤ
  decrypt_log sk ct = find_log (b.pow_mod (b.rem ct sk.p) sk.vp sk.p) sk.log_table

  module _ (tables : Tables) (pk : PublicKey) where
    unfoldable pub random_hr : ℤ → ℤ
    random_hr r = tables.power pk.n pk.h rand_exp_bits r

    -- The encryption without a mask.
    unfoldable pub encrypt_raw : ℤ → ℤ
    encrypt_raw m = tables.power pk.n pk.g (b.bit_count pk.u) (b.rem m pk.u)

    abbrev pub plaintext_bound : ℤ
    plaintext_bound = b.div pk.u (pos 2)
