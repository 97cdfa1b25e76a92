-- ===== src/PaillierFloat.antt =====
-- heu/library/algorithms/paillier_float: numbers with an exponent to the base 16, as the scheme
-- encrypts them (public_key.h, public_key.cc, internal/codec.h, internal/codec.cc, evaluator.cc). The arithmetic
-- of the big integers is an argument.
pub mod Codec
pub mod Evaluator
pub mod Examples
use heu.Base.{
  ℕ, suc, ◌+◌, ◌*◌, ◌/◌, ◌%◌, ◌^◌, ◌<◌, ◌≡◌, Bool, leb, if◌then◌else◌, Result, ok, err, enforce,
  ◌>>=◌, ◌>>◌,
}
use heu.Base.{plaintext_out_of_range, number_corrupted, overflow_detected}
use heu.Base.Int.{ℤ, pos, negsuc, pos_part, neg_part, neg_ℤ, ltb_ℤ, ◌+ℤ◌, ◌-ℤ◌, ◌*ℤ◌}
use heu.Base.Int.Residue.{residue}

-- a / b, a % b, a.Pow(k), a.MulMod(b, m), a.PowMod(e, m)
pub record Integers : Type 0 where
  pub div : ℤ → ℤ → ℤ
  pub rem : ℤ → ℤ → ℤ
  pub pow : ℤ → ℕ → ℤ
  pub mul_mod : ℤ → ℤ → ℤ → ℤ
  pub pow_mod : ℤ → ℤ → ℤ → ℤ

-- The documented behaviour, on the arguments that the scheme uses.
pub record IsIntegers (b : Integers) : Type 0 where
  pub div_is : (a d : ℕ) → 0 < d → b.div (pos a) (pos d) ≡ pos (a / d)
  -- Division rounds towards 0.
  pub div_neg_is : (a d : ℕ) → 0 < d → b.div (negsuc a) (pos d) ≡ neg_ℤ (pos (suc a / d))
  pub rem_is : (x : ℤ) (m : ℕ) → 0 < m → b.rem x (pos m) ≡ pos (residue m x)
  pub pow_is : (a k : ℕ) → b.pow (pos a) k ≡ pos (a ^ k)
  pub mul_mod_is : (x y m : ℕ) → 0 < m → b.mul_mod (pos x) (pos y) (pos m) ≡ pos (x * y % m)
  pub pow_mod_is : (x e m : ℕ) → 0 < m → b.pow_mod (pos x) (pos e) (pos m) ≡ pos (x ^ e % m)

pub record PublicKey : Type 0 where
  pub n : ℤ
  pub n_square : ℤ
  pub g : ℤ
  pub max_int : ℤ

pub record EncodedNumber : Type 0 where
  pub encoding : ℤ
  pub exponent : ℤ

abbrev pub base : ℤ
base = pos 16

-- a.CompareAbs(b) <= 0
abbrev pub within : ℤ → ℤ → Bool
within a b = leb (pos_part a + neg_part a) (pos_part b + neg_part b)

-- a <= b
abbrev pub at_most : ℤ → ℤ → Bool
at_most a b = leb (pos_part a + neg_part b) (pos_part b + neg_part a)

module _ (b : Integers) where
  unfoldable pub init : ℤ → PublicKey
  init n = record { n = n; n_square = n *ℤ n; g = n +ℤ pos 1; max_int = b.div n (pos 3) }

  unfoldable pub encode : PublicKey → ℤ → ℤ → Result EncodedNumber
  encode pk scalar exponent = do
    enforce (within scalar pk.max_int) plaintext_out_of_range
    ok (record { encoding = b.rem scalar pk.n; exponent = exponent })

  unfoldable pub get_mantissa : PublicKey → EncodedNumber → Result ℤ
  get_mantissa pk encoded = do
    enforce (ltb_ℤ encoded.encoding pk.n) number_corrupted
    if at_most encoded.encoding pk.max_int
        then ok encoded.encoding
        else if at_most (pk.n -ℤ pk.max_int) encoded.encoding
        then ok (encoded.encoding -ℤ pk.n)
        else err overflow_detected

  -- The mantissa, with the exponent carried out.
  unfoldable pub scaled : ℤ → ℤ → ℤ
  scaled mantissa (pos k) = mantissa *ℤ b.pow base k
  scaled mantissa (negsuc k) = b.div mantissa (b.pow base (suc k))

  unfoldable pub decode : PublicKey → EncodedNumber → Result ℤ
  decode pk encoded = do mantissa ← get_mantissa pk encoded; ok (scaled mantissa encoded.exponent)
