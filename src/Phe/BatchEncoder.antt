-- ===== src/Phe/BatchEncoder.antt =====
-- heu/library/phe/encoding/batch_encoder.h: two integers of w bits in one plaintext. The operations of
-- the plaintext, which is a big integer, are an argument.
pub mod Sums
pub mod Decode
use heu.Base.{ℕ, ◌+◌, ◌-◌, ◌*◌, ◌/◌, ◌%◌, ◌^◌, ltb, if◌then◌else◌}
use heu.Base.Int.{ℤ, pos, negsuc, neg_ℤ, ◌-ℤ◌, ◌*ℤ◌}
use heu.Base.Int.Residue.{residue}

pub record PlaintextOps : Type 0 where
  pub shift_left : ℕ → ℕ → ℕ
  pub shift_right : ℕ → ℕ → ℕ
  pub bit_or : ℕ → ℕ → ℕ
  -- GetValue<T> for the signed type of w bits
  pub get_value : ℕ → ℕ → ℤ

pub record BatchEncoder : Type 0 where
  pub scale : ℤ
  pub padding_bits : ℕ

-- Two's complement: the signed number of a word of w bits.
abbrev pub signed : ℕ → ℕ → ℤ
signed w u = if ltb u (2 ^ (w - 1)) then pos u else pos u -ℤ pos (2 ^ w)

-- static_cast<T>
abbrev pub cast : ℕ → ℤ → ℤ
cast w x = signed w (residue (2 ^ w) x)

-- The division of the language, which truncates.
abbrev pub trunc_div : ℤ → ℤ → ℤ
trunc_div (pos a) (pos b) = pos (a / b)
trunc_div (pos a) (negsuc b) = neg_ℤ (pos (a / (b + 1)))
trunc_div (negsuc a) (pos b) = neg_ℤ (pos ((a + 1) / b))
trunc_div (negsuc a) (negsuc b) = pos ((a + 1) / (b + 1))

module _ (ops : PlaintextOps) (e : BatchEncoder) (w : ℕ) where
  unfoldable pub do_encode : ℕ → ℕ → ℕ
  do_encode first second =
      let pt = ops.shift_left second (w + e.padding_bits) in ops.bit_or pt first

  -- The product is taken in the signed type, its bits are those of the unsigned one.
  unfoldable pub encode : ℤ → ℤ → ℕ
  unfolding do_encode
  encode first second =
      let n1 = cast w (first *ℤ cast w e.scale) in
      let n2 = cast w (second *ℤ cast w e.scale) in
      do_encode (residue (2 ^ w) n1) (residue (2 ^ w) n2)

  unfoldable pub decode : ℕ → ℕ → ℤ
  decode index plaintext =
      let pt = ops.shift_right plaintext (index * (w + e.padding_bits)) in
      trunc_div (ops.get_value w pt) (cast w e.scale)
