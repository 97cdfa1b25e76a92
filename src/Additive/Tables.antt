-- ===== src/Additive/Tables.antt =====
-- The tables of powers that MakeBaseTable fills and PowMod reads: a power of a fixed base, for the
-- exponents of a number of bits.
use heu.Base.{ℕ, ◌^◌, ◌%◌, ◌<◌, ◌≡◌}
use heu.Base.Int.{ℤ, pos}
use heu.Paillier.BigInts.{BigInts, InSpace, plain}

pub record Tables : Type 0 where
  -- the modulus, the base, the bits of the table and the exponent
  pub power : ℤ → ℤ → ℕ → ℤ → ℤ

-- The documented behaviour.
pub record IsTables (b : BigInts) (tables : Tables) : Type 0 where
  pub power_is :
      (a bits e m : ℕ)
      → 0 < m
      → e < 2 ^ bits
      → plain b m (tables.power (pos m) (pos a) bits (pos e)) ≡ a ^ e % m
  pub power_in :
      (a bits e m : ℕ)
      → 0 < m
      → e < 2 ^ bits
      → InSpace m (tables.power (pos m) (pos a) bits (pos e))
