-- ===== src/Paillier/BigInts.antt =====
-- What the scheme calls of yacl's big integers and Montgomery spaces. A big integer is an integer;
-- a Montgomery space is known by its modulus, and a table of powers by its base.
use heu.Base.{ℕ, suc, ◌+◌, ◌*◌, ◌/◌, ◌%◌, ◌^◌, ◌<◌, ◌≡◌}
use heu.Base.Int.Residue.{residue}
use heu.Base.Int.{ℤ, pos, negsuc, pos_part, neg_part}

pub record BigInts : Type 0 where
  -- a.MulMod(b, m), a.PowMod(e, m), a.InvMod(m)
  pub mul_mod : ℤ → ℤ → ℤ → ℤ
  pub pow_mod : ℤ → ℤ → ℤ → ℤ
  pub inv_mod : ℤ → ℤ → ℤ
  -- a / b, a % b, a >> k, a.BitCount(), a.Gcd(b)
  pub div : ℤ → ℤ → ℤ
  pub rem : ℤ → ℤ → ℤ
  pub shift_right : ℤ → ℕ → ℤ
  pub bit_count : ℤ → ℕ
  pub gcd : ℤ → ℤ → ℤ
  -- MapIntoMSpace, MapBackToZSpace, MulMod, PowMod on a table, Identity
  pub map_into : ℤ → ℤ → ℤ
  pub map_back : ℤ → ℤ → ℤ
  pub space_mul : ℤ → ℤ → ℤ → ℤ
  pub space_pow : ℤ → ℤ → ℤ → ℤ
  pub space_identity : ℤ → ℤ

-- The values that a space of modulus m holds.
pub record InSpace (m : ℕ) (c : ℤ) : Type 0 where
  pub at : ℕ
  pub is_pos : c ≡ pos at
  pub below : at < m

module _ (b : BigInts) where
  -- The residue that a value of a space stands for.
  abbrev pub plain : ℕ → ℤ → ℕ
  plain m c = residue m (b.map_back (pos m) c)

  -- The documented behaviour, on the arguments that the scheme uses.
  pub record IsBigInts : Type 0 where
    pub mul_mod_is :
        (x y : ℤ) (m : ℕ) → 0 < m → b.mul_mod x y (pos m) ≡ pos (residue m x * residue m y % m)
    pub pow_mod_is : (a e m : ℕ) → 0 < m → b.pow_mod (pos a) (pos e) (pos m) ≡ pos (a ^ e % m)
    pub pow_mod_neg :
        (a e m k : ℕ)
        → 0 < m
        → a * k % m ≡ 1 % m
        → b.pow_mod (pos a) (negsuc e) (pos m)
          ≡ b.pow_mod (b.inv_mod (pos a) (pos m)) (pos (suc e)) (pos m)
    pub inv_mod_is :
        (a m k : ℕ)
        → 0 < m
        → a * k % m ≡ 1 % m
        → (i : ℕ) × (b.inv_mod (pos a) (pos m) ≡ pos i) × (i < m) × (a * i % m ≡ 1 % m)
    pub div_is : (a d : ℕ) → 0 < d → b.div (pos a) (pos d) ≡ pos (a / d)
    pub rem_is : (x : ℤ) (m : ℕ) → 0 < m → b.rem x (pos m) ≡ pos (residue m x)
    pub shift_right_is : (a k : ℕ) → b.shift_right (pos a) k ≡ pos (a / 2 ^ k)
    pub gcd_is : (x m : ℕ) → 0 < m → b.gcd (pos x) (pos m) ≡ pos 1 → (v : ℕ) × (x * v % m ≡ 1 % m)
    pub no_bits : (x : ℤ) → b.bit_count x ≡ 0 → x ≡ pos 0
    pub one_bit : (x : ℤ) → b.bit_count x ≡ 1 → pos_part x + neg_part x ≡ 1
    pub map_back_is : (m : ℕ) (c : ℤ) → InSpace m c → b.map_back (pos m) c ≡ pos (plain m c)
    pub map_into_is : (x : ℤ) (m : ℕ) → 0 < m → plain m (b.map_into (pos m) x) ≡ residue m x
    pub map_into_in : (x : ℤ) (m : ℕ) → 0 < m → InSpace m (b.map_into (pos m) x)
    pub space_mul_is :
        (x y : ℤ) (m : ℕ)
        → InSpace m x
        → InSpace m y
        → plain m (b.space_mul (pos m) x y) ≡ plain m x * plain m y % m
    pub space_mul_in :
        (x y : ℤ) (m : ℕ) → InSpace m x → InSpace m y → InSpace m (b.space_mul (pos m) x y)
    pub space_pow_is :
        (a e m : ℕ) → 0 < m → plain m (b.space_pow (pos m) (pos a) (pos e)) ≡ a ^ e % m
    pub space_pow_in : (a e m : ℕ) → 0 < m → InSpace m (b.space_pow (pos m) (pos a) (pos e))
    pub identity_is : (m : ℕ) → 0 < m → plain m (b.space_identity (pos m)) ≡ 1 % m
    pub identity_in : (m : ℕ) → 0 < m → InSpace m (b.space_identity (pos m))
