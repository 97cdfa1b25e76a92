-- ===== src/Paillier/Scheme/Circuit.antt =====
-- Runs of the encryptor and the evaluator, and the arithmetic on plaintexts that they stand for.
use heu.Base.{ℕ, ◌+◌, ◌≤◌, Result, ok, ◌>>=◌}
use heu.Base.Int.{ℤ, pos, pos_part, neg_part, neg_ℤ, ◌+ℤ◌, ◌-ℤ◌, ◌*ℤ◌}
use heu.Paillier.BigInts.{BigInts}
use heu.Paillier.Keys.{PublicKey}
use heu.Paillier.Scheme as S
use heu.Paillier.Scheme.{Ciphertext}

-- A computation; a number stands beside each operation that draws one.
pub data Circuit : Type 0 where
  encrypt : ℤ → ℕ → Circuit
  encrypt_zero : ℕ → Circuit
  randomize : Circuit → ℕ → Circuit
  add add_inplace sub sub_inplace : Circuit → Circuit → Circuit
  add_plain sub_plain mul : Circuit → ℤ → Circuit
  plain_sub : ℤ → Circuit → Circuit
  negate : Circuit → Circuit

unfoldable pub value : Circuit → ℤ
value (encrypt m r) = m
value (encrypt_zero r) = pos 0
value (randomize x r) = value x
value (add x y) = value x +ℤ value y
value (add_inplace x y) = value x +ℤ value y
value (sub x y) = value x -ℤ value y
value (sub_inplace x y) = value x -ℤ value y
value (add_plain x m) = value x +ℤ m
value (sub_plain x m) = value x -ℤ m
value (plain_sub m x) = m -ℤ value x
value (mul x m) = value x *ℤ m
value (negate x) = neg_ℤ (value x)

abbrev pub Small : ℕ → ℤ → Type 0
Small half m = pos_part m + neg_part m ≤ half

-- The plaintexts that the encryptor and the evaluator check are at most half the modulus.
unfoldable pub InBounds : ℕ → Circuit → Type 0
InBounds half (encrypt m r) = Small half m
InBounds half (encrypt_zero r) = Unit
InBounds half (randomize x r) = InBounds half x
InBounds half (add x y) = InBounds half x × InBounds half y
InBounds half (add_inplace x y) = InBounds half x × InBounds half y
InBounds half (sub x y) = InBounds half x × InBounds half y
InBounds half (sub_inplace x y) = InBounds half x × InBounds half y
InBounds half (add_plain x m) = InBounds half x × Small half m
InBounds half (sub_plain x m) = InBounds half x × Small half m
InBounds half (plain_sub m x) = InBounds half x × Small half m
InBounds half (mul x m) = InBounds half x
InBounds half (negate x) = InBounds half x

abbrev pub both : {A : Type 0} → (A → A → Result A) → Result A → Result A → Result A
both f r s = r >>= λ x. s >>= λ y. f x y

unfoldable pub run : BigInts → PublicKey → Circuit → Result Ciphertext
run b pk (encrypt m r) = S.encrypt b pk m r
run b pk (encrypt_zero r) = ok (S.encrypt_zero b pk r)
run b pk (randomize x r) = run b pk x >>= λ c. S.randomize b pk c r
run b pk (add x y) = both (S.add b pk) (run b pk x) (run b pk y)
run b pk (add_inplace x y) = both (S.add_inplace b pk) (run b pk x) (run b pk y)
run b pk (sub x y) = both (S.sub b pk) (run b pk x) (run b pk y)
run b pk (sub_inplace x y) = both (S.sub_inplace b pk) (run b pk x) (run b pk y)
run b pk (add_plain x m) = run b pk x >>= λ c. S.add_plain b pk c m
run b pk (sub_plain x m) = run b pk x >>= λ c. S.sub_plain b pk c m
run b pk (plain_sub m x) = run b pk x >>= S.plain_sub b pk m
run b pk (mul x m) = run b pk x >>= λ c. S.mul b pk c m
run b pk (negate x) = run b pk x >>= S.negate b pk
