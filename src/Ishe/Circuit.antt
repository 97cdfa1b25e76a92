-- ===== src/Ishe/Circuit.antt =====
-- Computations with the operations of ishe: their plaintexts, degrees and noise.
use heu.Base.{ℕ, suc, ◌+◌, ◌*◌, ◌^◌, ◌<◌, ◌≤◌, ◌≡◌, Result, ok, ◌>>=◌}
use heu.Base.Int.{ℤ, pos, negsuc, pos_part, neg_part, neg_ℤ, ◌+ℤ◌, ◌*ℤ◌}
use heu.Paillier.BigInts.{BigInts}
use heu.Ishe.Scheme as S
use heu.Ishe.Scheme.{Ciphertext, SecretKey, PublicParameters, power}

-- A computation, with what its operations draw. Ciphertexts of different degrees are not added.
pub data Circuit : Type 0 where
  encrypt : ℤ → ℕ → ℤ → Circuit
  add mul : Circuit → Circuit → Circuit
  negate randomize : Circuit → ℕ → Circuit
  add_plain : Circuit → ℤ → ℕ → ℕ → Circuit
  mul_plain : Circuit → ℤ → ℕ → Circuit
  square : Circuit → Circuit
  pow : Circuit → ℕ → Circuit

unfoldable pub value : Circuit → ℤ
value (encrypt m r r1) = m
value (add x y) = value x +ℤ value y
value (mul x y) = value x *ℤ value y
value (negate x i) = neg_ℤ (value x)
value (randomize x i) = value x
value (add_plain x k i j) = value x +ℤ k
value (mul_plain x k j) = value x *ℤ k
value (square x) = value x *ℤ value x
value (pow x k) = power (value x) k

unfoldable pub degree : Circuit → ℕ
degree (encrypt m r r1) = 1
degree (add x y) = degree x
degree (mul x y) = degree x + degree y
degree (negate x i) = degree x
degree (randomize x i) = degree x + 1
degree (add_plain x k i j) = degree x
degree (mul_plain x k j) = degree x
degree (square x) = degree x * 2
degree (pow x k) = degree x * k

-- A product with k, for fresh noise f.
abbrev pub noise_times : ℕ → ℕ → ℤ → ℕ
noise_times f x (pos k) = x * k
noise_times f x (negsuc k) = f * x * suc k

-- A bound on the noise, where f bounds that of an encryption.
unfoldable pub noise : ℕ → Circuit → ℕ
noise f (encrypt m r r1) = f
noise f (add x y) = noise f x + noise f y
noise f (mul x y) = noise f x * noise f y
noise f (negate x i) = f * noise f x
noise f (randomize x i) = noise f x * f
noise f (add_plain x k i j) = noise f x + noise_times f f k
noise f (mul_plain x k j) = noise_times f (noise f x) k
noise f (square x) = noise f x * noise f x
noise f (pow x k) = noise f x ^ k

-- The numbers of ciphertexts in the vectors.
pub record Sizes : Type 0 where
  pub addones : ℕ
  pub ones : ℕ
  pub negs : ℕ

-- Plaintexts are in the message space, r is from 1 to its bound, indices are in range, and only
-- ciphertexts of the same degree are added.
unfoldable pub InBounds : ℕ → ℕ → Sizes → Circuit → Type 0
InBounds half bound z (encrypt m r r1) =
    (pos_part m < half) × (neg_part m ≤ half) × (0 < r) × (r < bound) × (t : ℕ) × (r1 ≡ pos t)
InBounds half bound z (add x y) =
    InBounds half bound z x × InBounds half bound z y × (degree x ≡ degree y)
InBounds half bound z (mul x y) = InBounds half bound z x × InBounds half bound z y
InBounds half bound z (negate x i) = InBounds half bound z x × (i < z.negs)
InBounds half bound z (randomize x i) = InBounds half bound z x × (i < z.ones)
InBounds half bound z (add_plain x k i j) =
    InBounds half bound z x × (0 < degree x) × (degree x ≤ z.addones) × (i < z.ones) × (j < z.negs)
InBounds half bound z (mul_plain x k j) = InBounds half bound z x × (j < z.negs)
InBounds half bound z (square x) = InBounds half bound z x
InBounds half bound z (pow x k) = InBounds half bound z x

module _ (b : BigInts) (pp : PublicParameters) (sk : SecretKey) where
  unfoldable pub run : Circuit → Result Ciphertext
  run (encrypt m r r1) = S.encrypt b pp sk m (pos r) r1
  run (add x y) = run x >>= λ c. run y >>= λ d. S.add b pp c d 0 0
  run (mul x y) = run x >>= λ c. run y >>= λ d. ok (S.mul b pp c d)
  run (negate x i) = run x >>= λ c. S.negate b pp c i
  run (randomize x i) = run x >>= λ c. S.randomize b pp c i
  run (add_plain x k i j) = run x >>= λ c. S.add_plain b pp c k i j
  run (mul_plain x k j) = run x >>= λ c. S.mul_plain b pp c k j
  run (square x) = run x >>= λ c. ok (S.square b pp c)
  run (pow x k) = run x >>= λ c. ok (S.pow b pp c k)
