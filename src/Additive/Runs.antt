-- ===== src/Additive/Runs.antt =====
-- Computations with the operations of a scheme. An operation that draws a random number is given the
-- place of the draw. What the schemes prove of each operation gives what holds of every computation.
use heu.Base.{ℕ, ◌≡◌, refl, Result, ok, ◌>>=◌}
use heu.Base.Int.{ℤ, pos, neg_ℤ, ◌+ℤ◌, ◌-ℤ◌, ◌*ℤ◌}
use heu.Paillier.Scheme.{Ciphertext}
use heu.Paillier.Scheme.Circuit.{Circuit, value, Small, InBounds, both}

-- The operations of an encryptor and an evaluator.
pub record Operations : Type 0 where
  pub encrypt : ℤ → ℕ → Result Ciphertext
  pub encrypt_zero : ℕ → Ciphertext
  pub randomize : Ciphertext → ℕ → Result Ciphertext
  pub add : Ciphertext → Ciphertext → Result Ciphertext
  pub add_inplace : Ciphertext → Ciphertext → Result Ciphertext
  pub sub : Ciphertext → Ciphertext → Result Ciphertext
  pub sub_inplace : Ciphertext → Ciphertext → Result Ciphertext
  pub add_plain : Ciphertext → ℤ → Result Ciphertext
  pub sub_plain : Ciphertext → ℤ → Result Ciphertext
  pub plain_sub : ℤ → Ciphertext → Result Ciphertext
  pub mul : Ciphertext → ℤ → Result Ciphertext
  pub negate : Ciphertext → Result Ciphertext

unfoldable pub run : Operations → Circuit → Result Ciphertext
run s (Circuit.encrypt m r) = s.encrypt m r
run s (Circuit.encrypt_zero r) = ok (s.encrypt_zero r)
run s (Circuit.randomize x r) = run s x >>= λ c. s.randomize c r
run s (Circuit.add x y) = both s.add (run s x) (run s y)
run s (Circuit.add_inplace x y) = both s.add_inplace (run s x) (run s y)
run s (Circuit.sub x y) = both s.sub (run s x) (run s y)
run s (Circuit.sub_inplace x y) = both s.sub_inplace (run s x) (run s y)
run s (Circuit.add_plain x m) = run s x >>= λ c. s.add_plain c m
run s (Circuit.sub_plain x m) = run s x >>= λ c. s.sub_plain c m
run s (Circuit.plain_sub m x) = run s x >>= s.plain_sub m
run s (Circuit.mul x m) = run s x >>= λ c. s.mul c m
run s (Circuit.negate x) = run s x >>= s.negate

module _ (Value : ℤ → ℤ → Type 0) where
  -- The result is a ciphertext that holds m.
  abbrev pub Yields : ℤ → Result Ciphertext → Type 0
  Yields m r = (ct : Ciphertext) × (r ≡ ok ct) × Value m ct.c

  -- Each operation computes on the plaintexts, for plaintexts of at most a limit where it checks.
  pub record IsHomomorphic (limit : ℕ) (s : Operations) : Type 0 where
    pub encrypt_is : (m : ℤ) (r : ℕ) → Small limit m → Yields m (s.encrypt m r)
    pub encrypt_zero_is : (r : ℕ) → Value (pos 0) (s.encrypt_zero r).c
    pub randomize_is : (x : Ciphertext) (m : ℤ) (r : ℕ) → Value m x.c → Yields m (s.randomize x r)
    pub add_is :
        (x y : Ciphertext) (m k : ℤ) → Value m x.c → Value k y.c → Yields (m +ℤ k) (s.add x y)
    pub add_inplace_is :
        (x y : Ciphertext) (m k : ℤ)
        → Value m x.c
        → Value k y.c
        → Yields (m +ℤ k) (s.add_inplace x y)
    pub sub_is :
        (x y : Ciphertext) (m k : ℤ) → Value m x.c → Value k y.c → Yields (m -ℤ k) (s.sub x y)
    pub sub_inplace_is :
        (x y : Ciphertext) (m k : ℤ)
        → Value m x.c
        → Value k y.c
        → Yields (m -ℤ k) (s.sub_inplace x y)
    pub add_plain_is :
        (x : Ciphertext) (m k : ℤ) → Small limit k → Value m x.c → Yields (m +ℤ k) (s.add_plain x k)
    pub sub_plain_is :
        (x : Ciphertext) (m k : ℤ) → Small limit k → Value m x.c → Yields (m -ℤ k) (s.sub_plain x k)
    pub plain_sub_is :
        (x : Ciphertext) (m k : ℤ) → Small limit k → Value m x.c → Yields (k -ℤ m) (s.plain_sub k x)
    pub mul_is : (x : Ciphertext) (m k : ℤ) → Value m x.c → Yields (m *ℤ k) (s.mul x k)
    pub negate_is : (x : Ciphertext) (m : ℤ) → Value m x.c → Yields (neg_ℤ m) (s.negate x)

  both_lem :
      {m k v : ℤ} (f : Ciphertext → Ciphertext → Result Ciphertext) (r s : Result Ciphertext)
      → ((x y : Ciphertext) → Value m x.c → Value k y.c → Yields v (f x y))
      → Yields m r
      → Yields k s
      → Yields v (both f r s)
  both_lem f r s step (x, ran, e) (y, ran', e') = rw (ran, ran') (step x y e e')

  then_lem :
      {m v : ℤ} (f : Ciphertext → Result Ciphertext) (r : Result Ciphertext)
      → ((x : Ciphertext) → Value m x.c → Yields v (f x))
      → Yields m r
      → Yields v (r >>= f)
  then_lem f r step (x, ran, e) = rw ran (step x e)

  module _ (limit : ℕ) (s : Operations) (laws : IsHomomorphic limit s) where
    pub run-Yields : (e : Circuit) → InBounds limit e → Yields (value e) (run s e)
    unfolding run value InBounds
    run-Yields (Circuit.encrypt m r) h = laws.encrypt_is m r h
    run-Yields (Circuit.encrypt_zero r) h = (_, refl, laws.encrypt_zero_is r)
    run-Yields (Circuit.randomize x r) h =
        then_lem (λ c. s.randomize c r) (run s x) (λ c e. laws.randomize_is c (value x) r e)
          (run-Yields x h)
    run-Yields (Circuit.add x y) h =
        both_lem s.add (run s x) (run s y) (λ c d. laws.add_is c d (value x) (value y))
          (run-Yields x h.0) (run-Yields y h.1)
    run-Yields (Circuit.add_inplace x y) h =
        both_lem s.add_inplace (run s x) (run s y)
          (λ c d. laws.add_inplace_is c d (value x) (value y)) (run-Yields x h.0) (run-Yields y h.1)
    run-Yields (Circuit.sub x y) h =
        both_lem s.sub (run s x) (run s y) (λ c d. laws.sub_is c d (value x) (value y))
          (run-Yields x h.0) (run-Yields y h.1)
    run-Yields (Circuit.sub_inplace x y) h =
        both_lem s.sub_inplace (run s x) (run s y)
          (λ c d. laws.sub_inplace_is c d (value x) (value y)) (run-Yields x h.0) (run-Yields y h.1)
    run-Yields (Circuit.add_plain x k) h =
        then_lem (λ c. s.add_plain c k) (run s x) (λ c. laws.add_plain_is c (value x) k h.1)
          (run-Yields x h.0)
    run-Yields (Circuit.sub_plain x k) h =
        then_lem (λ c. s.sub_plain c k) (run s x) (λ c. laws.sub_plain_is c (value x) k h.1)
          (run-Yields x h.0)
    run-Yields (Circuit.plain_sub k x) h =
        then_lem (s.plain_sub k) (run s x) (λ c. laws.plain_sub_is c (value x) k h.1)
          (run-Yields x h.0)
    run-Yields (Circuit.mul x k) h =
        then_lem (λ c. s.mul c k) (run s x) (λ c. laws.mul_is c (value x) k) (run-Yields x h)
    run-Yields (Circuit.negate x) h =
        then_lem s.negate (run s x) (λ c. laws.negate_is c (value x)) (run-Yields x h)
