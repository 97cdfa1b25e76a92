-- ===== src/MockFhe/Multiply/Power.antt =====
-- `DoPow` by squaring computes the iterated product.
use heu.Base.{
  ℕ, zero, suc, ◌+◌, ◌/◌, ◌%◌, ◌^◌, ◌<◌, ◌≡◌, refl, sym, ◌∙◌, ap, true, not, ◌&&◌, List, Option,
  none, some, ◌==◌, ltb, if◌then◌else◌, Result, ok, ◌>>=◌, Bool-cases, ==_iff, arith, inl, inr,
}
use native.Mathlib.Nat.{pow-suc, add-zero}
use mathlib.Core.Option.{some-injective}
use heu.Base.Words.{is_negative}
use heu.MockFhe.Objects.{Double, MockObj}
use heu.MockFhe.Evaluator.{Evaluator}
use heu.MockFhe.Multiply.Defs.{out_is_a, out_is_both, do_mul, accumulate, pow_loop, do_pow}
use heu.MockFhe.Multiply.Arrays.{
  mul_array, mul_scale, mul_array_assoc, mul_array-IsFull, IsFull, do_mul_full,
}

-- a * a * … * a with n + 1 factors.
pub power : Evaluator → List ℕ → ℕ → List ℕ
power e a zero = a
power e a (suc n) = mul_array e (power e a n) a

-- An absent accumulator is the neutral element.
abbrev times : Evaluator → Option (List ℕ) → List ℕ → List ℕ
times e none s = s
times e (some o) s = mul_array e o s

-- The accumulator times `s`, `n` times over.
times_power : Evaluator → Option (List ℕ) → List ℕ → ℕ → Option (List ℕ)
times_power e o s zero = o
times_power e o s (suc n) = times_power e (some (times e o s)) s n

abbrev IsFull? : Evaluator → Option (List ℕ) → Type 0
IsFull? e none = Unit {0}
IsFull? e (some o) = IsFull e o

module _ (e : Evaluator) where
  times-IsFull :
      (o : Option (List ℕ)) (s : List ℕ) → IsFull? e o → IsFull e s → IsFull e (times e o s)
  times-IsFull none s ho hs = hs
  times-IsFull (some o) s ho hs = mul_array-IsFull e o s ho hs

  times_twice :
      (o : Option (List ℕ)) (s : List ℕ)
      → IsFull? e o
      → IsFull e s
      → times e (some (times e o s)) s ≡ times e o (mul_array e s s)
  times_twice none s ho hs = refl
  times_twice (some o) s ho hs = mul_array_assoc e o s ho hs s

  -- Twice as many factors are as many factors of the square.
  times_power_even :
      (o : Option (List ℕ)) (s : List ℕ) (k n : ℕ)
      → n ≡ k + k
      → IsFull? e o
      → IsFull e s
      → times_power e o s n ≡ times_power e o (mul_array e s s) k
  unfolding times_power
  times_power_even o s zero zero h ho hs = refl
  times_power_even o s zero (suc n) h ho hs = absurd (omega arith)
  times_power_even o s (suc k) zero h ho hs = absurd (omega arith)
  times_power_even o s (suc k) (suc zero) h ho hs = absurd (omega arith)
  times_power_even o s (suc k) (suc (suc n)) h ho hs =
      ap (λ t. times_power e (some t) s n) (times_twice o s ho hs)
      ∙ times_power_even (some (times e o (mul_array e s s))) s k n (omega arith)
          (times-IsFull o (mul_array e s s) ho (mul_array-IsFull e s s hs hs)) hs

  times_power_none :
      (s o : List ℕ) (m n : ℕ)
      → o ≡ power e s m
      → times_power e (some o) s n ≡ some (power e s (n + m))
  unfolding times_power power
  times_power_none s o m zero h = ap some (h ∙ ap (power e s) (omega arith))
  times_power_none s o m (suc n) h =
      times_power_none s (mul_array e o s) (suc m) n (ap (λ t. mul_array e t s) h)
      ∙ ap (λ k. some (power e s k)) (omega arith)

times_power_self :
    (e : Evaluator) (s : List ℕ) (n : ℕ) → times_power e none s (suc n) ≡ some (power e s n)
unfolding times_power power
times_power_self e s n = times_power_none e s s 0 n refl ∙ ap (λ k. some (power e s k)) (add-zero n)

half_below : (f exp : ℕ) → exp < 2 ^ suc f → exp / 2 < 2 ^ f
half_below f exp h = omega (arith, pow-suc 2 f)

module _ {F : Type 0} (d : Double F) (e : Evaluator) where
  abbrev array? : Option (MockObj F) → Option (List ℕ)
  array? none = none
  array? (some x) = some x.array

  accumulate_full :
      (o : Option (MockObj F)) (s : MockObj F)
      → IsFull? e (array? o)
      → IsFull e s.array
      → (r : MockObj F) × (accumulate d e o s ≡ ok (some r))
        × (r.array ≡ times e (array? o) s.array)
  unfolding accumulate
  accumulate_full none s ho hs = (s, refl, refl)
  accumulate_full (some o) s ho hs = (
    record { array = mul_array e o.array s.array; scale = mul_scale d e o s },
    rw (do_mul_full d e out_is_a o s ho hs (λ p. cc)) refl,
    refl,
  )

  square_full :
      (s : MockObj F)
      → IsFull e s.array
      → (r : MockObj F) × (do_mul d e out_is_both s s ≡ ok r)
        × (r.array ≡ mul_array e s.array s.array)
  square_full s hs = (
    record { array = mul_array e s.array s.array; scale = mul_scale d e s s },
    do_mul_full d e out_is_both s s hs hs (λ p. refl),
    refl,
  )

  -- What the loop leaves: the accumulator times the power of `s`.
  abbrev Leaves : Option (List ℕ) → Result (Option (MockObj F)) → Type 0
  Leaves spec res = (r : Option (MockObj F)) × (res ≡ ok r) × (array? r ≡ spec)

  -- The part of a round behind the test of the lowest bit.
  after_bit :
      (f exp : ℕ) (s : MockObj F) (o : Option (MockObj F))
      → ((t : MockObj F) (q : Option (MockObj F))
          → IsFull e t.array
          → IsFull? e (array? q)
          → Leaves (times_power e (array? q) t.array (exp / 2)) (pow_loop d f e (exp / 2) t q))
      → IsFull e s.array
      → IsFull? e (array? o)
      → Leaves (times_power e (array? o) s.array (exp / 2 + exp / 2)) (
          (if exp / 2 == 0 then ok s else do_mul d e out_is_both s s) >>= λ t.
          pow_loop d f e (exp / 2) t o)
  after_bit f exp s o ih hs ho = elim (Bool-cases (exp / 2 == 0)) [
    | inl last ↦
        let z : exp / 2 ≡ 0 = (==_iff _ _).0 last in
        let (r, run, spec) = ih s o hs ho in
        rw last (r, run, spec ∙ ap (times_power e (array? o) s.array) (omega arith))
    | inr more ↦
        let (t, sq, ta) = square_full s hs in
        let ht : IsFull e t.array = rw ta (mul_array-IsFull e s.array s.array hs hs) in
        let (r, run, spec) = ih t o ht ho in
        rw (more, sq)
          (
            r,
            run,
            spec
                ∙ (ap (λ x. times_power e (array? o) x (exp / 2)) ta
                    ∙ sym (
                        times_power_even e (array? o) s.array (exp / 2) (exp / 2 + exp / 2) refl ho
                          hs)),
          )
  ]

  pow_loop_lem :
      (f exp : ℕ) (s : MockObj F) (o : Option (MockObj F))
      → exp < 2 ^ f
      → IsFull e s.array
      → IsFull? e (array? o)
      → Leaves (times_power e (array? o) s.array exp) (pow_loop d (suc f) e exp s o)
  unfolding pow_loop times_power
  pow_loop_lem zero exp s o h hs ho = let z : exp ≡ 0 = omega arith in rw z (o, refl, refl)
  pow_loop_lem (suc f) exp s o h hs ho = elim (Bool-cases (exp == 0)) [
    | inl stop ↦ let z : exp ≡ 0 = (==_iff _ _).0 stop in rw z (o, refl, refl)
    | inr go ↦ rw go (elim (Bool-cases (exp % 2 == 1)) [
      | inl odd ↦
          let one : exp ≡ suc (exp / 2 + exp / 2) = ground arith in
          let (q, acc, qa) = accumulate_full o s ho hs in
          let hq : IsFull e q.array = rw qa (times-IsFull e (array? o) s.array ho hs) in
          let (r, run, spec) =
            after_bit (suc f) exp s (some q)
              (λ t w ht hw. pow_loop_lem f (exp / 2) t w (half_below f exp h) ht hw) hs hq in
          rw (odd, acc)
            (
              r,
              run,
              spec
                  ∙ (ap (λ x. times_power e (some x) s.array (exp / 2 + exp / 2)) qa
                      ∙ ap (times_power e (array? o) s.array) (sym one)),
            )
      | inr even ↦
          let two : exp / 2 + exp / 2 ≡ exp = ground arith in
          let (r, run, spec) =
            after_bit (suc f) exp s o
              (λ t w ht hw. pow_loop_lem f (exp / 2) t w (half_below f exp h) ht hw) hs ho in
          rw even (r, run, spec ∙ ap (times_power e (array? o) s.array) two)
    ])
  ]

  -- For a positive exponent and a vector of two rows, with a relinearisation key, `DoPow` succeeds
  -- within its 64 rounds, and its array is the iterated product of the exponent's many factors.
  pub do_pow-power :
      (a : MockObj F) (n : ℕ)
      → e.rlk ≡ true
      → IsFull e a.array
      → suc n < 2 ^ 63
      → (r : MockObj F) × (do_pow d e a (suc n) ≡ ok r) × (r.array ≡ power e a.array n)
  unfolding do_pow
  do_pow-power a n key full small = finish (pow_loop_lem 63 (suc n) a none small full tt)
    where
      positive : (ltb 0 (suc n) && not (is_negative (suc n))) ≡ true
      positive = ground arith

      finish :
          Leaves (times_power e none a.array (suc n)) (pow_loop d 64 e (suc n) a none)
          → (r : MockObj F) × (do_pow d e a (suc n) ≡ ok r) × (r.array ≡ power e a.array n)
      finish (none, run, spec) = cc (times_power_self e a.array n)
      finish (some r, run, spec) = (
        r,
        simp (key, positive, run) refl,
        some-injective r.array (power e a.array n) (spec ∙ times_power_self e a.array n),
      )
