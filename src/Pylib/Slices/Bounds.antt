-- ===== src/Pylib/Slices/Bounds.antt =====
-- What the conversion of an integer to int64_t makes of it, and which integers index a dimension.
use heu.Base.{
  ℕ, ◌+◌, ◌-◌, ◌^◌, ◌<◌, ◌≤◌, ◌≡◌, ◌⊎◌, inl, inr, ltb, leb, ltb→lt, leb→le, if◌then◌else◌, ok, err,
  Bool-cases, arith,
}
use heu.Base.{index_error}
use heu.Base.Int.{ℤ, pos, negsuc, ◌+ℤ◌, ltb_ℤ, pos_part, neg_part}
use heu.Pylib.Slices.{compute_int}

-- From -2^63 to 2^63 - 1.
abbrev pub IsInt64 : ℤ → Type 0
IsInt64 x = (pos_part x < 2 ^ 63) × (neg_part x ≤ 2 ^ 63)

-- The documented behaviour of PyLong_AsLongLong, which the conversion calls: an integer that is no
-- int64_t gives -1.
pub record IsConversion (as_int64 : ℤ → ℤ) : Type 0 where
  pub exact : (x : ℤ) → IsInt64 x → as_int64 x ≡ x
  pub overflow : (x : ℤ) → ¬ IsInt64 x → as_int64 x ≡ negsuc 0

-- The number i is from -n to n - 1.
abbrev pub IsIndex : ℕ → ℤ → Type 0
IsIndex n i = (pos_part i < n) × (neg_part i ≤ n)

-- The sum with n of an int64_t that is an index and negative.
converted_lem :
    (as_int64 : ℤ → ℤ) (i x : ℤ) (n : ℕ)
    → as_int64 i ≡ x
    → (IsIndex n x
        × (k : ℕ) × (compute_int as_int64 i n ≡ ok (pos k))
        × (k < n)
        × (k + neg_part x ≡ pos_part x + (if ltb_ℤ x (pos 0) then n else 0)))
      ⊎ (¬ IsIndex n x × (compute_int as_int64 i n ≡ err index_error))
unfolding compute_int ◌+ℤ◌
converted_lem as_int64 i (pos a) n same = elim (Bool-cases (ltb a n)) [
  | inl small ↦
      let lt : a < n = ground arith in
      inl ((omega arith, omega arith), a, rw same (ground arith), lt, ground arith)
  | inr large ↦ inr (λ h. ground arith, rw same (ground arith))
]
converted_lem as_int64 i (negsuc a) n same = elim (Bool-cases (ltb a n)) [
  | inl small ↦
      let lt : a < n = ground arith in
      inl ((omega arith, omega arith), n - a - 1, rw same (ground arith), omega arith, ground arith)
  | inr large ↦ inr (λ h. ground arith, rw same (ground arith))
]

-- What -1 stands for.
last_lem :
    (as_int64 : ℤ → ℤ) (i : ℤ) (n : ℕ)
    → as_int64 i ≡ negsuc 0
    → compute_int as_int64 i n ≡ (if ltb 0 n then ok (pos (n - 1)) else err index_error)
unfolding compute_int ◌+ℤ◌
last_lem as_int64 i n same = rw same (ground arith)

IsInt64-cases : (x : ℤ) → IsInt64 x ⊎ ¬ IsInt64 x
IsInt64-cases x = elim (Bool-cases (ltb (pos_part x) (2 ^ 63))) [
  | inl high ↦ elim (Bool-cases (leb (neg_part x) (2 ^ 63))) [
    | inl low ↦ inl (ltb→lt _ _ high, leb→le _ _ low)
    | inr low ↦ inr (λ h. ground arith)
  ]
  | inr high ↦ inr (λ h. ground arith)
]

-- Where the conversion behaves as documented: an int64_t from -n to n - 1 stands for itself or, when
-- it is negative, for its sum with n, which is from 0 to n - 1; any other int64_t is refused. An
-- integer that is no int64_t selects the last element, and is refused only if there is none.
pub compute_int_cases :
    (as_int64 : ℤ → ℤ) (laws : IsConversion as_int64) (i : ℤ) (n : ℕ)
    → (IsInt64 i
        × IsIndex n i
        × (k : ℕ) × (compute_int as_int64 i n ≡ ok (pos k))
        × (k < n)
        × (k + neg_part i ≡ pos_part i + (if ltb_ℤ i (pos 0) then n else 0)))
      ⊎ ((IsInt64 i × ¬ IsIndex n i × (compute_int as_int64 i n ≡ err index_error))
          ⊎ (¬ IsInt64 i
              × (compute_int as_int64 i n
                  ≡ (if ltb 0 n then ok (pos (n - 1)) else err index_error))))
compute_int_cases as_int64 laws i n = elim (IsInt64-cases i) [
  | inl fits ↦ elim (converted_lem as_int64 i i n (laws.exact i fits)) [
    | inl (inside, k, run, below, is) ↦ inl (fits, inside, k, run, below, is)
    | inr (outside, run) ↦ inr (inl (fits, outside, run))
  ]
  | inr large ↦ inr (inr (large, last_lem as_int64 i n (laws.overflow i large)))
]
