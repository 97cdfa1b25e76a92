-- ===== src/Pylib/Examples.antt =====
-- The slices 1:8:3 and 1:5:2^63-1, and indices of a dimension of 5.
use heu.Base.{
  ℕ, ◌+◌, ◌-◌, ◌^◌, ◌<◌, ◌≡◌, refl, ◌⊎◌, inl, inr, List, [], ◌∷◌, some, none, get_elem?, ◌&&◌, ltb,
  leb, ltb→lt, leb→le, lt→ltb, le→leb, if◌then◌else◌, ok, err, Bool-cases, arith,
}
use heu.Base.{index_error}
use heu.Base.Int.{ℤ, pos, negsuc, ◌+ℤ◌, ◌-ℤ◌, ◌*ℤ◌, pos_part, neg_part}
use heu.Pylib.Slices.{Computed, wrap64, add_ssize, compute_int, up_loop, slice_indices}
use heu.Pylib.Slices.Bounds.{IsInt64, IsConversion, IsIndex, compute_int_cases}
use heu.Pylib.Slices.Loops.{goes_on, slice_indices-Items}

-- PyLong_AsLongLong, without its error.
abbrev as_int64 : ℤ → ℤ
as_int64 x = if ltb (pos_part x) (2 ^ 63) && leb (neg_part x) (2 ^ 63) then x else negsuc 0

as_int64-IsConversion : IsConversion as_int64
as_int64-IsConversion = record {
  exact = λ x h. rw (lt→ltb _ _ h.0, le→leb _ _ h.1) refl;
  overflow = λ x h. elim (Bool-cases (ltb (pos_part x) (2 ^ 63))) [
    | inl high ↦ elim (Bool-cases (leb (neg_part x) (2 ^ 63))) [
      | inl low ↦ absurd (h (ltb→lt _ _ high, leb→le _ _ low))
      | inr low ↦ rw (high, low) refl
    ]
    | inr high ↦ rw high refl
  ];
}

compute_int_cases_example :
    (IsInt64 (negsuc 1)
      × IsIndex 5 (negsuc 1)
      × (k : ℕ) × (compute_int as_int64 (negsuc 1) 5 ≡ ok (pos k))
      × (k < 5)
      × (k + 2 ≡ 0 + 5))
    ⊎ ((IsInt64 (negsuc 1)
          × ¬ IsIndex 5 (negsuc 1)
          × (compute_int as_int64 (negsuc 1) 5 ≡ err index_error))
        ⊎ (¬ IsInt64 (negsuc 1) × (compute_int as_int64 (negsuc 1) 5 ≡ ok (pos 4))))
compute_int_cases_example = compute_int_cases as_int64 as_int64-IsConversion (negsuc 1) 5

-- 2^64 selects the last of five elements.
converted_to_last : compute_int as_int64 (pos (2 ^ 64)) 5 ≡ ok (pos 4)
unfolding compute_int ◌+ℤ◌
converted_to_last = refl

abbrev upwards : Computed
upwards = record { start = pos 1; stop = pos 8; step = pos 3; items = 3 }

upwards_fits : IsInt64 (pos 8 +ℤ pos 3)
unfolding ◌+ℤ◌
upwards_fits = (omega arith, omega arith)

slice_indices-Items_example :
    (xs : List ℤ) × (slice_indices upwards ≡ ok xs)
    × ((j : ℕ)
        → get_elem? xs j ≡ (
            if goes_on upwards (pos 1 +ℤ pos j *ℤ pos 3)
            then some (pos 1 +ℤ pos j *ℤ pos 3)
            else none))
slice_indices-Items_example =
    slice_indices-Items upwards (λ e. cc) (omega arith, omega arith) upwards_fits

-- The sum of 1 and the step 2^63 - 1 wraps around, and the loop goes on with -2^63.
wraps :
    slice_indices (record { start = pos 1; stop = pos 5; step = pos (2 ^ 63 - 1); items = 1 })
    ≡ ok (pos 1 ∷ negsuc (2 ^ 63 - 1) ∷ negsuc 0 ∷ [])
unfolding slice_indices up_loop add_ssize wrap64 ◌+ℤ◌ ◌-ℤ◌
wraps = refl
