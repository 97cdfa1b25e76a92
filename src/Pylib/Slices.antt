-- ===== src/Pylib/Slices.antt =====
-- numpy_binding/slice_tool.cc: the indices that a Python object selects. CPython's `slice.compute`
-- and its conversion of an integer to int64_t are arguments; the loops over a slice run on fuel, one
-- unit for each position between its ends, and their `start += step` wraps around.
pub mod Bounds
pub mod Loops
use heu.Base.{
  ℕ, zero, suc, ◌+◌, ◌-◌, ◌^◌, Bool, true, false, not, List, [], ◌∷◌, length, Option, none, some,
  ltb, if◌then◌else◌, Result, ok, err, enforce, ◌>>=◌, ◌>>◌,
}
use heu.Base.{Error, index_error, type_error, out_of_fuel}
use heu.Base.Int.{ℤ, pos, negsuc, ◌+ℤ◌, ◌-ℤ◌, ltb_ℤ, pos_part}
use heu.Base.Int.Residue.{residue}

-- What `isinstance` distinguishes; an element of a sequence is an integer or something else.
pub data PyIndex (S : Type 0) : Type 0 where
  slice : S → PyIndex S
  sequence : List (Option ℤ) → PyIndex S
  integer : ℤ → PyIndex S
  other : PyIndex S

pub record PySlice : Type 0 where
  pub items : ℕ
  pub indices : List ℤ

-- start, stop, step and the number of items.
pub record Computed : Type 0 where
  pub start : ℤ
  pub stop : ℤ
  pub step : ℤ
  pub items : ℕ

-- The int64_t with the bits of an integer.
unfoldable pub wrap64 : ℤ → ℤ
wrap64 x =
    let bits = residue (2 ^ 64) x in
    if ltb bits (2 ^ 63) then pos bits else negsuc (2 ^ 64 - 1 - bits)

-- a + b on ssize_t
unfoldable pub add_ssize : ℤ → ℤ → ℤ
unfolding wrap64
add_ssize a b = wrap64 (a +ℤ b)

-- `as_int64` is the conversion static_cast<int64_t>(py::int_).
unfoldable pub compute_int : (ℤ → ℤ) → ℤ → ℕ → Result ℤ
compute_int as_int64 src dim_len = do
  let idx = as_int64 src
  enforce (ltb_ℤ idx (pos dim_len)) index_error
  if ltb_ℤ idx (pos 0)
      then (enforce (not (ltb_ℤ (idx +ℤ pos dim_len) (pos 0))) index_error
          >> ok (idx +ℤ pos dim_len))
      else ok idx

unfoldable pub up_loop : ℕ → ℤ → ℤ → ℤ → Result (List ℤ)
up_loop zero start stop step = if ltb_ℤ start stop then err out_of_fuel else ok []
up_loop (suc fuel) start stop step =
    let rest = up_loop fuel (add_ssize start step) stop step in
    if ltb_ℤ start stop then (rest >>= λ xs. ok (start ∷ xs)) else ok []

unfoldable pub down_loop : ℕ → ℤ → ℤ → ℤ → Result (List ℤ)
down_loop zero start stop step = if ltb_ℤ stop start then err out_of_fuel else ok []
down_loop (suc fuel) start stop step =
    let rest = down_loop fuel (add_ssize start step) stop step in
    if ltb_ℤ stop start then (rest >>= λ xs. ok (start ∷ xs)) else ok []

unfoldable pub slice_indices : Computed → Result (List ℤ)
slice_indices c = do
  enforce (if ltb_ℤ c.step (pos 0) then true else ltb_ℤ (pos 0) c.step) index_error
  if ltb_ℤ (pos 0) c.step
      then up_loop (pos_part (c.stop -ℤ c.start)) c.start c.stop c.step
      else down_loop (pos_part (c.start -ℤ c.stop)) c.start c.stop c.step

unfoldable pub sequence_indices : (ℤ → ℤ) → List (Option ℤ) → ℕ → Result (List ℤ)
unfolding compute_int
sequence_indices as_int64 [] dim_len = ok []
sequence_indices as_int64 (none ∷ items) dim_len = err type_error
sequence_indices as_int64 (some i ∷ items) dim_len = do
  idx ← compute_int as_int64 i dim_len
  rest ← sequence_indices as_int64 items dim_len
  ok (idx ∷ rest)

module _ {S : Type 0} (compute : S → ℕ → Option Computed) (as_int64 : ℤ → ℤ) where
  abbrev parse_slice : Option Computed → Result (PySlice × Bool)
  parse_slice none = err index_error
  parse_slice (some c) = do
    indices ← slice_indices c
    ok (record { items = c.items; indices = indices }, false)

  -- The selection, and whether the dimension is squeezed.
  unfoldable pub parse : PyIndex S → ℕ → Result (PySlice × Bool)
  unfolding slice_indices sequence_indices compute_int
  parse (slice s) dim_len = parse_slice (compute s dim_len)
  parse (sequence l) dim_len = do
    indices ← sequence_indices as_int64 l dim_len
    ok (record { items = length l; indices = indices }, false)
  parse (integer i) dim_len = do
    idx ← compute_int as_int64 i dim_len
    ok (record { items = 1; indices = idx ∷ [] }, true)
  parse other dim_len = err type_error
