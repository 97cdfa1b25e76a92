-- ===== src/ElGamal/LookupTable.antt =====
-- elgamal/utils/lookup_table.cc. The curve is an argument: the operations of yacl's `EcGroup` that
-- the table calls. `parallel_for` is the list of the ranges that it hands out, taken in turn.
pub mod Fill
pub mod Giant
pub mod Complete
use heu.Base.{
  ℕ, zero, suc, ◌+◌, ◌-◌, ◌*◌, ◌^◌, Bool, List, [], ◌∷◌, Option, none, some, Result, ok, err, ◌>>=◌,
  ◌>>◌,
}
use heu.Base.{too_big}
use heu.Base.Int.{ℤ, pos, ◌+ℤ◌, ◌-ℤ◌}
use heu.ElGamal.HashMap.{HashMap, create, insert, find}

pub record Curve (P : Type 0) : Type 0 where
  pub mul_base : ℤ → P
  pub add : P → P → P
  pub negate : P → P
  pub sub : P → P → P
  pub mul : P → ℤ → P
  pub mul_double_base : ℤ → ℤ → P → P
  pub generator : P
  pub hash_point : P → ℕ
  pub point_equal : P → P → Bool

pub record LookupTable (P : Type 0) : Type 0 where
  pub curve : Curve P
  pub table : HashMap P ℤ
  pub table_max_pos : P
  pub table_max_neg : P

-- 1 << kLookupTableBits and 1 << kExtraSearchBits.
unfoldable pub table_max_value : ℕ
table_max_value = 2 ^ 20

unfoldable pub search_max_value : ℕ
search_max_value = 2 ^ 12

unfoldable pub max_supported_value : ℕ
max_supported_value = table_max_value * search_max_value - 1

module _ {P : Type 0} (c : Curve P) where
  unfoldable pub put : HashMap P ℤ → P → ℕ → Result (HashMap P ℤ)
  put table point i = do
    (insert c.hash_point c.point_equal table point (pos i)).1
    ok (insert c.hash_point c.point_equal table point (pos i)).0

  -- for (i = beg + 1; i < end; ++i), with `n` rounds to go.
  unfoldable pub fill_block : ℕ → ℕ → P → HashMap P ℤ → Result (HashMap P ℤ)
  fill_block zero i point table = ok table
  fill_block (suc n) i point table = do
    let next = c.add point c.generator
    table' ← put table next i
    fill_block n (i + 1) next table'

  unfoldable pub init_block : ℕ × ℕ → HashMap P ℤ → Result (HashMap P ℤ)
  unfolding put fill_block
  init_block (beg, end) table = do
    let point = c.mul_base (pos beg)
    table' ← put table point beg
    fill_block (end - (beg + 1)) (beg + 1) point table'

  unfoldable pub init_blocks : List (ℕ × ℕ) → HashMap P ℤ → Result (HashMap P ℤ)
  unfolding init_block
  init_blocks [] table = ok table
  init_blocks (b ∷ bs) table = do table' ← init_block b table; init_blocks bs table'

  -- `Init` for a table of `size` points.
  unfoldable pub init : ℕ → (ℕ → ℕ) → List (ℕ × ℕ) → Result (LookupTable P)
  unfolding init_blocks
  init size slots_for blocks = do
    table ← init_blocks blocks (create slots_for size)
    let table_max_pos = c.mul_base (pos size)
    ok (record {
      curve = c;
      table = table;
      table_max_pos = table_max_pos;
      table_max_neg = c.negate table_max_pos;
    })

module _ {P : Type 0} (t : LookupTable P) where
  open t use {curve, table, table_max_pos, table_max_neg}

  abbrev pub look_up : P → Option ℤ
  look_up p = find curve.hash_point curve.point_equal table p

  -- The loop over the giant steps, with `n` rounds to go from step `i` on;
  -- behind it stands the last try, for a negative number.
  unfoldable pub search_loop : ℕ → ℕ → ℕ → P → P → Result ℤ
  search_loop zero size i im_pos im_neg = elim (look_up im_neg) [
    | some v ↦ ok (v -ℤ pos (i * size))
    | none ↦ err too_big
  ]
  search_loop (suc n) size i im_pos im_neg =
      let rest =
        search_loop n size (i + 1) (curve.add im_pos table_max_neg)
          (curve.add im_neg table_max_pos) in
      elim (look_up im_pos) [
        | some v ↦ ok (v +ℤ pos (i * size))
        | none ↦ elim (look_up im_neg) [ some v ↦ ok (v -ℤ pos (i * size)) | none ↦ rest ]
      ]

  -- `Search` with a table of `size` points and fewer than `steps` giant steps.
  unfoldable pub search : ℕ → ℕ → P → Result ℤ
  unfolding search_loop
  search size steps p = elim (look_up p) [
    | some v ↦ ok v
    | none ↦ search_loop (steps - 1) size 1 (curve.add p table_max_neg) (curve.add p table_max_pos)
  ]
