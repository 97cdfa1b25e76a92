-- ===== src/MockFhe/Galois.antt =====
-- evaluator.cc of mock_fhe: the operations that move slots. A vector is two rows of
-- `half_degree` entries: the slots of BFV, the real and the imaginary parts of CKKS.
pub mod Rows
pub mod Rotation
use heu.Base.{
  ℕ, ◌+◌, ◌-◌, ◌%◌, ◌≡◌, Bool, ◌&&◌, List, [], ◌∷◌, ◌++◌, map, length, take, drop, set, get_or,
  replicate, ltb, leb, ◌==◌, if◌then◌else◌, Result, ok, err, enforce, ◌>>◌, for_range, zero, suc,
  arith,
}
use heu.Base.{Error, wrong_schema, key_disabled, illegal_degree, step_too_large, out_of_range}
use heu.Base.Words.{u64, neg64}
use heu.MockFhe.Objects.{Double, MockObj}
use heu.MockFhe.Copy.{write_at}
use heu.MockFhe.Evaluator.{Evaluator, is_bfv, is_ckks}

module _ {F : Type 0} (d : Double F) where
  -- The new scale is the default, 1.
  unfoldable pub swap_rows : Evaluator → MockObj F → Result (MockObj F)
  unfolding write_at
  swap_rows e a = do
    enforce (is_bfv e.schema) wrong_schema
    enforce e.glk key_disabled
    enforce (length a.array == e.poly_degree) illegal_degree
    let half = e.half_degree
    let res = replicate e.poly_degree 0
    let res' = write_at 0 (take half (drop half a.array)) res
    ok (record { array = write_at half (take half a.array) res'; scale = d.one })

-- std::swap(a[i], a[i + half]).
abbrev pub swap_entries : ℕ → ℕ → List ℕ → List ℕ
swap_entries half i a = set (set a i (get_or a (i + half) 0)) (i + half) (get_or a i 0)

module _ {F : Type 0} where
  unfoldable pub swap_rows_inplace : Evaluator → MockObj F → Result (MockObj F)
  swap_rows_inplace e a = do
    enforce (is_bfv e.schema) wrong_schema
    enforce e.glk key_disabled
    enforce (length a.array == e.poly_degree) illegal_degree
    ok (record a {
      array = for_range e.half_degree 0 (λ i s. swap_entries e.half_degree i s) a.array;
    })

  -- Nothing is checked here; a vector shorter than a row is read out of range.
  unfoldable pub conjugate : Evaluator → MockObj F → Result (MockObj F)
  unfolding write_at
  conjugate e a = do
    enforce (leb e.half_degree (length a.array)) out_of_range
    let half = e.half_degree
    let res = write_at 0 (take half a.array) (replicate (length a.array) 0)
    ok (record { array = write_at half (map neg64 (drop half a.array)) res; scale = a.scale })

  unfoldable pub conjugate_inplace : Evaluator → MockObj F → Result (MockObj F)
  conjugate_inplace e a = do
    enforce (is_ckks e.schema) wrong_schema
    enforce (length a.array == e.poly_degree) illegal_degree
    let half = e.half_degree
    ok (record a { array = take half a.array ++ map neg64 (drop half a.array) })

-- A step count is a sign and a magnitude: `left n` is n, `right n` is -n.
pub data Steps : Type 0 where
  left right : ℕ → Steps

abbrev pub abs_steps : Steps → ℕ
abs_steps (left n) = n
abs_steps (right n) = n

-- size_t(i - steps) % half: the int is converted to size_t, so the difference wraps at 2 ^ 64.
unfoldable pub new_loc : ℕ → ℕ → Steps → ℕ
new_loc half i (left n) = (i + (u64 - n)) % u64 % half
new_loc half i (right n) = (i + n) % u64 % half

-- The rounds of the loop over the first row, onto the zeros of `res`.
unfoldable pub rotate_array : ℕ → Steps → List ℕ → List ℕ → List ℕ
unfolding new_loc
rotate_array half steps a res =
    for_range half 0
      (λ i s.
        set (set s (new_loc half i steps) (get_or a i 0)) (new_loc half i steps + half)
          (get_or a (i + half) 0))
      res

module _ {F : Type 0} where
  unfoldable pub rotate : Evaluator → Steps → MockObj F → Result (MockObj F)
  rotate e steps a = do
    enforce e.glk key_disabled
    enforce (length a.array == e.poly_degree) illegal_degree
    enforce (ltb (abs_steps steps) e.half_degree) step_too_large
    ok (record {
      array = rotate_array e.half_degree steps a.array (replicate e.poly_degree 0);
      scale = a.scale;
    })

  unfoldable pub rotate_inplace : Evaluator → Steps → MockObj F → Result (MockObj F)
  unfolding rotate
  rotate_inplace e steps a = rotate e steps a
