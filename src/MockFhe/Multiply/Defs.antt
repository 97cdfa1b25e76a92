-- ===== src/MockFhe/Multiply/Defs.antt =====
-- `DoMul`, its callers, and `DoPow`. The callers differ in which operands are the output object.
use heu.Base.{
  ℕ, zero, suc, ◌+◌, ◌*◌, ◌/◌, ◌%◌, not, ◌&&◌, List, Option, none, some, length, get_or, set,
  replicate, zip_with, ◌==◌, ltb, leb, if◌then◌else◌, Result, ok, err, enforce, ◌>>=◌, ◌>>◌,
  for_range,
}
use heu.Base.{illegal_input, key_disabled, zero_exponent, out_of_range, out_of_fuel, not_reached}
use heu.Base.Words.{add64, sub64, mul64, is_negative}
use heu.MockFhe.Objects.{Double, MockObj}
use heu.MockFhe.Evaluator.{Evaluator, is_bfv}

-- Which operands of `DoMul(a, b, out)` are the object `out`.
pub data Alias : Type 0 where
  separate out_is_a out_is_both : Alias

abbrev pub first_operand : Alias → List ℕ → List ℕ → List ℕ
first_operand separate a out = a
first_operand out_is_a a out = out
first_operand out_is_both a out = out

abbrev pub second_operand : Alias → List ℕ → List ℕ → List ℕ
second_operand separate b out = b
second_operand out_is_a b out = b
second_operand out_is_both b out = out

abbrev pub real_part : ℕ → List ℕ → List ℕ → ℕ → ℕ
real_part half a b i =
    sub64 (mul64 (get_or a i 0) (get_or b i 0))
      (mul64 (get_or a (i + half) 0) (get_or b (i + half) 0))

abbrev pub imag_part : ℕ → List ℕ → List ℕ → ℕ → ℕ
imag_part half a b i =
    add64 (mul64 (get_or a i 0) (get_or b (i + half) 0))
      (mul64 (get_or b i 0) (get_or a (i + half) 0))

-- One round of the CKKS loop: both parts are computed before either is written.
abbrev pub ckks_round : ℕ → Alias → List ℕ → List ℕ → ℕ → List ℕ → List ℕ
ckks_round half alias a b i out =
    let x = first_operand alias a out in
    let y = second_operand alias b out in
    let real = real_part half x y i in
    let imag = imag_part half x y i in set (set out i real) (i + half) imag

unfoldable pub ckks_loop : ℕ → Alias → List ℕ → List ℕ → List ℕ → List ℕ
ckks_loop half alias a b out = for_range half 0 (λ i s. ckks_round half alias a b i s) out

-- The output's array after `resize`: fresh zeros, or the operand that it is.
abbrev pub initial_output : Alias → List ℕ → List ℕ
initial_output separate a = replicate (length a) 0
initial_output out_is_a a = a
initial_output out_is_both a = a

module _ {F : Type 0} (d : Double F) where
  unfoldable pub do_mul : Evaluator → Alias → MockObj F → MockObj F → Result (MockObj F)
  do_mul e alias a b = do
    enforce (length a.array == length b.array) illegal_input
    if is_bfv e.schema
        then ok (record { array = zip_with mul64 a.array b.array; scale = d.one })
        else do
          enforce (leb (2 * e.half_degree) (length a.array)) out_of_range
          ok (record {
            array = ckks_loop e.half_degree alias a.array b.array (initial_output alias a.array);
            scale = d.mul a.scale b.scale;
          })

  unfoldable pub mul : Evaluator → MockObj F → MockObj F → Result (MockObj F)
  mul e a b = do_mul e separate a b

  unfoldable pub mul_inplace : Evaluator → MockObj F → MockObj F → Result (MockObj F)
  mul_inplace e a b = do_mul e out_is_a a b

  unfoldable pub square : Evaluator → MockObj F → Result (MockObj F)
  square e a = mul e a a

  unfoldable pub square_inplace : Evaluator → MockObj F → Result (MockObj F)
  square_inplace e a = do_mul e out_is_both a a

  -- `*out`, or nothing while `first` is set.
  unfoldable pub accumulate :
      Evaluator → Option (MockObj F) → MockObj F → Result (Option (MockObj F))
  accumulate e none s = ok (some s)
  accumulate e (some out) s = do r ← do_mul e out_is_a out s; ok (some r)

  -- The loop of `DoPow`, on fuel.
  unfoldable pub pow_loop :
      ℕ → Evaluator → ℕ → MockObj F → Option (MockObj F) → Result (Option (MockObj F))
  pow_loop zero e exp s out = err out_of_fuel
  pow_loop (suc fuel) e exp s out =
      let round =
        λ (out' : Option (MockObj F)) (s' : MockObj F). pow_loop fuel e (exp / 2) s' out' in
      if exp == 0 then ok out else do
        out' ← (if exp % 2 == 1 then accumulate e out s else ok out)
        s' ← (if exp / 2 == 0 then ok s else do_mul e out_is_both s s)
        round out' s'

  abbrev pub to_result : Option (MockObj F) → Result (MockObj F)
  to_result none = err not_reached
  to_result (some out) = ok out

  -- 64 rounds reach the end of every positive int64_t.
  unfoldable pub do_pow : Evaluator → MockObj F → ℕ → Result (MockObj F)
  do_pow e a exp = do
    enforce e.rlk key_disabled
    enforce (ltb 0 exp && not (is_negative exp)) zero_exponent
    out ← pow_loop 64 e exp a none
    to_result out
