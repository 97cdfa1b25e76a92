-- ===== src/MockFhe/Evaluator.antt =====
-- evaluator.cc of mock_fhe: construction, linear operations, relinearisation and rescaling.
use heu.Base.{
  ℕ, zero, suc, ◌-◌, ◌/◌, Bool, true, false, not, ◌&&◌, map, Option, none, some, length, zip_with,
  ◌==◌, if◌then◌else◌, Result, ok, enforce, ◌>>◌,
}
use heu.Base.{illegal_input, scale_mismatch, illegal_degree, zero_scale, key_disabled, wrong_schema}
use heu.Base.Words.{add64, neg64, div64}
use Prim.Native.Nat.{bit_and}
use heu.Spi.Schema.{Schema}
use heu.MockFhe.Objects.{Double, MockObj}

-- A key is given by whether its pointer is set: the keys of the mock hold nothing.
pub record Evaluator : Type 0 where
  pub poly_degree : ℕ
  pub schema : Schema
  pub scale : ℕ
  pub rlk : Bool
  pub glk : Bool
  pub bsk : Bool
  pub half_degree : ℕ

abbrev pub is_bfv : Schema → Bool
is_bfv Schema.mock_bfv = true
is_bfv _ = false

abbrev pub is_ckks : Schema → Bool
is_ckks Schema.mock_ckks = true
is_ckks _ = false

-- (x != 0) && !(x & (x - 1))
unfoldable pub is_power_of_2 : ℕ → Bool
is_power_of_2 x = not (x == 0) && bit_and x (x - 1) == 0

unfoldable pub create : ℕ → Schema → ℕ → Bool → Bool → Bool → Result Evaluator
create poly_degree schema scale rlk glk bsk = do
  enforce (is_power_of_2 poly_degree) illegal_degree
  enforce (if is_ckks schema then not (scale == 0) else true) zero_scale
  ok (record {
    poly_degree = poly_degree;
    schema = schema;
    scale = scale;
    rlk = rlk;
    glk = glk;
    bsk = bsk;
    half_degree = poly_degree / 2;
  })

module _ {F : Type 0} where
  unfoldable pub negate : MockObj F → MockObj F
  negate a = record { array = map neg64 a.array; scale = a.scale }

  unfoldable pub negate_inplace : MockObj F → MockObj F
  negate_inplace a = record a { array = map neg64 a.array }

  unfoldable pub relinearize : Evaluator → MockObj F → Result (MockObj F)
  relinearize e a = do enforce e.rlk key_disabled; ok a

  unfoldable pub bootstrap_inplace : Evaluator → MockObj F → Result (MockObj F)
  bootstrap_inplace e a = do enforce e.bsk key_disabled; ok a

  -- For CKKS the function calls itself and nothing else; the fuel counts the calls.
  unfoldable pub mod_switch_inplace : ℕ → Evaluator → MockObj F → Option (MockObj F)
  mod_switch_inplace zero e a = none
  mod_switch_inplace (suc fuel) e a =
      let again = mod_switch_inplace fuel e a in if is_ckks e.schema then again else some a

module _ {F : Type 0} (d : Double F) where
  unfoldable pub do_add : (ℕ → ℕ → ℕ) → MockObj F → MockObj F → Result (MockObj F)
  do_add binary_op a b = do
    enforce (length a.array == length b.array) illegal_input
    enforce (d.near a.scale b.scale) scale_mismatch
    ok (record { array = zip_with binary_op a.array b.array; scale = d.mean a.scale b.scale })

  unfoldable pub add : MockObj F → MockObj F → Result (MockObj F)
  unfolding do_add
  add a b = do_add add64 a b

  -- The new scale of the result is 1 before the division.
  unfoldable pub rescale : Evaluator → MockObj F → Result (MockObj F)
  rescale e a = do
    enforce (is_ckks e.schema) wrong_schema
    ok (record {
      array = map (λ x. div64 x e.scale) a.array;
      scale = d.div d.one (d.of_int64 e.scale);
    })

  unfoldable pub rescale_inplace : Evaluator → MockObj F → Result (MockObj F)
  rescale_inplace e a = do
    enforce (is_ckks e.schema) wrong_schema
    ok (record a {
      array = map (λ x. div64 x e.scale) a.array;
      scale = d.div a.scale (d.of_int64 e.scale);
    })

  unfoldable pub mod_switch : Evaluator → MockObj F → Result (MockObj F)
  mod_switch e a = if is_ckks e.schema then rescale e a else ok a
