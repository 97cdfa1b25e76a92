-- ===== src/MockFhe/Examples.antt =====
-- The evaluator of degree 4 on concrete vectors.
use heu.Base.{
  ◌<◌, ◌≤◌, ◌-◌, ◌++◌, ℕ, zero, suc, ◌+◌, ◌*◌, ◌/◌, ◌^◌, ◌≡◌, ◌↔◌, refl, true, false, List, [], ◌∷◌,
  length, get_or, none, ◌==◌, zip_with, ok, ◌>>=◌, arith,
}
use heu.Base.Words.{mul64}
use heu.Spi.Schema.{mock_bfv, mock_ckks}
use heu.MockFhe.Objects.{Double, MockObj}
use heu.MockFhe.Evaluator.{Evaluator, create, is_power_of_2, mod_switch_inplace}
use heu.MockFhe.Multiply.Defs.{do_mul, do_pow, mul, out_is_both}
use heu.MockFhe.Multiply.Arrays.{mul_array, mul_scale, do_mul_full}
use heu.MockFhe.Multiply.Power.{power, do_pow-power}
use heu.MockFhe.Degree.{IsBuilt, create-IsBuilt, is_power_of_2_iff}
use heu.MockFhe.Galois.{left, right, rotate, swap_rows, swap_rows_inplace}
use heu.MockFhe.Galois.Rotation.{rotate-rotate-opposite}
use heu.MockFhe.Galois.Rows.{swap_halves, swap_rows-swap_rows_inplace}
use heu.MockFhe.Encoders.{ckks_encode, ckks_decode}
use heu.MockFhe.Encoders.RoundTrip.{IsDouble, padded, ckks_decode-ckks_encode}
use heu.MockFhe.Pipeline.{evaluate_encrypted, evaluate_encrypted-mul}
use heu.MockFhe.Rescaling.{mod_switch_inplace_diverges}
use heu.Spi.Batch.{Item, call_encode_t, call_decode_t}
use heu.Spi.Batch.RoundTrip.{call_decode_t-call_encode_t}
use heu.MockFhe.Encoders.Interface.{batch_codec, batch_codec-IsCodec}
use heu.Base.{some}
use heu.Base.{Error, err, ◌⊎◌}
use Prim.Native.String.{String}
use heu.Spi.Schema.{unknown}
use heu.MockFhe.Kit.{Serializer, Args, Kit, context_of, serialize, deserialize, create_kit}
use heu.MockFhe.Kit.Creation.{IsAccepted, IsKit, create_kit_cases}
use heu.MockFhe.Kit.Restoring.{IsSerializer, create_kit-serialize}

-- Scales that are natural numbers.
abbrev whole : Double ℕ
whole = record {
  one = 1;
  of_int64 = λ n. n;
  near = λ a b. a == b;
  mean = λ a b. (a + b) / 2;
  mul = λ a b. a * b;
  div = λ a b. a / b;
  quotient = λ n f. n / f;
}

abbrev ckks_4 : Evaluator
ckks_4 = record {
  poly_degree = 4;
  schema = mock_ckks;
  scale = 8;
  rlk = true;
  glk = true;
  bsk = false;
  half_degree = 2;
}

abbrev bfv_4 : Evaluator
bfv_4 = record {
  poly_degree = 4;
  schema = mock_bfv;
  scale = 0;
  rlk = true;
  glk = true;
  bsk = false;
  half_degree = 2;
}

abbrev vector : MockObj ℕ
vector = record { array = 3 ∷ 1 ∷ 4 ∷ 2 ∷ []; scale = 8 }

abbrev zeros : List ℕ
zeros = 0 ∷ 0 ∷ 0 ∷ 0 ∷ []

built : IsBuilt ckks_4
built = record { exponent = 2; is_power = refl; halved = refl }

do_pow-power_example :
    (r : MockObj ℕ) × (do_pow whole ckks_4 vector 6 ≡ ok r)
    × (r.array ≡ power ckks_4 vector.array 5)
do_pow-power_example = do_pow-power whole ckks_4 vector 5 refl refl (omega arith)

do_mul_full_example :
    do_mul whole ckks_4 out_is_both vector vector
    ≡ ok (record {
      array = mul_array ckks_4 vector.array vector.array;
      scale = mul_scale whole ckks_4 vector vector;
    })
do_mul_full_example = do_mul_full whole ckks_4 out_is_both vector vector refl refl (λ e. refl)

rotate-rotate-opposite_example :
    (r : MockObj ℕ) × (rotate ckks_4 (left 1) vector ≡ ok r)
    × (rotate ckks_4 (right 1) r ≡ ok vector)
rotate-rotate-opposite_example =
    rotate-rotate-opposite ckks_4 built (omega arith) (left 1) vector refl refl (omega arith)

swap_rows-swap_rows_inplace_example :
    (swap_rows whole bfv_4 vector ≡ ok (record { array = swap_halves 2 vector.array; scale = 1 }))
    × (swap_rows_inplace bfv_4 vector
        ≡ ok (record { array = swap_halves 2 vector.array; scale = 8 }))
swap_rows-swap_rows_inplace_example =
    swap_rows-swap_rows_inplace whole bfv_4 refl vector refl refl refl

whole-IsDouble : IsDouble whole
whole-IsDouble = record { truncates = λ x s x_small some_scale s_small. refl }

products_fit : (i : ℕ) → get_or (5 ∷ []) i 0 * 8 < 2 ^ 53
products_fit zero = omega arith
products_fit (suc i) = omega arith

ckks_decode-ckks_encode_example :
    (ckks_encode whole 2 8 (5 ∷ []) >>= λ pt. ckks_decode whole 2 pt (0 ∷ 0 ∷ []))
    ≡ ok (padded 2 (5 ∷ []))
ckks_decode-ckks_encode_example =
    ckks_decode-ckks_encode whole whole-IsDouble 2 8 (5 ∷ []) (0 ∷ 0 ∷ []) (omega arith)
      (omega arith) products_fit (omega arith) refl

evaluate_encrypted-mul_example :
    evaluate_encrypted whole 4 (mul whole bfv_4) (5 ∷ 7 ∷ []) (2 ∷ 3 ∷ []) zeros
    ≡ ok (padded 4 (zip_with mul64 (5 ∷ 7 ∷ []) (2 ∷ 3 ∷ [])))
evaluate_encrypted-mul_example =
    evaluate_encrypted-mul whole 4 (5 ∷ 7 ∷ []) (2 ∷ 3 ∷ []) zeros bfv_4 refl refl (omega arith)
      refl

is_power_of_2_iff_example : (is_power_of_2 12 ≡ true) ↔ ((k : ℕ) × (12 ≡ 2 ^ k))
is_power_of_2_iff_example = is_power_of_2_iff 12

built_4 : create 4 mock_ckks 8 true true false ≡ ok ckks_4
unfolding create is_power_of_2
built_4 = refl

create-IsBuilt_example : IsBuilt ckks_4
create-IsBuilt_example = create-IsBuilt 4 mock_ckks 8 true true false ckks_4 built_4

mod_switch_inplace_diverges_example : mod_switch_inplace 1000 ckks_4 vector ≡ none
mod_switch_inplace_diverges_example = mod_switch_inplace_diverges 1000 ckks_4 vector refl

-- A serializer that keeps the three fields.
abbrev Fields : Type 0
Fields = ℕ × String × ℕ

abbrev fields : Serializer Fields
fields = record { serialize_vars = λ n name s. (n, name, s); deserialize_vars = λ vars. ok vars }

fields-IsSerializer : IsSerializer fields
fields-IsSerializer = record { restores = λ n name s n_fits s_fits. refl }

abbrev new_keys : Args Fields
new_keys = record {
  gen_new_pk_sk = some true;
  gen_new_rlk = some true;
  gen_new_glk = some true;
  gen_new_bsk = none;
  pk_from = false;
  sk_from = false;
  rlk_from = false;
  glk_from = false;
  bsk_from = false;
  params_from = none;
  poly_modulus_degree = some 4;
  scale = some 8;
}

no_context : context_of fields none ≡ ok (0, unknown, 0)
unfolding context_of
no_context = refl

create_kit_cases_example :
    ((kit : Kit) × (create_kit fields mock_ckks new_keys ≡ ok kit)
      × IsAccepted mock_ckks new_keys 0 0
      × IsKit mock_ckks new_keys 0 0 kit)
    ⊎ ((e : Error) × (create_kit fields mock_ckks new_keys ≡ err e)
        × ¬ IsAccepted mock_ckks new_keys 0 0)
create_kit_cases_example = create_kit_cases fields mock_ckks new_keys 0 0 unknown no_context

abbrev some_kit : Kit
some_kit = record {
  poly_degree = 4;
  schema = mock_ckks;
  scale = 8;
  sk = true;
  rlk = true;
  glk = true;
  bsk = false;
  evaluator = ckks_4;
  decryptor = true;
}

kit_created : create_kit fields mock_ckks new_keys ≡ ok some_kit
unfolding create_kit
kit_created = refl

-- The peer has the context and the public key.
abbrev received : Args Fields
received = record {
  gen_new_pk_sk = none;
  gen_new_rlk = none;
  gen_new_glk = none;
  gen_new_bsk = none;
  pk_from = true;
  sk_from = false;
  rlk_from = false;
  glk_from = false;
  bsk_from = false;
  params_from = some (serialize fields some_kit);
  poly_modulus_degree = none;
  scale = none;
}

create_kit-serialize_example :
    (deserialize fields (serialize fields some_kit) ≡ ok (4, mock_ckks, 8))
    × (again : Kit) × (create_kit fields mock_ckks received ≡ ok again)
    × (again.poly_degree ≡ 4)
    × (again.scale ≡ 8)
    × (again.evaluator.poly_degree ≡ 4)
    × (again.evaluator.scale ≡ 8)
create_kit-serialize_example =
    create_kit-serialize fields fields-IsSerializer mock_ckks new_keys some_kit kit_created
      (omega arith) (omega arith) received refl refl refl refl

-- Five values need two plaintexts.
abbrev five : List ℕ
five = 1 ∷ 2 ∷ 3 ∷ 4 ∷ 5 ∷ []

abbrev eight_zeros : List ℕ
eight_zeros = 0 ∷ 0 ∷ 0 ∷ 0 ∷ 0 ∷ 0 ∷ 0 ∷ 0 ∷ []

enough : length five + (batch_codec whole 4).slot_count - 1 ≤ length eight_zeros
unfolding batch_codec
enough = omega arith

call_decode_t-call_encode_t_example :
    (item : Item (MockObj ℕ)) × (tail : List ℕ) × (call_encode_t (batch_codec whole 4) five
      ≡ ok item)
    × (call_decode_t (batch_codec whole 4) item eight_zeros ≡ ok (five ++ tail))
    × (length (five ++ tail) ≡ 8)
call_decode_t-call_encode_t_example =
    call_decode_t-call_encode_t (batch_codec whole 4) (batch_codec-IsCodec whole 4 (omega arith))
      five eight_zeros (omega arith) enough
