-- ===== src/MockFhe/Kit.antt =====
-- he_kit.cc of mock_fhe: a kit of operators made from named arguments. An argument that is present is
-- `some`; of the key buffers only their presence matters. The serializer is yacl's and is given as an
-- argument, with its type of buffers.
pub mod Creation
pub mod Restoring
use heu.Base.{
  ℕ, ◌+◌, ◌/◌, Bool, true, false, not, ◌&&◌, ◌||◌, List, Option, none, some, ◌==◌, if◌then◌else◌,
  Result, ok, err, enforce, ◌>>=◌, ◌>>◌,
}
use heu.Base.{
  Error, wrong_schema, missing_arg, illegal_degree, zero_scale, illegal_input, not_supported,
}
use Prim.Native.String.{String}
use heu.Spi.Schema.{FeatureSet, word_fhe, approx_fhe, Schema, schema_2_string, string_2_schema}
use heu.MockFhe.Evaluator.{Evaluator, is_bfv, is_ckks, is_power_of_2, create}
use heu.MockFhe.Encoders.{ckks_half_degree}

-- SerializeVarsTo and DeserializeVarsTo for the degree, the schema's name and the scale.
pub record Serializer (Buffer : Type 0) : Type 0 where
  pub serialize_vars : ℕ → String → ℕ → Buffer
  pub deserialize_vars : Buffer → Result (ℕ × String × ℕ)

pub record Args (Buffer : Type 0) : Type 0 where
  pub gen_new_pk_sk : Option Bool
  pub gen_new_rlk : Option Bool
  pub gen_new_glk : Option Bool
  pub gen_new_bsk : Option Bool
  pub pk_from : Bool
  pub sk_from : Bool
  pub rlk_from : Bool
  pub glk_from : Bool
  pub bsk_from : Bool
  pub params_from : Option Buffer
  pub poly_modulus_degree : Option ℕ
  pub scale : Option ℕ

pub record Kit : Type 0 where
  pub poly_degree : ℕ
  pub schema : Schema
  pub scale : ℕ
  pub sk : Bool
  pub rlk : Bool
  pub glk : Bool
  pub bsk : Bool
  pub evaluator : Evaluator
  -- The decryptor exists only with a secret key.
  pub decryptor : Bool

abbrev pub or_default {ℓ} : {A : Type ℓ} → Option A → A → A
or_default none a = a
or_default (some x) a = x

abbrev pub exists_arg {ℓ} : {A : Type ℓ} → Option A → Bool
exists_arg none = false
exists_arg (some x) = true

unfoldable pub get_feature_set : Kit → FeatureSet
get_feature_set kit = if is_ckks kit.schema then approx_fhe else word_fhe

unfoldable pub check : Schema → Bool
check schema = is_bfv schema || is_ckks schema

module _ {Buffer : Type 0} (io : Serializer Buffer) where
  unfoldable pub serialize : Kit → Buffer
  unfolding schema_2_string
  serialize kit = io.serialize_vars kit.poly_degree (schema_2_string kit.schema) kit.scale

  unfoldable pub deserialize : Buffer → Result (ℕ × Schema × ℕ)
  unfolding string_2_schema
  deserialize buffer = do
    vars ← io.deserialize_vars buffer
    ok (vars.0, string_2_schema vars.1, vars.2)

  -- The fields before the arguments are applied; a new kit holds zeros.
  unfoldable pub context_of : Option Buffer → Result (ℕ × Schema × ℕ)
  unfolding deserialize
  context_of none = ok (0, Schema.unknown, 0)
  context_of (some buffer) = deserialize buffer

pub record Keys : Type 0 where
  pub sk : Bool
  pub rlk : Bool
  pub glk : Bool
  pub bsk : Bool

abbrev pub generate : Option Bool → Bool
generate (some true) = true
generate _ = false

unfoldable pub process_keys : {Buffer : Type 0} → Args Buffer → Result Keys
process_keys args =
    if generate args.gen_new_pk_sk
    then ok (record {
      sk = true;
      rlk = or_default args.gen_new_rlk false;
      glk = or_default args.gen_new_glk false;
      bsk = or_default args.gen_new_bsk false;
    })
    else do
      enforce args.pk_from missing_arg
      ok (record {
        sk = args.sk_from;
        rlk = args.rlk_from;
        glk = args.glk_from;
        bsk = args.bsk_from;
      })

unfoldable pub init_operators : ℕ → Schema → ℕ → Keys → Result Kit
unfolding create
init_operators poly_degree schema scale keys = do
  evaluator ← create poly_degree schema scale keys.rlk keys.glk keys.bsk
  ok (record {
    poly_degree = poly_degree;
    schema = schema;
    scale = scale;
    sk = keys.sk;
    rlk = keys.rlk;
    glk = keys.glk;
    bsk = keys.bsk;
    evaluator = evaluator;
    decryptor = keys.sk;
  })

-- The scale of the context, which an argument overrides for CKKS only.
abbrev pub chosen_scale : {Buffer : Type 0} → Schema → Args Buffer → ℕ → ℕ
chosen_scale schema args old = if is_ckks schema then or_default args.scale old else old

unfoldable pub create_kit :
    {Buffer : Type 0} → Serializer Buffer → Schema → Args Buffer → Result Kit
unfolding check is_power_of_2 context_of process_keys init_operators
create_kit io schema args = do
  enforce (check schema) wrong_schema
  enforce (exists_arg args.gen_new_pk_sk || args.pk_from) missing_arg
  context ← context_of io args.params_from
  let poly_degree = or_default args.poly_modulus_degree context.0
  enforce (is_power_of_2 poly_degree) illegal_degree
  let scale = chosen_scale schema args context.2
  enforce (if is_ckks schema then not (scale == 0) else true) zero_scale
  keys ← process_keys args
  init_operators poly_degree schema scale keys

pub data Method : Type 0 where
  plain batch other : Method

pub data Encoder : Type 0 where
  plain_encoder batch_encoder : ℕ → Encoder
  -- The half degree and the scale.
  ckks_encoder : ℕ → ℕ → Encoder

-- A scale that is given must be the kit's, and BFV takes none.
abbrev pub check_scale : Kit → Option ℕ → Result (Unit {0})
check_scale kit none = ok tt
check_scale kit (some s) = do
  enforce (not (is_bfv kit.schema)) wrong_schema
  enforce (s == kit.scale) illegal_input

abbrev pub make_encoder : Kit → Method → Result Encoder
make_encoder kit plain = do
  enforce (is_bfv kit.schema) wrong_schema
  ok (plain_encoder kit.poly_degree)
make_encoder kit batch =
    if is_bfv kit.schema
    then ok (batch_encoder kit.poly_degree)
    else (ckks_half_degree kit.poly_degree >>= λ half. ok (ckks_encoder half kit.scale))
make_encoder kit other = err not_supported

unfoldable pub create_encoder : Kit → Option ℕ → Option Method → Result Encoder
unfolding ckks_half_degree
create_encoder kit scale method = do
  check_scale kit scale
  make_encoder kit (or_default method batch)
