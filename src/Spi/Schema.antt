-- ===== src/Spi/Schema.antt =====
-- heu/spi/he/schema.h and schema.cc: the schemas and their names.
use heu.Base.{◌≡◌, refl, List, [], ◌∷◌, if◌then◌else◌}
use Prim.Native.String.{String}
use text.Mathlib.Text.{◌==◌}

pub data FeatureSet : Type 0 where
  additive_phe word_fhe approx_fhe : FeatureSet

pub data Schema : Type 0 where
  unknown mock_phe mock_bfv mock_ckks ishe paillier ou elgamal dj dgk : Schema
  bgv bfv ckks gpu_bfv gpu_ckks : Schema

unfoldable pub schema_2_string : Schema → String
schema_2_string unknown = "unknown"
schema_2_string mock_phe = "mock_phe"
schema_2_string mock_bfv = "mock_bfv"
schema_2_string mock_ckks = "mock_ckks"
schema_2_string ishe = "iSHE"
schema_2_string paillier = "paillier"
schema_2_string ou = "okamoto–uchiyama"
schema_2_string elgamal = "elgamal"
schema_2_string dj = "damgard-jurik"
schema_2_string dgk = "damgard-geisler-krøigaard(DGK)"
schema_2_string bgv = "bgv"
schema_2_string bfv = "bfv"
schema_2_string ckks = "ckks"
schema_2_string gpu_bfv = "gpu_bfv"
schema_2_string gpu_ckks = "gpu_ckks"

-- The keys of the name table; std::set lists them in the order of the enumeration.
unfoldable pub list_all_schema : List Schema
list_all_schema =
    unknown ∷ mock_phe ∷ mock_bfv ∷ mock_ckks ∷ ishe ∷ paillier ∷ ou ∷ elgamal ∷ dj ∷ dgk ∷ bgv
    ∷ bfv ∷ ckks ∷ gpu_bfv ∷ gpu_ckks ∷ []

-- The look-up in the inverted table, whose names are distinct.
find_schema : List Schema → String → Schema
unfolding schema_2_string
find_schema [] name = unknown
find_schema (s ∷ ss) name = if schema_2_string s == name then s else find_schema ss name

unfoldable pub string_2_schema : String → Schema
unfolding find_schema list_all_schema
string_2_schema name = find_schema list_all_schema name

-- Each schema is recovered from its name.
pub string_2_schema-schema_2_string : (s : Schema) → string_2_schema (schema_2_string s) ≡ s
unfolding string_2_schema
string_2_schema-schema_2_string unknown = refl
string_2_schema-schema_2_string mock_phe = refl
string_2_schema-schema_2_string mock_bfv = refl
string_2_schema-schema_2_string _ = refl
