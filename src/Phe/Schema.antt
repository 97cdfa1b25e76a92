-- ===== src/Phe/Schema.antt =====
-- base/schema.h and base/schema.cc of heu/library/phe: the registered algorithms. Whether the four
-- optional ones are compiled in is an argument, and so is absl's lower-case function.
pub mod Names
use heu.Base.{
  ℕ, zero, suc, ◌+◌, Bool, true, false, List, [], ◌∷◌, ◌++◌, map, length, ltb, if◌then◌else◌,
  Result, ok, err, enforce, ◌>>◌, ◌>>=◌,
}
use heu.Base.{Error, unknown_schema, idx_overflow, not_enabled}
use heu.Numpy.Matrix.{read}
use native.Mathlib.Decide.{ℕ_discrete}
use Prim.Native.String.{String}
use text.Mathlib.Text.{◌==◌}

pub data SchemaType : Type 0 where
  mock ou ipcl g_paillier z_paillier f_paillier ic_paillier clustar_fpga el_gamal dgk dj :
      SchemaType

unfoldable pub SchemaType_discrete : Discrete SchemaType
SchemaType_discrete = hlevel ℕ_discrete

-- The macros ENABLE_IPCL, ENABLE_GPAILLIER, ENABLE_IC and ENABLE_CLUSTAR_FPGA.
pub record Enabled : Type 0 where
  pub has_ipcl : Bool
  pub has_g_paillier : Bool
  pub has_ic : Bool
  pub has_clustar_fpga : Bool

unfoldable pub is_enabled : Enabled → SchemaType → Bool
is_enabled e ipcl = e.has_ipcl
is_enabled e g_paillier = e.has_g_paillier
is_enabled e ic_paillier = e.has_ic
is_enabled e clustar_fpga = e.has_clustar_fpga
is_enabled e _ = true

-- The row of the table: the name of the enumerator, then the aliases.
unfoldable pub first_name : SchemaType → String
first_name mock = "Mock"
first_name ou = "OU"
first_name ipcl = "IPCL"
first_name g_paillier = "GPaillier"
first_name z_paillier = "ZPaillier"
first_name f_paillier = "FPaillier"
first_name ic_paillier = "IcPaillier"
first_name clustar_fpga = "ClustarFPGA"
first_name el_gamal = "ElGamal"
first_name dgk = "DGK"
first_name dj = "DJ"

unfoldable pub other_names : SchemaType → List String
other_names mock = "none" ∷ "mock" ∷ "plain" ∷ []
other_names ou = "ou" ∷ "okamoto-uchiyama" ∷ []
other_names ipcl =
    "ipcl" ∷ "ipcl-paillier" ∷ "ipcl_paillier" ∷ "paillier_ipcl" ∷ "paillier-ipcl" ∷ []
other_names g_paillier = "g-paillier" ∷ "gpaillier" ∷ "paillier_g" ∷ "paillier_gpu" ∷ []
other_names z_paillier =
    "z-paillier" ∷ "zpaillier" ∷ "paillier" ∷ "paillier_z" ∷ "paillier_zahlen" ∷ []
other_names f_paillier = "f-paillier" ∷ "fpaillier" ∷ "paillier_f" ∷ "paillier_float" ∷ []
other_names ic_paillier =
    "ic-paillier" ∷ "icpaillier" ∷ "ic_paillier" ∷ "paillier_ic" ∷ "paillier-interconnection" ∷ []
other_names clustar_fpga =
    "clustarfpga" ∷ "clustarfpga-paillier" ∷ "clustarfpga_paillier" ∷ "paillier_clustarfpga"
    ∷ "paillier-clustarfpga" ∷ []
other_names el_gamal =
    "elgamal" ∷ "ec_elgamal" ∷ "exponential_elgamal" ∷ "exp_elgamal" ∷ "lifted_elgamal" ∷ []
other_names dgk = "dgk" ∷ "damgard-geisler-kroigaard" ∷ "damgard_geisler_kroigaard" ∷ []
other_names dj = "dj" ∷ "damgard-jurik" ∷ "damgard_jurik" ∷ []

unfoldable pub get_schema_aliases : SchemaType → List String
unfolding first_name other_names
get_schema_aliases s = first_name s ∷ other_names s

-- The keys that a map holds stand in the order of the enumeration. A disabled row is an empty
-- pair, whose key is the first enumerator, which is there already.
abbrev pub every_schema : List SchemaType
every_schema =
    mock ∷ ou ∷ ipcl ∷ g_paillier ∷ z_paillier ∷ f_paillier ∷ ic_paillier ∷ clustar_fpga ∷ el_gamal
    ∷ dgk ∷ dj ∷ []

unfoldable pub select : Enabled → List SchemaType → List SchemaType
unfolding is_enabled
select e [] = []
select e (s ∷ ss) = let rest = select e ss in if is_enabled e s then s ∷ rest else rest

unfoldable pub get_all_schema : Enabled → List SchemaType
unfolding select
get_all_schema e = select e every_schema

unfoldable pub schema_to_string : Enabled → SchemaType → Result String
unfolding is_enabled first_name
schema_to_string e s = do enforce (is_enabled e s) not_enabled; ok (first_name s)

unfoldable pub has_alias : List String → String → Bool
has_alias [] name = false
has_alias (a ∷ as_) name = if a == name then true else has_alias as_ name

unfoldable pub find_alias : List SchemaType → String → Result SchemaType
unfolding has_alias get_schema_aliases
find_alias [] name = err unknown_schema
find_alias (s ∷ ss) name =
    let rest = find_alias ss name in if has_alias (get_schema_aliases s) name then ok s else rest

unfoldable pub parse_schema_type : (String → String) → Enabled → String → Result SchemaType
unfolding find_alias get_all_schema
parse_schema_type lower e name = find_alias (get_all_schema e) (lower name)

unfoldable pub namespace_idx_2_schema : Enabled → ℕ → Result SchemaType
unfolding get_all_schema read
namespace_idx_2_schema e idx = do
  enforce (ltb idx (length (get_all_schema e))) idx_overflow
  read (get_all_schema e) idx

abbrev pub same_schema : SchemaType → SchemaType → Bool
same_schema s t = elim (SchemaType_discrete s t) [ yes p ↦ true | no p ↦ false ]

unfoldable pub index_of : List SchemaType → ℕ → SchemaType → Result ℕ
index_of [] i s = err not_enabled
index_of (t ∷ ts) i s = let rest = index_of ts (i + 1) s in if same_schema t s then ok i else rest

-- The look-up in the map from each listed schema to its position.
unfoldable pub schema_2_namespace_idx : Enabled → SchemaType → Result ℕ
unfolding index_of get_all_schema
schema_2_namespace_idx e s = index_of (get_all_schema e) 0 s
