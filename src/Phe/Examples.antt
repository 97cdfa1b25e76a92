-- ===== src/Phe/Examples.antt =====
-- A build with the interconnection scheme only.
pub mod Batch
use heu.Base.{ℕ, ◌≡◌, refl, true, false, ok, ◌>>=◌}
use Prim.Native.String.{String}
use text.Mathlib.Text.{◌==◌}
use heu.Base.{if◌then◌else◌}
use heu.Phe.Schema.{
  ic_paillier, Enabled, first_name, schema_to_string, parse_schema_type, schema_2_namespace_idx,
  namespace_idx_2_schema, is_enabled,
}
use heu.Phe.Schema.Names.{
  lowered, parse_schema_type-schema_to_string, namespace_idx_2_schema-schema_2_namespace_idx,
}

abbrev with_ic : Enabled
with_ic = record {
  has_ipcl = false;
  has_g_paillier = false;
  has_ic = true;
  has_clustar_fpga = false;
}

abbrev lower : String → String
lower name = if name == "IcPaillier" then "icpaillier" else name

lowers : lower (first_name ic_paillier) ≡ lowered ic_paillier
unfolding first_name lowered
lowers = refl

ic_enabled : is_enabled with_ic ic_paillier ≡ true
unfolding is_enabled
ic_enabled = refl

parse_schema_type-schema_to_string_example :
    (schema_to_string with_ic ic_paillier >>= parse_schema_type lower with_ic) ≡ ok ic_paillier
parse_schema_type-schema_to_string_example =
    parse_schema_type-schema_to_string lower with_ic ic_paillier lowers ic_enabled
