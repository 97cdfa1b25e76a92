-- ===== src/Phe/Schema/Names.antt =====
-- Names and indices of the registered algorithms.
use heu.Base.{
  ℕ, suc, ◌+◌, ◌<◌, ◌≡◌, refl, ap, Bool, true, false, List, [], ◌∷◌, length, lt→ltb, if◌then◌else◌,
  ok, ◌>>=◌, ok-injective, Bool-cases, inl, inr, arith,
}
use heu.Numpy.Matrix.{read}
use Prim.Native.String.{String}
use heu.Phe.Schema.{
  SchemaType, SchemaType_discrete, mock, ou, ipcl, g_paillier, z_paillier, f_paillier, ic_paillier,
  clustar_fpga, el_gamal, dgk, dj, Enabled, is_enabled, every_schema, first_name,
  get_schema_aliases, has_alias, find_alias, select, get_all_schema, schema_to_string,
  parse_schema_type, namespace_idx_2_schema, same_schema, index_of, schema_2_namespace_idx,
}

abbrev listed : List SchemaType → SchemaType → Bool
listed [] s = false
listed (t ∷ ts) s = if same_schema t s then true else listed ts s

every_schema-listed : (s : SchemaType) → listed every_schema s ≡ true
unfolding SchemaType_discrete
every_schema-listed mock = refl
every_schema-listed ou = refl
every_schema-listed _ = refl

same_schema-eq : (t s : SchemaType) → same_schema t s ≡ true → t ≡ s
same_schema-eq t s h = ground arith

module _ (s : SchemaType) where
  index_of-read :
      (ts : List SchemaType) (i k : ℕ)
      → index_of ts i s ≡ ok k
      → (j : ℕ) × (k ≡ i + j) × (j < length ts) × (read ts j ≡ ok s)
  unfolding index_of read
  index_of-read [] i k h = cc
  index_of-read (t ∷ ts) i k h = elim (Bool-cases (same_schema t s)) [
    | inl hit ↦
        let e : i ≡ k = ok-injective i k (rw hit at h) in
        (0, omega arith, omega arith, ap ok (same_schema-eq t s hit))
    | inr other ↦
        let (j, e, lt, r) = index_of-read ts (i + 1) k (rw other at h) in
        (suc j, omega arith, omega arith, r)
  ]

  select-index_of :
      (e : Enabled) (ts : List SchemaType) (i : ℕ)
      → is_enabled e s ≡ true
      → listed ts s ≡ true
      → (k : ℕ) × (index_of (select e ts) i s ≡ ok k)
  unfolding index_of select
  select-index_of e [] i on h = cc
  select-index_of e (t ∷ ts) i on h = elim (Bool-cases (same_schema t s)) [
    | inl hit ↦
        let same = same_schema-eq t s hit in
        let on' : is_enabled e t ≡ true = rw same on in (i, rw on' (rw hit refl))
    | inr other ↦ elim (Bool-cases (is_enabled e t)) [
      | inl on' ↦
          let (k, run) = select-index_of e ts (i + 1) on (rw other at h) in
          (k, rw on' (rw other run))
      | inr off ↦ let (k, run) = select-index_of e ts i on (rw other at h) in (k, rw off run)
    ]
  ]

-- For every choice of the optional algorithms, an enabled schema has an index, and the schema at that
-- index is it.
pub namespace_idx_2_schema-schema_2_namespace_idx :
    (e : Enabled) (s : SchemaType)
    → is_enabled e s ≡ true
    → (k : ℕ) × (schema_2_namespace_idx e s ≡ ok k) × (namespace_idx_2_schema e k ≡ ok s)
unfolding schema_2_namespace_idx namespace_idx_2_schema get_all_schema
namespace_idx_2_schema-schema_2_namespace_idx e s on =
    let (k, run) = select-index_of s e every_schema 0 on (every_schema-listed s) in
    let (j, e', lt, r) = index_of-read s (select e every_schema) 0 k run in
    let same : k ≡ j = omega arith in (k, run, rw (same, lt→ltb j _ lt) r)

-- What lower-casing the name of the enumerator gives.
unfoldable pub lowered : SchemaType → String
lowered mock = "mock"
lowered ou = "ou"
lowered ipcl = "ipcl"
lowered g_paillier = "gpaillier"
lowered z_paillier = "zpaillier"
lowered f_paillier = "fpaillier"
lowered ic_paillier = "icpaillier"
lowered clustar_fpga = "clustarfpga"
lowered el_gamal = "elgamal"
lowered dgk = "dgk"
lowered dj = "dj"

-- Of the aliases, those of the schema alone have its lowered name.
lowered_alone : (t s : SchemaType) → has_alias (get_schema_aliases t) (lowered s) ≡ same_schema t s
unfolding has_alias lowered get_schema_aliases SchemaType_discrete
lowered_alone mock mock = refl
lowered_alone mock ou = refl
lowered_alone mock ipcl = refl
lowered_alone mock g_paillier = refl
lowered_alone mock z_paillier = refl
lowered_alone mock f_paillier = refl
lowered_alone mock ic_paillier = refl
lowered_alone mock clustar_fpga = refl
lowered_alone mock el_gamal = refl
lowered_alone mock dgk = refl
lowered_alone mock dj = refl
lowered_alone _ mock = refl
lowered_alone _ ou = refl
lowered_alone _ ipcl = refl
lowered_alone _ g_paillier = refl
lowered_alone _ z_paillier = refl
lowered_alone _ f_paillier = refl
lowered_alone _ ic_paillier = refl
lowered_alone _ clustar_fpga = refl
lowered_alone _ el_gamal = refl
lowered_alone _ dgk = refl
lowered_alone _ dj = refl

find_alias_lem :
    (e : Enabled) (ts : List SchemaType) (s : SchemaType)
    → is_enabled e s ≡ true
    → listed ts s ≡ true
    → find_alias (select e ts) (lowered s) ≡ ok s
unfolding find_alias select
find_alias_lem e [] s on h = cc
find_alias_lem e (t ∷ ts) s on h = elim (Bool-cases (same_schema t s)) [
  | inl hit ↦
      let same = same_schema-eq t s hit in
      let on' : is_enabled e t ≡ true = rw same on in
      rw on' (rw (lowered_alone t s, hit) (ap ok same))
  | inr other ↦ elim (Bool-cases (is_enabled e t)) [
    | inl on' ↦ rw on' (rw (lowered_alone t s, other) (find_alias_lem e ts s on (rw other at h)))
    | inr off ↦ rw off (find_alias_lem e ts s on (rw other at h))
  ]
]

-- An enabled schema has a string, and parsing that string gives the schema back, where the lower-case
-- function turns the enumerator's name into lower case.
pub parse_schema_type-schema_to_string :
    (lower : String → String) (e : Enabled) (s : SchemaType)
    → lower (first_name s) ≡ lowered s
    → is_enabled e s ≡ true
    → (schema_to_string e s >>= parse_schema_type lower e) ≡ ok s
unfolding schema_to_string parse_schema_type get_all_schema
parse_schema_type-schema_to_string lower e s low on =
    rw (on, low) (find_alias_lem e every_schema s on (every_schema-listed s))
