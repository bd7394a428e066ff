-- ===== src/Schema/Field.antt =====
-- schema/fields.go: `Field`, its constructors and `RedisArgs`.
pub mod Clauses
use redis_vl_golang.Base.{
  String, str_eq, Bool, false, not, ◌&&◌, Option, none, some, List, [], ◌∷◌, ◌++◌, length, Result,
  ok, err, ◌>>=◌, to_upper, if◌then◌else◌,
}
use redis_vl_golang.Base.Int.{ℤ, pos}
use redis_vl_golang.Base.Float
use redis_vl_golang.Base.Float.{Float64, zero_f, one_f, hundredth_f}
use redis_vl_golang.Command.{Arg, str, int, float}
use redis_vl_golang.Schema.Attrs.{
  SchemaError, no_attributes, unknown_type, in_vector_field, BaseAttrs, TextAttrs, TagAttrs,
  NumericAttrs, GeoAttrs, VectorAttrs, validate,
}

pub record Field : Type 0 where
  pub name : String
  pub type : String
  pub path : String
  pub text : Option TextAttrs
  pub tag : Option TagAttrs
  pub numeric : Option NumericAttrs
  pub geo : Option GeoAttrs
  pub vector : Option VectorAttrs

abbrev pub bare : String → String → Field
bare name type = record {
  name = name;
  type = type;
  path = "";
  text = none;
  tag = none;
  numeric = none;
  geo = none;
  vector = none;
}

abbrev no_base : BaseAttrs
no_base = record { sortable = false; index_missing = false; no_index = false }

-- `TextAttrs{Weight: 1}`, `TagAttrs{Separator: ","}` and the zero values.
abbrev pub text_default : TextAttrs
text_default = record {
  base = no_base;
  weight = one_f;
  no_stem = false;
  with_suffix_trie = false;
  phonetic_matcher = "";
  index_empty = false;
  unf = false;
}

abbrev pub tag_default : TagAttrs
tag_default = record {
  base = no_base;
  separator = ",";
  case_sensitive = false;
  with_suffix_trie = false;
  index_empty = false;
}

abbrev pub numeric_default : NumericAttrs
numeric_default = record { base = no_base; unf = false }

abbrev pub geo_default : GeoAttrs
geo_default = record { base = no_base }

-- The variadic attributes of a constructor: none, or the first.
unfoldable pub new_text_field : String → Option TextAttrs → Field
new_text_field name attrs = record (bare name "text") {
  text = some (elim attrs [
    | none ↦ text_default
    | some a ↦ if Float.eq a.weight zero_f then record a { weight = one_f } else a
  ]);
}

unfoldable pub new_tag_field : String → Option TagAttrs → Field
new_tag_field name attrs = record (bare name "tag") {
  tag = some (elim attrs [
    | none ↦ tag_default
    | some a ↦ if str_eq a.separator "" then record a { separator = "," } else a
  ]);
}

unfoldable pub new_numeric_field : String → Option NumericAttrs → Field
new_numeric_field name attrs = record (bare name "numeric") {
  numeric = some (elim attrs [ none ↦ numeric_default | some a ↦ a ]);
}

unfoldable pub new_geo_field : String → Option GeoAttrs → Field
new_geo_field name attrs = record (bare name "geo") {
  geo = some (elim attrs [ none ↦ geo_default | some a ↦ a ]);
}

unfoldable pub new_vector_field : String → VectorAttrs → Result SchemaError Field
new_vector_field name attrs = elim (validate attrs).1 [
  | some e ↦ err (in_vector_field name e)
  | none ↦ ok (record (bare name "vector") { vector = some (validate attrs).0 })
]

unfoldable pub or_default : Option ℤ → ℤ → ℤ
or_default (some p) def = p
or_default none def = def

unfoldable pub or_default_f : Option Float64 → Float64 → Float64
or_default_f (some p) def = p
or_default_f none def = def

-- `if test { args = append(args, …) }`
abbrev pub flag : Bool → List Arg → List Arg
flag test args = if test then args else []

abbrev pub optional : String → Option ℤ → List Arg
optional key none = []
optional key (some n) = str key ∷ int n ∷ []

unfoldable pub text_args : TextAttrs → List Arg
text_args a =
    str "TEXT"
    ∷ (flag a.no_stem (str "NOSTEM" ∷ [])
        ++ (flag (not (Float.eq a.weight zero_f) && not (Float.eq a.weight one_f))
              (str "WEIGHT" ∷ float a.weight ∷ [])
            ++ (flag (not (str_eq a.phonetic_matcher ""))
                  (str "PHONETIC" ∷ str a.phonetic_matcher ∷ [])
                ++ (flag a.with_suffix_trie (str "WITHSUFFIXTRIE" ∷ [])
                    ++ (flag a.index_empty (str "INDEXEMPTY" ∷ [])
                        ++ (flag a.base.index_missing (str "INDEXMISSING" ∷ [])
                            ++ (flag a.base.sortable (str "SORTABLE" ∷ flag a.unf (str "UNF" ∷ []))
                                ++ flag a.base.no_index (str "NOINDEX" ∷ []))))))))

unfoldable pub tag_args : TagAttrs → List Arg
tag_args a =
    str "TAG"
    ∷ str "SEPARATOR"
    ∷ str (if str_eq a.separator "" then "," else a.separator)
    ∷ (flag a.case_sensitive (str "CASESENSITIVE" ∷ [])
        ++ (flag a.with_suffix_trie (str "WITHSUFFIXTRIE" ∷ [])
            ++ (flag a.index_empty (str "INDEXEMPTY" ∷ [])
                ++ (flag a.base.index_missing (str "INDEXMISSING" ∷ [])
                    ++ (flag a.base.sortable (str "SORTABLE" ∷ [])
                        ++ flag a.base.no_index (str "NOINDEX" ∷ []))))))

unfoldable pub numeric_args : NumericAttrs → List Arg
numeric_args a =
    str "NUMERIC"
    ∷ (flag a.base.index_missing (str "INDEXMISSING" ∷ [])
        ++ (flag a.base.sortable (str "SORTABLE" ∷ flag a.unf (str "UNF" ∷ []))
            ++ flag a.base.no_index (str "NOINDEX" ∷ [])))

unfoldable pub geo_args : GeoAttrs → List Arg
geo_args a =
    str "GEO"
    ∷ (flag a.base.index_missing (str "INDEXMISSING" ∷ [])
        ++ (flag a.base.sortable (str "SORTABLE" ∷ [])
            ++ flag a.base.no_index (str "NOINDEX" ∷ [])))

-- The key/value pairs of each algorithm. `Validate` has passed before, so there is no fourth.
algorithm_args : VectorAttrs → List Arg
algorithm_args a =
    if str_eq a.algorithm "FLAT"
    then optional "BLOCK_SIZE" a.block_size
    else if str_eq a.algorithm "HNSW"
    then str "M"
      ∷ int (or_default a.m (pos 16))
      ∷ str "EF_CONSTRUCTION"
      ∷ int (or_default a.ef_construction (pos 200))
      ∷ str "EF_RUNTIME"
      ∷ int (or_default a.ef_runtime (pos 10))
      ∷ str "EPSILON"
      ∷ float (or_default_f a.epsilon hundredth_f)
      ∷ []
    else if str_eq a.algorithm "SVS-VAMANA"
    then str "GRAPH_MAX_DEGREE"
      ∷ int (or_default a.graph_max_degree (pos 40))
      ∷ str "CONSTRUCTION_WINDOW_SIZE"
      ∷ int (or_default a.construction_window_size (pos 250))
      ∷ str "SEARCH_WINDOW_SIZE"
      ∷ int (or_default a.search_window_size (pos 20))
      ∷ str "EPSILON"
      ∷ float (or_default_f a.epsilon hundredth_f)
      ∷ (flag (not (str_eq a.compression "")) (str "COMPRESSION" ∷ str a.compression ∷ [])
          ++ (optional "REDUCE" a.reduce ++ optional "TRAINING_THRESHOLD" a.training_threshold))
    else []

unfoldable pub vector_kv : VectorAttrs → List Arg
unfolding algorithm_args
vector_kv a =
    str "TYPE"
    ∷ str (to_upper a.datatype)
    ∷ str "DIM"
    ∷ int a.dims
    ∷ str "DISTANCE_METRIC"
    ∷ str a.distance_metric
    ∷ (optional "INITIAL_CAP" a.initial_cap ++ algorithm_args a)

unfoldable pub vector_args : VectorAttrs → List Arg
vector_args a =
    str "VECTOR"
    ∷ str a.algorithm
    ∷ int (pos (length (vector_kv a)))
    ∷ (vector_kv a ++ flag a.index_missing (str "INDEXMISSING" ∷ []))

abbrev or_attrs {ℓ} : {A : Type ℓ} → Option A → A → A
or_attrs none d = d
or_attrs (some a) d = a

-- The switch on the type. The attributes that `Validate` leaves in the receiver are those that are
-- rendered; that they are written back is not kept here: a stored field has passed before
-- (`Index.add_field`), and validating it again writes nothing.
type_args : Field → Result SchemaError (List Arg)
type_args f =
    if str_eq f.type "text"
    then ok (text_args (or_attrs f.text text_default))
    else if str_eq f.type "tag"
    then ok (tag_args (or_attrs f.tag tag_default))
    else if str_eq f.type "numeric"
    then ok (numeric_args (or_attrs f.numeric numeric_default))
    else if str_eq f.type "geo"
    then ok (geo_args (or_attrs f.geo geo_default))
    else if str_eq f.type "vector"
    then (elim f.vector [
      | none ↦ err (no_attributes f.name)
      | some a ↦ elim (validate a).1 [ some e ↦ err e | none ↦ ok (vector_args (validate a).0) ]
    ])
    else err (unknown_type f.type)

-- The name, or the path with the name as its alias.
unfoldable pub name_args : Field → List Arg
name_args f =
    if str_eq f.path ""
    then str f.name ∷ []
    else str f.path ∷ flag (not (str_eq f.name "")) (str "AS" ∷ str f.name ∷ [])

unfoldable pub redis_args : Field → Result SchemaError (List Arg)
unfolding type_args
redis_args f = do args ← type_args f; ok (name_args f ++ args)
