-- ===== src/Schema/Attrs.antt =====
-- schema/fields.go: the attributes of a field, and `VectorAttrs.Validate`.
--
-- The named string types of the source (field types, metrics, algorithms) are texts: a caller can
-- make any value of them. An int is an integer of any size, a pointer to a number an `Option`.
pub mod Laws
use redis_vl_golang.Base.{
  String, str_eq, Bool, true, false, not, ◌&&◌, ◌||◌, Option, none, some, List, [], ◌∷◌, to_lower,
  to_upper, has, has_prefix, if◌then◌else◌,
}
use redis_vl_golang.Base.Int.{ℤ, pos, leb_ℤ}
use redis_vl_golang.Base.Float.{Float64}

pub data SchemaError : Type 0 where
  dims_required : SchemaError
  invalid_datatype invalid_metric unknown_algorithm svs_datatype : String → SchemaError
  reduce_too_large : ℤ → ℤ → SchemaError
  reduce_without_compression : SchemaError
  reduce_compression : String → SchemaError
  in_vector_field : String → SchemaError → SchemaError
  no_attributes unknown_type : String → SchemaError
  field_name_required : SchemaError
  duplicate_name : String → SchemaError
  index_name_required : SchemaError
  invalid_storage : String → SchemaError
  no_fields : SchemaError
  dims_not_positive : ℤ → SchemaError

pub record BaseAttrs : Type 0 where
  pub sortable : Bool
  pub index_missing : Bool
  pub no_index : Bool

pub record TextAttrs : Type 0 where
  pub base : BaseAttrs
  pub weight : Float64
  pub no_stem : Bool
  pub with_suffix_trie : Bool
  pub phonetic_matcher : String
  pub index_empty : Bool
  pub unf : Bool

pub record TagAttrs : Type 0 where
  pub base : BaseAttrs
  pub separator : String
  pub case_sensitive : Bool
  pub with_suffix_trie : Bool
  pub index_empty : Bool

pub record NumericAttrs : Type 0 where
  pub base : BaseAttrs
  pub unf : Bool

pub record GeoAttrs : Type 0 where
  pub base : BaseAttrs

pub record VectorAttrs : Type 0 where
  pub dims : ℤ
  pub algorithm : String
  pub datatype : String
  pub distance_metric : String
  pub initial_cap : Option ℤ
  pub index_missing : Bool
  pub block_size : Option ℤ
  pub m : Option ℤ
  pub ef_construction : Option ℤ
  pub ef_runtime : Option ℤ
  pub epsilon : Option Float64
  pub graph_max_degree : Option ℤ
  pub construction_window_size : Option ℤ
  pub search_window_size : Option ℤ
  pub compression : String
  pub reduce : Option ℤ
  pub training_threshold : Option ℤ

abbrev pub datatypes : List String
datatypes = "bfloat16" ∷ "float16" ∷ "float32" ∷ "float64" ∷ "int8" ∷ "uint8" ∷ []

abbrev pub metrics : List String
metrics = "COSINE" ∷ "L2" ∷ "IP" ∷ []

abbrev pub algorithms : List String
algorithms = "FLAT" ∷ "HNSW" ∷ "SVS-VAMANA" ∷ []

abbrev pub is_svs : String → Bool
is_svs a = str_eq a "SVS-VAMANA"

-- The checks of an SVS-VAMANA field, on attributes whose texts are already normalized.
unfoldable pub reduce_error : VectorAttrs → ℤ → Option SchemaError
reduce_error v r =
    if leb_ℤ v.dims r
    then some (reduce_too_large r v.dims)
    else if str_eq v.compression ""
    then some reduce_without_compression
    else if has_prefix v.compression "LeanVec"
    then none
    else some (reduce_compression v.compression)

unfoldable pub svs_error : VectorAttrs → Option SchemaError
svs_error v =
    if not (str_eq v.datatype "float16") && not (str_eq v.datatype "float32")
    then some (svs_datatype (to_upper v.datatype))
    else elim v.reduce [ none ↦ none | some r ↦ reduce_error v r ]

abbrev pub or_text : String → String → String
or_text s default = if str_eq s "" then default else s

-- `Validate` writes to its receiver, also where it then fails: the attributes that it leaves, and
-- its error.
unfoldable pub validate : VectorAttrs → VectorAttrs × Option SchemaError
validate v =
    let dt = or_text (to_lower v.datatype) "float32" in
    let metric = to_upper (or_text v.distance_metric "COSINE") in
    let algorithm = to_upper v.algorithm in
    let v1 = record v { datatype = dt } in
    let v2 = record v { datatype = dt; distance_metric = metric } in
    let v3 = record v { datatype = dt; distance_metric = metric; algorithm = algorithm } in
    if leb_ℤ v.dims (pos 0)
    then (v, some dims_required)
    else if not (has datatypes dt)
    then (v1, some (invalid_datatype dt))
    else if not (has metrics metric)
    then (v2, some (invalid_metric metric))
    else if not (has algorithms algorithm)
    then (v3, some (unknown_algorithm algorithm))
    else if is_svs algorithm
    then (v3, svs_error v3)
    else (v3, none)
