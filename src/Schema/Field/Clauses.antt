-- ===== src/Schema/Field/Clauses.antt =====
-- What the rendered attributes of a field say (`Field.RedisArgs`).
use redis_vl_golang.Base.{
  ◌*◌, String, str_eq, str_eq_iff, ◌≡◌, ap, arith, Bool, true, false, ◌&&◌, ◌||◌, Option, none,
  some, List, [], ◌∷◌, length, drop, to_upper, if◌then◌else◌,
}
use redis_vl_golang.Base.Int.{ℤ, pos}
use redis_vl_golang.Base.Float.{hundredth_f}
use redis_vl_golang.Base.Dict.{Dict, lookup}
use redis_vl_golang.Command.{Arg, str, int, float, blob}
use redis_vl_golang.Schema.Attrs.{TagAttrs, NumericAttrs, GeoAttrs, VectorAttrs}
use redis_vl_golang.Schema.Field.{
  tag_args, numeric_args, geo_args, algorithm_args, vector_kv, or_default, or_default_f,
}

is_word : String → Arg → Bool
is_word k (str s) = str_eq s k
is_word k (int n) = false
is_word k (float x) = false
is_word k (blob b) = false

pub has_word : String → List Arg → Bool
unfolding is_word
has_word k [] = false
has_word k (a ∷ args) = is_word k a || has_word k args

-- In the arguments of a numeric, a geo and a tag field, there behind the separator, each modifier
-- stands exactly if the attribute is set; UNF only with SORTABLE.
has_word-args :
    (n : NumericAttrs) (g : GeoAttrs) (t : TagAttrs)
    → ((has_word "SORTABLE" (numeric_args n) ≡ n.base.sortable)
        × (has_word "UNF" (numeric_args n) ≡ (n.base.sortable && n.unf))
        × (has_word "INDEXMISSING" (numeric_args n) ≡ n.base.index_missing)
        × (has_word "NOINDEX" (numeric_args n) ≡ n.base.no_index))
      × ((has_word "SORTABLE" (geo_args g) ≡ g.base.sortable)
          × (has_word "INDEXMISSING" (geo_args g) ≡ g.base.index_missing)
          × (has_word "NOINDEX" (geo_args g) ≡ g.base.no_index))
      × ((has_word "SORTABLE" (drop 3 (tag_args t)) ≡ t.base.sortable)
          × (has_word "CASESENSITIVE" (drop 3 (tag_args t)) ≡ t.case_sensitive)
          × (has_word "WITHSUFFIXTRIE" (drop 3 (tag_args t)) ≡ t.with_suffix_trie)
          × (has_word "INDEXEMPTY" (drop 3 (tag_args t)) ≡ t.index_empty)
          × (has_word "INDEXMISSING" (drop 3 (tag_args t)) ≡ t.base.index_missing)
          × (has_word "NOINDEX" (drop 3 (tag_args t)) ≡ t.base.no_index))
unfolding has_word is_word numeric_args geo_args tag_args
has_word-args n g t = (
  (ground arith, ground arith, ground arith, ground arith),
  (ground arith, ground arith, ground arith),
  (ground arith, ground arith, ground arith, ground arith, ground arith, ground arith),
)

-- The pairs of keys and values that the arguments are.
pub kv_pairs : List Arg → Dict Arg
kv_pairs (str k ∷ v ∷ args) = (k, v) ∷ kv_pairs args
kv_pairs args = []

abbrev pub int_arg : Option ℤ → Option Arg
int_arg none = none
int_arg (some n) = some (int n)

flat_only :
    (a : String)
    → str_eq a "FLAT" ≡ true
    → (str_eq a "HNSW" ≡ false) × (str_eq a "SVS-VAMANA" ≡ false)
flat_only a h =
    let e = (str_eq_iff a "FLAT").0 h in
    (ap (λ t. str_eq t "HNSW") e, ap (λ t. str_eq t "SVS-VAMANA") e)

hnsw_only : (a : String) → str_eq a "HNSW" ≡ true → str_eq a "SVS-VAMANA" ≡ false
hnsw_only a h = ap (λ t. str_eq t "SVS-VAMANA") ((str_eq_iff a "HNSW").0 h)

-- The attributes of a vector field are as many arguments as announced, all of them pairs. They
-- name the type, the dimensions and the metric, and those of the algorithm alone, with its defaults.
vector_kv_lem :
    (a : VectorAttrs)
    → let pairs = kv_pairs (vector_kv a) in
      (length (vector_kv a) ≡ length pairs * 2)
      × (lookup "TYPE" pairs ≡ some (str (to_upper a.datatype)))
      × (lookup "DIM" pairs ≡ some (int a.dims))
      × (lookup "DISTANCE_METRIC" pairs ≡ some (str a.distance_metric))
      × (lookup "INITIAL_CAP" pairs ≡ int_arg a.initial_cap)
      × (lookup "BLOCK_SIZE" pairs
          ≡ (if str_eq a.algorithm "FLAT" then int_arg a.block_size else none))
      × (lookup "M" pairs
          ≡ (if str_eq a.algorithm "HNSW" then some (int (or_default a.m (pos 16))) else none))
      × (lookup "EPSILON" pairs ≡ (
          if str_eq a.algorithm "HNSW" || str_eq a.algorithm "SVS-VAMANA"
          then some (float (or_default_f a.epsilon hundredth_f))
          else none))
      × (lookup "REDUCE" pairs
          ≡ (if str_eq a.algorithm "SVS-VAMANA" then int_arg a.reduce else none))
unfolding vector_kv algorithm_args kv_pairs lookup
vector_kv_lem a = (
  ground arith,
  ground arith,
  ground arith,
  ground arith,
  ground arith,
  ground arith,
  ground (arith, flat_only a.algorithm, hnsw_only a.algorithm),
  ground (arith, flat_only a.algorithm, hnsw_only a.algorithm),
  ground (arith, flat_only a.algorithm, hnsw_only a.algorithm),
)
