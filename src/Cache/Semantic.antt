-- ===== src/Cache/Semantic.antt =====
-- extensions/cache/semantic.go: the cache of answers by the similarity of their prompts.
--
-- The vectorizer, the clock, `json` and `strconv` are parameters. What `json.Unmarshal` of the
-- metadata leaves, error or not, is the parameter `unmarshal_map`.
pub mod Hits
pub mod Entries
use redis_vl_golang.Base.{
  ℕ, String, str_eq, Bool, true, false, ◌||◌, not, Option, none, some, List, [], ◌∷◌, ◌++◌, map,
  has, Result, ok, err, map_err, ◌>>=◌, if◌then◌else◌,
}
use redis_vl_golang.Base.Int.{ℤ, pos}
use redis_vl_golang.Base.Float.{Float64, zero_f, tenth_f, two_f, eq, lt}
use redis_vl_golang.Schema.Advisor.{none_set}
use redis_vl_golang.Schema.Attrs.{VectorAttrs, SchemaError}
use redis_vl_golang.Schema.Field.{Field, new_text_field, new_numeric_field, new_vector_field}
use redis_vl_golang.Schema.Index.{IndexSchema, new_index_schema, add_field}
use redis_vl_golang.Vectors.Buffer.{VectorError}
use redis_vl_golang.Vectorize.{Vectorizer}
use redis_vl_golang.Index.Value.{Value, Scalars}
use redis_vl_golang.Index.Server.{Server, RedisError, IndexError, after, answered}
use redis_vl_golang.Index.Admin.{create}

pub data SemanticError : Type 0 where
  bad_distance : Float64 → SemanticError
  reserved_field not_a_field not_vectorized : String → SemanticError
  bad_schema : SchemaError → SemanticError
  bad_dims : ℕ → ℤ → SemanticError
  bad_vector : VectorError → SemanticError
  nothing_given metadata_not_map not_json no_key : SemanticError
  semantic_index : IndexError → SemanticError
  semantic_redis : RedisError → SemanticError

-- A time to live is in nanoseconds.
pub record SemanticCache : Type 0 where
  pub name : String
  pub distance_threshold : Float64
  pub ttl : ℤ
  pub schema : IndexSchema
  pub return_fields : List String

pub record SemanticCacheOptions : Type 0 where
  pub name : String
  pub distance_threshold : Float64
  pub ttl : ℤ
  pub filterable_fields : List Field
  pub overwrite : Bool

abbrev base_return_fields : List String
base_return_fields =
    "entry_id" ∷ "prompt" ∷ "response" ∷ "inserted_at" ∷ "updated_at" ∷ "metadata" ∷ []

unfoldable pub is_protected : String → Bool
is_protected name = has ("key" ∷ base_return_fields) name

unfoldable pub semantic_attrs : ℤ → String → VectorAttrs
semantic_attrs dims dtype = record (none_set dims dtype) {
  algorithm = "FLAT";
  distance_metric = "COSINE";
}

unfoldable pub base_schema : String → ℤ → String → Result SchemaError IndexSchema
unfolding semantic_attrs
base_schema name dims dtype = do
  vf ← new_vector_field "prompt_vector" (semantic_attrs dims dtype)
  new_index_schema
      (record {
        name = name;
        prefixes = name ∷ [];
        key_separator = "";
        storage_type = "";
        stopwords = none;
      })
      (new_text_field "prompt" none
        ∷ new_text_field "response" none
        ∷ new_numeric_field "inserted_at" none
        ∷ new_numeric_field "updated_at" none
        ∷ vf
        ∷ [])

-- The loop over the filterable fields: each goes to the schema and to the fields returned.
abbrev next_filterable :
    Bool
    → String
    → Result SchemaError IndexSchema
    → (IndexSchema → Result SemanticError (IndexSchema × List String))
    → Result SemanticError (IndexSchema × List String)
next_filterable true name added rest = err (reserved_field name)
next_filterable false name added rest = map_err bad_schema added >>= rest

unfoldable pub add_filterable :
    IndexSchema → List String → List Field → Result SemanticError (IndexSchema × List String)
unfolding is_protected
add_filterable i names [] = ok (i, names)
add_filterable i names (f ∷ fields) =
    next_filterable (is_protected f.name) f.name (add_field i f)
      (λ i'. add_filterable i' (names ++ (f.name ∷ [])) fields)

unfoldable pub out_of_range : Float64 → Bool
out_of_range t = lt t zero_f || lt two_f t

abbrev name_or : String → String
name_or name = if str_eq name "" then "llmcache" else name

abbrev threshold_or : Float64 → Float64
threshold_or t = if eq t zero_f then tenth_f else t

abbrev cache_of : SemanticCacheOptions → IndexSchema × List String → SemanticCache
cache_of o (i, names) = record {
  name = name_or o.name;
  distance_threshold = threshold_or o.distance_threshold;
  ttl = o.ttl;
  schema = i;
  return_fields = names;
}

-- What `NewSemanticCache` makes before it creates the index.
unfoldable pub configured : SemanticCacheOptions → ℤ → String → Result SemanticError SemanticCache
unfolding out_of_range base_schema add_filterable
configured o dims dtype =
    if out_of_range (threshold_or o.distance_threshold)
    then err (bad_distance (threshold_or o.distance_threshold))
    else (do
      i ← map_err bad_schema (base_schema (name_or o.name) dims dtype)
      parts ← add_filterable i base_return_fields o.filterable_fields
      ok (cache_of o parts))

unfoldable pub set_distance_threshold : Float64 → SemanticCache → Result SemanticError SemanticCache
unfolding out_of_range
set_distance_threshold t c =
    if out_of_range t then err (bad_distance t) else ok (record c { distance_threshold = t })

unfoldable pub new_semantic_cache {ℓ} :
    {S : Type ℓ}
    → Server S
    → Scalars
    → Vectorizer S
    → SemanticCacheOptions
    → S
    → Result SemanticError SemanticCache × S
unfolding configured
new_semantic_cache server sc v o s =
    after
      (λ c s.
        after (λ _ s. (ok c, s))
          (answered semantic_index
            (create server sc c.schema (record { overwrite = o.overwrite; drop = false }) s)))
      (configured o v.dims v.dtype, s)
