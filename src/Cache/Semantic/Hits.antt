-- ===== src/Cache/Semantic/Hits.antt =====
-- semantic.go: the fields of an entry, and a hit from the fields of a document.
use redis_vl_golang.Base.{
  ℕ, String, str_eq, Bool, true, false, Option, none, some, List, [], ◌∷◌, has, Result, ok, err,
  ◌>>=◌, if◌then◌else◌,
}
use redis_vl_golang.Base.Int.{ℤ}
use redis_vl_golang.Base.Float.{Float64, zero_f}
use redis_vl_golang.Base.Dict.{Dict, lookup, insert}
use redis_vl_golang.Filter.Expression.{Expression}
use redis_vl_golang.Index.Value.{Value, text, bytes, named, fields_dict, Scalars}
use redis_vl_golang.Index.Ids.{sprint, hashify}
use redis_vl_golang.Cache.Semantic.{SemanticError, not_a_field, metadata_not_map, not_json}

pub record CacheHit : Type 0 where
  pub key : String
  pub entry_id : String
  pub prompt : String
  pub response : String
  pub vector_distance : Float64
  pub inserted_at : Float64
  pub updated_at : Float64
  pub metadata : Dict Value
  pub filters : Dict String

pub record StoreOptions : Type 0 where
  pub vector : Option (List Float64)
  pub metadata : Option (Dict Value)
  pub filters : Dict Value
  pub ttl : ℤ

pub record CheckOptions : Type 0 where
  pub vector : Option (List Float64)
  pub num_results : ℤ
  pub filter : Expression
  pub distance_threshold : Float64

-- The texts of values, and the clock at the call.
pub record Texts : Type 0 where
  pub scalars : Scalars
  pub marshal_map : Dict Value → Option String
  pub unmarshal_map : String → Dict Value
  pub format_ts : Float64 → String
  pub now : Float64
  pub digest : String → String

abbrev known_fields : List String
known_fields =
    "id" ∷ "entry_id" ∷ "prompt" ∷ "response" ∷ "vector_distance" ∷ "inserted_at" ∷ "updated_at"
    ∷ "metadata" ∷ "score" ∷ []

module _ (x : Texts) where
  abbrev pub text_of : Option Value → String
  text_of none = ""
  text_of (some v) = sprint x.scalars v

  abbrev pub or_zero : Option Float64 → Float64
  or_zero none = zero_f
  or_zero (some t) = t

  abbrev float_of : Option Value → Float64
  float_of none = zero_f
  float_of (some v) = or_zero (x.scalars.parse_float (sprint x.scalars v))

  abbrev pub map_of : Option Value → Dict Value
  map_of none = []
  map_of (some v) = x.unmarshal_map (sprint x.scalars v)

  unfoldable pub filters_of : Dict Value → Dict String
  filters_of [] = []
  filters_of ((k, v) ∷ doc) =
      let rest = filters_of doc in
      if has known_fields k then rest else (k, sprint x.scalars v) ∷ rest

  unfoldable pub parse_cache_hit : Dict Value → CacheHit
  unfolding filters_of
  parse_cache_hit doc = record {
    key = text_of (lookup "id" doc);
    entry_id = text_of (lookup "entry_id" doc);
    prompt = text_of (lookup "prompt" doc);
    response = text_of (lookup "response" doc);
    vector_distance = float_of (lookup "vector_distance" doc);
    inserted_at = float_of (lookup "inserted_at" doc);
    updated_at = float_of (lookup "updated_at" doc);
    metadata = map_of (lookup "metadata" doc);
    filters = filters_of doc;
  }

  -- The filters of an entry take the place of its other fields of the same name.
  unfoldable pub put_values : Dict Value → Dict Value → Dict Value
  put_values [] fields = fields
  put_values ((k, v) ∷ more) fields = put_values more (insert k v fields)

  unfoldable pub make_entry_id : String → Dict Value → String
  make_entry_id prompt filters = hashify x.digest x.scalars prompt filters

  abbrev pub metadata_json : Option String → Result SemanticError (Dict Value)
  metadata_json none = err not_json
  metadata_json (some json) = ok (("metadata", text json) ∷ [])

  abbrev pub metadata_fields : Option (Dict Value) → Result SemanticError (Dict Value)
  metadata_fields none = ok []
  metadata_fields (some m) = metadata_json (x.marshal_map m)

  unfoldable pub entry_fields :
      String → String → StoreOptions → List ℕ → Result SemanticError (Dict Value)
  unfolding make_entry_id put_values
  entry_fields prompt response o blob = do
    meta ← metadata_fields o.metadata
    ok (
        put_values o.filters (
          ("entry_id", text (make_entry_id prompt o.filters))
          ∷ ("prompt", text prompt)
          ∷ ("response", text response)
          ∷ ("prompt_vector", bytes blob)
          ∷ ("inserted_at", text (x.format_ts x.now))
          ∷ ("updated_at", text (x.format_ts x.now))
          ∷ meta))

  -- The loop of `Update` over the fields, in an order of the map.
  abbrev json_field : String → Option String → Result SemanticError Value
  json_field k none = err not_json
  json_field k (some json) = ok (text json)

  abbrev metadata_value : Value → Result SemanticError Value
  metadata_value (named fs) = json_field "metadata" (x.marshal_map (fields_dict fs))
  metadata_value v = err metadata_not_map

  abbrev field_value : Bool → String → Value → Result SemanticError Value
  field_value false k v = err (not_a_field k)
  field_value true k v = if str_eq k "metadata" then metadata_value v else ok v

  unfoldable pub update_values : List String → Dict Value → Result SemanticError (Dict Value)
  update_values valid [] = ok []
  update_values valid ((k, v) ∷ fields) = do
    value ← field_value (has valid k) k v
    rest ← update_values valid fields
    ok ((k, value) ∷ rest)
