-- ===== src/Cache/Embeddings.antt =====
-- extensions/cache/embeddings.go: the cache of embeddings by their text and model.
--
-- `Hashify` without extras is the parameter `hash`; those of `json` and `strconv` and the clock are
-- parameters too.
pub mod Store
pub mod Trips
use redis_vl_golang.Base.{
  ℕ, zero, suc, String, ◌<>◌, str_eq, Bool, true, false, Option, none, some, List, [], ◌∷◌, ◌++◌,
  map, ltb, ◌==◌, Result, ok, err, ◌>>=◌, if◌then◌else◌,
}
use redis_vl_golang.Base.Int.{ℤ, pos, eq_ℤ, ltb_ℤ}
use redis_vl_golang.Base.Float.{Float64, zero_f}
use redis_vl_golang.Base.Dict.{Dict, lookup}
use redis_vl_golang.Index.Value.{Value, text, named, fields_dict, Scalars, to_string}
use redis_vl_golang.Index.Server.{
  Server, Queued, queued_hset, queued_expire, queued_hgetall, RedisError, first_error, after,
  answered,
}

pub record EmbeddingEntry : Type 0 where
  pub entry_id : String
  pub content : String
  pub model_name : String
  pub embedding : List Float64
  pub inserted_at : Float64
  pub metadata : Dict Value

pub data CacheError : Type 0 where
  cache_redis : RedisError → CacheError
  not_json : CacheError
  bad_embedding bad_metadata : String → CacheError

pub record EmbeddingsCache : Type 0 where
  pub name : String
  pub ttl : ℤ

unfoldable pub new_embeddings_cache : String → ℤ → EmbeddingsCache
new_embeddings_cache name ttl = record {
  name = if str_eq name "" then "embedcache" else name;
  ttl = ttl;
}

-- `json` for vectors and for metadata, and the text of a timestamp.
pub record Codec : Type 0 where
  pub marshal_vector : List Float64 → Option String
  pub unmarshal_vector : String → Option (List Float64)
  pub marshal_map : Dict Value → Option String
  pub unmarshal_map : String → Option (Dict Value)
  pub format_ts : Float64 → String
  pub parse_float : String → Option Float64

abbrev pub or_empty : Option String → String
or_empty none = ""
or_empty (some s) = s

abbrev pub or_zero : Option Float64 → Float64
or_zero none = zero_f
or_zero (some x) = x

module _ (hash : String → String) (j : Codec) (c : EmbeddingsCache) where
  unfoldable pub entry_id : String → String → String
  entry_id content model_name = hash (content <> (":" <> model_name))

  unfoldable pub key : String → String → String
  unfolding entry_id
  key content model_name = c.name <> (":" <> entry_id content model_name)

  abbrev pub base_fields : String → String → String → Float64 → Dict Value
  base_fields content model_name emb_json at =
      ("entry_id", text (entry_id content model_name))
      ∷ ("content", text content)
      ∷ ("model_name", text model_name)
      ∷ ("embedding", text emb_json)
      ∷ ("inserted_at", text (j.format_ts at))
      ∷ []

  abbrev pub metadata_json : Option String → Result CacheError (Dict Value)
  metadata_json none = err not_json
  metadata_json (some json) = ok (("metadata", text json) ∷ [])

  abbrev pub metadata_fields : Option (Dict Value) → Result CacheError (Dict Value)
  metadata_fields none = ok []
  metadata_fields (some m) = metadata_json (j.marshal_map m)

  abbrev pub with_metadata :
      Dict Value → Result CacheError (Dict Value) → Result CacheError (Dict Value)
  with_metadata fields (err e) = err e
  with_metadata fields (ok meta) = ok (fields ++ meta)

  abbrev pub fields_for :
      String
      → String
      → Option (Dict Value)
      → Float64
      → Option String
      → Result CacheError (Dict Value)
  fields_for content model_name meta at none = err not_json
  fields_for content model_name meta at (some json) =
      with_metadata (base_fields content model_name json at) (metadata_fields meta)

  -- The fields that `SetWithTTL` writes.
  unfoldable pub set_fields :
      String
      → String
      → List Float64
      → Option (Dict Value)
      → Float64
      → Result CacheError (Dict Value)
  set_fields content model_name embedding meta at =
      fields_for content model_name meta at (j.marshal_vector embedding)

  -- `parseEmbeddingEntry`
  abbrev vector_of : String → Option (List Float64) → Result CacheError (List Float64)
  vector_of raw none = err (bad_embedding raw)
  vector_of raw (some xs) = ok xs

  abbrev read_vector : Option String → Result CacheError (List Float64)
  read_vector none = ok []
  read_vector (some raw) = vector_of raw (j.unmarshal_vector raw)

  abbrev pub map_of : String → Option (Dict Value) → Result CacheError (Dict Value)
  map_of raw none = err (bad_metadata raw)
  map_of raw (some m) = ok m

  abbrev read_map : Option String → Result CacheError (Dict Value)
  read_map none = ok []
  read_map (some raw) = map_of raw (j.unmarshal_map raw)

  abbrev read_time : Option String → Float64
  read_time none = zero_f
  read_time (some raw) = or_zero (j.parse_float raw)

  unfoldable pub parse_embedding_entry : Dict String → Result CacheError EmbeddingEntry
  parse_embedding_entry m = do
    embedding ← read_vector (lookup "embedding" m)
    meta ← read_map (lookup "metadata" m)
    ok (record {
      entry_id = or_empty (lookup "entry_id" m);
      content = or_empty (lookup "content" m);
      model_name = or_empty (lookup "model_name" m);
      embedding = embedding;
      inserted_at = read_time (lookup "inserted_at" m);
      metadata = meta;
    })
