-- ===== src/Cache/Semantic/Entries.antt =====
-- semantic.go: the operations on the entries of a semantic cache.
use redis_vl_golang.Base.{
  ℕ, length, String, str_eq, Bool, true, false, Option, none, some, List, [], ◌∷◌, Result, ok, err,
  map_err, ◌>>=◌, if◌then◌else◌,
}
use redis_vl_golang.Base.Int.{ℤ, pos, eq_ℤ, ltb_ℤ}
use redis_vl_golang.Base.Float.{Float64, zero_f, eq}
use redis_vl_golang.Base.Dict.{Dict, insert}
use redis_vl_golang.Vectors.Buffer.{Conversions, to_buffer}
use redis_vl_golang.Query.Options.{Floats}
use redis_vl_golang.Query.Range.{
  VectorRangeQuery, new_range_query, set_range_all, distance_threshold, num_results, dtype,
  return_fields, filter,
}
use redis_vl_golang.Schema.Index.{field_names}
use redis_vl_golang.Vectorize.{Vectorizer}
use redis_vl_golang.Index.Value.{Value, text}
use redis_vl_golang.Index.Server.{
  Server, RedisError, IndexError, queued_hset, queued_expire, after, answered,
}
use redis_vl_golang.Index.Search.{run_query, run_range}
use redis_vl_golang.Index.Load.{LoadOptions, load}
use redis_vl_golang.Index.Admin.{drop_keys, drop_documents, delete}
use redis_vl_golang.Cache.Semantic.{
  SemanticCache, SemanticError, not_vectorized, bad_dims, bad_vector, nothing_given, no_key,
  semantic_index, semantic_redis,
}
use redis_vl_golang.Cache.Semantic.Hits.{
  CacheHit, StoreOptions, CheckOptions, Texts, parse_cache_hit, entry_fields, update_values,
}

module _ (x : Texts) where
  module _ {ℓ} {S : Type ℓ} (server : Server S) (v : Vectorizer S) (c : SemanticCache) where
    unfoldable pub expire_key : String → ℤ → S → S
    expire_key k ttl s =
        let own = if eq_ℤ ttl (pos 0) then c.ttl else ttl in
        if ltb_ℤ (pos 0) own then (server.run (queued_expire k own) s).1 else s

    abbrev pub embedded : Result String (List Float64) × S → Result SemanticError (List Float64) × S
    embedded (err e, s) = (err (not_vectorized e), s)
    embedded (ok xs, s) = (ok xs, s)

    abbrev vector_for : String → Option (List Float64) → S → Result SemanticError (List Float64) × S
    vector_for prompt (some xs) s = (ok xs, s)
    vector_for prompt none s = embedded (v.embed prompt s)

    abbrev with_dims : List Float64 → Result SemanticError (List Float64)
    with_dims xs =
        if eq_ℤ (pos (length xs)) v.dims then ok xs else err (bad_dims (length xs) v.dims)

    -- A vector for a prompt, of the vectorizer's dimensions.
    unfoldable pub checked_vector :
        String → Option (List Float64) → S → Result SemanticError (List Float64) × S
    checked_vector prompt given s = after (λ xs s. (with_dims xs, s)) (vector_for prompt given s)

    module _ (conv : Conversions) (f : Floats) (unmarshal : String → Option (Dict Value)) where
      -- `Store`, with the fuel of `load`.
      abbrev Stored : Type ℓ
      Stored = Option (Result SemanticError String × S)

      abbrev pub stored : Option (Result IndexError (List String) × S) → Stored
      stored none = none
      stored (some (err e, s)) = some (err (semantic_index e), s)
      stored (some (ok [], s)) = some (err no_key, s)
      stored (some (ok (k ∷ ks), s)) = some (ok k, s)

      abbrev pub load_options : ℤ → LoadOptions
      load_options ttl = record {
        id_field = "entry_id";
        keys = none;
        ttl = if eq_ℤ ttl (pos 0) then c.ttl else ttl;
        batch_size = pos 0;
        preprocess = none;
        validate = false;
      }

      abbrev load_entry : ℕ → ℤ → Result SemanticError (Dict Value) → S → Stored
      load_entry fuel ttl (err e) s = some (err e, s)
      load_entry fuel ttl (ok fields) s = stored (
          load x.scalars c.schema x.marshal_map (λ _. "") server fuel (load_options ttl)
            (fields ∷ []) s)

      abbrev store_vector :
          ℕ → String → String → StoreOptions → Result SemanticError (List Float64) × S → Stored
      store_vector fuel prompt response o (err e, s) = some (err e, s)
      store_vector fuel prompt response o (ok xs, s) =
          load_entry fuel o.ttl
            (map_err bad_vector (to_buffer conv xs v.dtype) >>= entry_fields x prompt response o) s

      unfoldable pub store : ℕ → String → String → StoreOptions → S → Stored
      unfolding checked_vector entry_fields
      store fuel prompt response o s =
          store_vector fuel prompt response o (checked_vector prompt o.vector s)

      unfoldable pub check_query : CheckOptions → List Float64 → VectorRangeQuery
      check_query o xs =
          set_range_all
            (distance_threshold (
                if eq o.distance_threshold zero_f
                then c.distance_threshold
                else o.distance_threshold)
              ∷ num_results (if eq_ℤ o.num_results (pos 0) then pos 1 else o.num_results)
              ∷ dtype v.dtype
              ∷ return_fields c.return_fields
              ∷ filter o.filter
              ∷ [])
            (new_range_query "prompt_vector" xs)

      -- The loop over the documents: each hit's time to live is refreshed.
      unfoldable pub refresh_hits : List (Dict Value) → S → List CacheHit × S
      unfolding expire_key
      refresh_hits [] s = ([], s)
      refresh_hits (doc ∷ docs) s =
          let hit = parse_cache_hit x doc in
          let rest = refresh_hits docs (expire_key hit.key (pos 0) s) in (hit ∷ rest.0, rest.1)

      abbrev ok_hits : List CacheHit × S → Result SemanticError (List CacheHit) × S
      ok_hits (hits, s) = (ok hits, s)

      abbrev no_prompt : Option (List Float64) → String → Bool
      no_prompt none prompt = str_eq prompt ""
      no_prompt (some xs) prompt = false

      unfoldable pub check : String → CheckOptions → S → Result SemanticError (List CacheHit) × S
      unfolding checked_vector check_query refresh_hits
      check prompt o s =
          if no_prompt o.vector prompt
          then (err nothing_given, s)
          else after
              (λ xs s.
                after (λ docs s. ok_hits (refresh_hits docs s))
                  (answered semantic_index (
                    run_query server x.scalars c.schema f unmarshal
                      (run_range f conv (check_query o xs)) s)))
              (checked_vector prompt o.vector s)

    abbrev pub after_hset :
        String → Result RedisError Value × S → Result SemanticError (Unit {0}) × S
    after_hset k (err e, s) = (err (semantic_redis e), s)
    after_hset k (ok _, s) = (ok tt, expire_key k (pos 0) s)

    abbrev write_update :
        String → Result SemanticError (Dict Value) → S → Result SemanticError (Unit {0}) × S
    write_update k (err e) s = (err e, s)
    write_update k (ok fields) s =
        after_hset k
          (server.run (queued_hset k (insert "updated_at" (text (x.format_ts x.now)) fields)) s)

    unfoldable pub update : String → Dict Value → S → Result SemanticError (Unit {0}) × S
    unfolding update_values
    update k [] s = (ok tt, expire_key k (pos 0) s)
    update k (entry ∷ fields) s =
        write_update k (update_values x ("metadata" ∷ field_names c.schema) (entry ∷ fields)) s

    -- `Drop`, `DropKeys` and `Delete`
    unfoldable pub drop : List String → S → Result SemanticError (Unit {0}) × S
    drop ids s =
        after (λ _ s. (ok tt, s))
          (answered semantic_index (drop_documents server x.scalars c.schema ids s))

    unfoldable pub drop_entries : List String → S → Result SemanticError (Unit {0}) × S
    drop_entries ks s =
        after (λ _ s. (ok tt, s))
          (answered semantic_index (drop_keys server x.scalars c.schema ks s))

    unfoldable pub delete_cache : S → Result SemanticError (Unit {0}) × S
    delete_cache s = answered semantic_index (delete server x.scalars c.schema true s)
