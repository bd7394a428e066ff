-- ===== src/Cache/Embeddings/Store.antt =====
-- embeddings.go: the operations of the cache of embeddings.
--
-- The state that `Expire` leaves is kept and its answer is not looked at. `Scan` is a parameter, a
-- step and the cursor of the next, or 0 after the last; the loop of `Clear` takes fuel.
use redis_vl_golang.Base.{
  ℕ, zero, suc, String, ◌<>◌, Bool, true, false, Option, none, some, List, [], ◌∷◌, map, ltb, ◌==◌,
  Result, ok, err, ◌>>=◌, if◌then◌else◌,
}
use redis_vl_golang.Base.Int.{ℤ, pos, eq_ℤ, ltb_ℤ}
use redis_vl_golang.Base.Float.{Float64}
use redis_vl_golang.Base.Dict.{Dict}
use redis_vl_golang.Index.Value.{Value, named, fields_dict, Scalars, to_string}
use redis_vl_golang.Index.Server.{
  Server, Queued, queued_hset, queued_expire, queued_hgetall, RedisError, first_error, after,
  answered,
}
use redis_vl_golang.Cache.Embeddings.{
  EmbeddingEntry, EmbeddingsCache, CacheError, cache_redis, Codec, key, set_fields, fields_for,
  parse_embedding_entry,
}

module _ {ℓ} {S : Type ℓ} (hash : String → String) (j : Codec) (c : EmbeddingsCache)
    (server : Server S) where
  unfoldable pub ttl_or_own : ℤ → ℤ
  ttl_or_own ttl = if eq_ℤ ttl (pos 0) then c.ttl else ttl

  unfoldable pub expire : String → ℤ → S → S
  unfolding ttl_or_own
  expire k ttl s =
      let own = ttl_or_own ttl in
      if ltb_ℤ (pos 0) own then (server.run (queued_expire k own) s).1 else s

  abbrev pub after_hset : String → ℤ → Result RedisError Value × S → Result CacheError String × S
  after_hset k ttl (err e, s) = (err (cache_redis e), s)
  after_hset k ttl (ok v, s) = (ok k, expire k ttl s)

  abbrev pub write_fields :
      String → ℤ → Result CacheError (Dict Value) → S → Result CacheError String × S
  write_fields k ttl (err e) s = (err e, s)
  write_fields k ttl (ok fields) s = after_hset k ttl (server.run (queued_hset k fields) s)

  -- `SetWithTTL`; `Set` is the call with the time to live 0.
  unfoldable pub set_with_ttl :
      String
      → String
      → List Float64
      → Option (Dict Value)
      → ℤ
      → Float64
      → S
      → Result CacheError String × S
  unfolding set_fields expire
  set_with_ttl content model_name embedding meta ttl at s =
      write_fields (key hash j c content model_name) ttl
        (set_fields hash j c content model_name embedding meta at) s

  -- The pipeline of `MSet`, for the items in an order of the map, at the times of their writing.
  abbrev item_commands : String → Dict Value → List Queued → List Queued
  item_commands k fields rest =
      queued_hset k fields ∷ (if ltb_ℤ (pos 0) c.ttl then queued_expire k c.ttl ∷ rest else rest)

  unfoldable pub m_set_commands :
      (ℕ → Float64)
      → ℕ
      → String
      → Dict (List Float64)
      → Result CacheError (List String × List Queued)
  m_set_commands at n model_name [] = ok ([], [])
  m_set_commands at n model_name ((content, emb) ∷ items) = do
    fields ← fields_for hash j c content model_name none (at n) (j.marshal_vector emb)
    rest ← m_set_commands at (suc n) model_name items
    ok (
      key hash j c content model_name ∷ rest.0,
      item_commands (key hash j c content model_name) fields rest.1,
    )

  abbrev keys_or : Option RedisError → List String → Result CacheError (List String)
  keys_or none ks = ok ks
  keys_or (some e) ks = err (cache_redis e)

  abbrev exec_keys :
      List String → List (Result RedisError Value) × S → Result CacheError (List String) × S
  exec_keys ks (answers, s) = (keys_or (first_error answers) ks, s)

  abbrev send_all :
      Result CacheError (List String × List Queued) → S → Result CacheError (List String) × S
  send_all (err e) s = (err e, s)
  send_all (ok (ks, cmds)) s = exec_keys ks (server.exec cmds s)

  unfoldable pub m_set :
      (ℕ → Float64) → String → Dict (List Float64) → S → Result CacheError (List String) × S
  unfolding m_set_commands
  m_set at model_name items = send_all (m_set_commands at 0 model_name items)

  abbrev pub found : Result CacheError EmbeddingEntry → Result CacheError (Option EmbeddingEntry)
  found (err e) = err e
  found (ok entry) = ok (some entry)

  abbrev pub got :
      String → Result RedisError (Dict String) × S → Result CacheError (Option EmbeddingEntry) × S
  got k (err e, s) = (err (cache_redis e), s)
  got k (ok [], s) = (ok none, s)
  got k (ok (f ∷ m), s) = (found (parse_embedding_entry hash j c (f ∷ m)), expire k (pos 0) s)

  unfoldable pub get_by_key : String → S → Result CacheError (Option EmbeddingEntry) × S
  unfolding expire parse_embedding_entry
  get_by_key k s = got k (server.hgetall k s)

  unfoldable pub get : String → String → S → Result CacheError (Option EmbeddingEntry) × S
  unfolding get_by_key key
  get content model_name = get_by_key (key hash j c content model_name)

  -- `MGetByKeys`: the answers in order; the first entry that cannot be read ends the loop.
  abbrev text_map : Scalars → Value → Dict String
  text_map sc (named fs) = map (λ (k, v). (k, to_string sc v)) (fields_dict fs)
  text_map sc v = []

  abbrev prepend_entry :
      Option EmbeddingEntry
      → Result CacheError (List (Option EmbeddingEntry)) × S
      → Result CacheError (List (Option EmbeddingEntry)) × S
  prepend_entry e (err problem, s) = (err problem, s)
  prepend_entry e (ok rest, s) = (ok (e ∷ rest), s)

  abbrev entry_then :
      Result CacheError EmbeddingEntry
      → S
      → (S → Result CacheError (List (Option EmbeddingEntry)) × S)
      → Result CacheError (List (Option EmbeddingEntry)) × S
  entry_then (err e) s rest = (err e, s)
  entry_then (ok entry) s rest = prepend_entry (some entry) (rest s)

  abbrev answer_entry :
      String
      → Dict String
      → S
      → (S → Result CacheError (List (Option EmbeddingEntry)) × S)
      → Result CacheError (List (Option EmbeddingEntry)) × S
  answer_entry k [] s rest = prepend_entry none (rest s)
  answer_entry k (f ∷ m) s rest =
      entry_then (parse_embedding_entry hash j c (f ∷ m)) (expire k (pos 0) s) rest

  abbrev answer_map : Scalars → Result RedisError Value → Dict String
  answer_map sc (err e) = []
  answer_map sc (ok v) = text_map sc v

  unfoldable pub entries_of :
      Scalars
      → List String
      → List (Result RedisError Value)
      → S
      → Result CacheError (List (Option EmbeddingEntry)) × S
  entries_of sc (k ∷ ks) (a ∷ answers) s =
      answer_entry k (answer_map sc a) s (entries_of sc ks answers)
  entries_of sc [] answers s = (ok [], s)
  entries_of sc (k ∷ ks) [] s = (ok [], s)

  abbrev read_all :
      Scalars
      → List String
      → Option RedisError
      → List (Result RedisError Value)
      → S
      → Result CacheError (List (Option EmbeddingEntry)) × S
  read_all sc ks (some e) answers s = (err (cache_redis e), s)
  read_all sc ks none answers s = entries_of sc ks answers s

  abbrev exec_read :
      Scalars
      → List String
      → List (Result RedisError Value) × S
      → Result CacheError (List (Option EmbeddingEntry)) × S
  exec_read sc ks (answers, s) = read_all sc ks (first_error answers) answers s

  unfoldable pub m_get_by_keys :
      Scalars → List String → S → Result CacheError (List (Option EmbeddingEntry)) × S
  unfolding entries_of
  m_get_by_keys sc [] s = (ok [], s)
  m_get_by_keys sc (k ∷ ks) s = exec_read sc (k ∷ ks) (server.exec (map queued_hgetall (k ∷ ks)) s)

  unfoldable pub m_get :
      Scalars → String → List String → S → Result CacheError (List (Option EmbeddingEntry)) × S
  unfolding m_get_by_keys
  m_get sc model_name contents =
      m_get_by_keys sc (map (λ content. key hash j c content model_name) contents)

  unfoldable pub exists : String → String → S → Result CacheError Bool × S
  exists content model_name s =
      after (λ n s. (ok (ltb 0 n), s))
        (answered cache_redis (server.exists_keys (key hash j c content model_name ∷ []) s))

  unfoldable pub drop_by_keys : List String → S → Result CacheError (Unit {0}) × S
  drop_by_keys [] s = (ok tt, s)
  drop_by_keys (k ∷ ks) s = after (λ _ s. (ok tt, s)) (answered cache_redis (server.del (k ∷ ks) s))

  unfoldable pub drop : String → String → S → Result CacheError (Unit {0}) × S
  drop content model_name s =
      after (λ _ s. (ok tt, s))
        (answered cache_redis (server.del (key hash j c content model_name ∷ []) s))

  module _ (scan : ℕ → String → S → Result RedisError (List String × ℕ) × S) where
    abbrev pub Cleared : Type ℓ
    Cleared = Option (Result CacheError (Unit {0}) × S)

    -- At the cursor 0 after a step the scan has ended.
    abbrev pub go_on : Bool → S → (S → Cleared) → Cleared
    go_on true s rest = some (ok tt, s)
    go_on false s rest = rest s

    abbrev pub after_del : Bool → Result RedisError ℕ × S → (S → Cleared) → Cleared
    after_del last (err e, s) rest = some (err (cache_redis e), s)
    after_del last (ok n, s) rest = go_on last s rest

    abbrev pub del_keys : Bool → List String → S → (S → Cleared) → Cleared
    del_keys last [] s rest = go_on last s rest
    del_keys last (k ∷ ks) s rest = after_del last (server.del (k ∷ ks) s) rest

    abbrev pub after_scan : Result RedisError (List String × ℕ) × S → (ℕ → S → Cleared) → Cleared
    after_scan (err e, s) rest = some (err (cache_redis e), s)
    after_scan (ok (ks, next), s) rest = del_keys (next == 0) ks s (rest next)

    unfoldable pub scan_clear : ℕ → ℕ → S → Cleared
    scan_clear zero cursor s = none
    scan_clear (suc fuel) cursor s = after_scan (scan cursor (c.name <> ":*") s) (scan_clear fuel)

    unfoldable pub clear : ℕ → S → Cleared
    unfolding scan_clear
    clear fuel = scan_clear fuel 0
