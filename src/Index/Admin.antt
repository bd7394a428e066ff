-- ===== src/Index/Admin.antt =====
-- index.go: an index in Redis, its documents by key, and what is read back of them.
--
-- `json.Unmarshal` into a list of maps is a parameter.
pub mod Creation
pub mod Existing
use redis_vl_golang.Base.{
  ℕ, String, ◌<>◌, str_eq, Bool, true, false, Option, none, some, List, [], ◌∷◌, ◌++◌, map, length,
  has, Result, ok, err, map_err, to_upper, if◌then◌else◌,
}
use redis_vl_golang.Base.Int.{ℤ, pos}
use redis_vl_golang.Base.Dict.{Dict, lookup, insert}
use redis_vl_golang.Command.{Arg, str, int, strs}
use redis_vl_golang.Schema.Attrs.{SchemaError}
use redis_vl_golang.Schema.Index.{IndexInfo, IndexSchema, is_json, schema_args, new_index_schema}
use redis_vl_golang.Index.Value.{Value, text, array, named, to_list, Scalars, to_string, as_map}
use redis_vl_golang.Index.Reply.{parse_info_reply, unexpected_reply}
use redis_vl_golang.Index.Server.{
  Server, Queued, queued_expire, RedisError, redis_nil, redis_error, IndexError, index_not_found,
  redis, reply, schema, no_document, nil_field, Action, return, fail, lift, after, ◌>>>◌, answered,
  first_error,
}
use redis_vl_golang.Index.Search.{name_of, named_error}
use redis_vl_golang.Index.Load.{key}

pub record CreateOptions : Type 0 where
  pub overwrite : Bool
  pub drop : Bool

abbrev stopword_args : Option (List String) → List Arg
stopword_args none = []
stopword_args (some words) = str "STOPWORDS" ∷ int (pos (length words)) ∷ strs words

unfoldable pub create_args : IndexSchema → List Arg → List Arg
create_args i schema_args =
    str "FT.CREATE"
      ∷ str (name_of i)
      ∷ str "ON"
      ∷ str (if is_json i then "JSON" else "HASH")
      ∷ str "PREFIX"
      ∷ int (pos (length i.index.prefixes))
      ∷ strs i.index.prefixes
    ++ stopword_args i.index.stopwords
    ++ str "SCHEMA" ∷ schema_args

unfoldable pub delete_args : IndexSchema → Bool → List Arg
delete_args i drop = str "FT.DROPINDEX" ∷ str (name_of i) ∷ (if drop then str "DD" ∷ [] else [])

module _ {ℓ} {S : Type ℓ} (server : Server S) (c : Scalars) (i : IndexSchema) where
  abbrev pub names_of : Value → Result IndexError (List String)
  names_of (array vs) = ok (map (to_string c) (to_list vs))
  names_of v = err (reply (unexpected_reply v))

  unfoldable pub list_all : Action S (List String)
  list_all s = after (λ v. lift (names_of v)) (answered redis (server.call (str "FT._LIST" ∷ []) s))

  unfoldable pub exists : Action S Bool
  unfolding list_all
  exists = list_all >>> λ names. return (has names (name_of i))

  unfoldable pub delete : Bool → Action S (Unit {0})
  delete drop s =
      after (λ _. return tt)
        (answered (named_error (name_of i)) (server.call (delete_args i drop) s))

  unfoldable pub info : Action S (Dict Value)
  info s =
      after (λ v. lift (map_err reply (parse_info_reply c v)))
        (answered (named_error (name_of i)) (server.call (str "FT.INFO" ∷ str (name_of i) ∷ []) s))

  abbrev pub send_create : List Arg → Action S (Unit {0})
  send_create args s = after (λ _. return tt) (answered redis (server.call (create_args i args) s))

  -- What `Create` does once it knows whether the index exists.
  abbrev pub create_over : CreateOptions → List Arg → Bool → Action S (Unit {0})
  create_over o args false = send_create args
  create_over o args true =
      if o.overwrite then (delete o.drop >>> λ _. send_create args) else return tt

  -- A nil field of the schema is a panic.
  abbrev pub create_with :
      CreateOptions → Option (Result SchemaError (List Arg)) → Action S (Unit {0})
  create_with o none = fail nil_field
  create_with o (some (err e)) = fail (schema e)
  create_with o (some (ok args)) = exists >>> create_over o args

  unfoldable pub create : CreateOptions → Action S (Unit {0})
  unfolding exists delete
  create o = create_with o (schema_args i)

  -- `DropKeys`, `DropDocuments` and `ExpireKeys`
  unfoldable pub drop_keys : List String → Action S ℕ
  drop_keys [] s = (ok 0, s)
  drop_keys (k ∷ ks) s = answered redis (server.del (k ∷ ks) s)

  unfoldable pub drop_documents : List String → Action S ℕ
  unfolding drop_keys
  drop_documents ids = drop_keys (map (key i) ids)

  abbrev pub of_error : Option RedisError → Result IndexError (Unit {0})
  of_error none = ok tt
  of_error (some e) = err (redis e)

  abbrev pub exec_result : List (Result RedisError Value) × S → Result IndexError (Unit {0}) × S
  exec_result (answers, s) = (of_error (first_error answers), s)

  unfoldable pub expire_keys : ℤ → List String → Action S (Unit {0})
  expire_keys ttl ks s = exec_result (server.exec (map (λ k. queued_expire k ttl) ks) s)

  module _ (unmarshal_all : String → Option (List (Dict Value))) where
    -- No document, or the document.
    abbrev first_document :
        String → Option (List (Dict Value)) → Result IndexError (Option (Dict Value))
    first_document k none = err (no_document k)
    first_document k (some []) = err (no_document k)
    first_document k (some (d ∷ ds)) = ok (some d)

    abbrev json_document :
        String → Result RedisError Value × S → Result IndexError (Option (Dict Value)) × S
    json_document k (err redis_nil, s) = (ok none, s)
    json_document k (err (redis_error e), s) = (err (redis (redis_error e)), s)
    json_document k (ok v, s) = (first_document k (unmarshal_all (to_string c v)), s)

    abbrev pub texts_of : Dict String → Dict Value
    texts_of m = map (λ (k, v). (k, text v)) m

    abbrev hash_document : Dict String → Option (Dict Value)
    hash_document [] = none
    hash_document (e ∷ m) = some (texts_of (e ∷ m))

    abbrev fetch_from : Bool → String → Action S (Option (Dict Value))
    fetch_from true k s = json_document k (server.call (str "JSON.GET" ∷ str k ∷ str "$" ∷ []) s)
    fetch_from false k s =
        after (λ m. return (hash_document m)) (answered redis (server.hgetall k s))

    unfoldable pub fetch : String → Action S (Option (Dict Value))
    fetch id = fetch_from (is_json i) (key i id)
