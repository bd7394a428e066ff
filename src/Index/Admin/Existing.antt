-- ===== src/Index/Admin/Existing.antt =====
-- index.go: `FromExisting`, the schema of an index that is in Redis.
--
-- The text of a key type is folded as `to_upper` folds it, which is all that `strings.EqualFold`
-- does with "JSON".
use redis_vl_golang.Base.{
  String, str_eq, Option, none, some, List, [], ◌∷◌, map, map_err, to_upper, if◌then◌else◌,
}
use redis_vl_golang.Base.Dict.{Dict, lookup}
use redis_vl_golang.Command.{str}
use redis_vl_golang.Schema.Index.{IndexInfo, IndexSchema, new_index_schema}
use redis_vl_golang.Index.Value.{Value, array, to_list, Scalars, to_string, as_map}
use redis_vl_golang.Index.Reply.{info_pairs, parse_info_reply}
use redis_vl_golang.Index.Server.{
  Server, redis, reply, schema, Action, lift, after, ◌>>>◌, answered,
}

module _ (c : Scalars) where
  abbrev definition_map : Value → Option (Dict Value) → Dict Value
  definition_map idef (some m) = m
  definition_map (array vs) none = info_pairs c (to_list vs) []
  definition_map v none = []

  abbrev storage_of : Option Value → String
  storage_of none = "hash"
  storage_of (some kt) = if str_eq (to_upper (to_string c kt)) "JSON" then "json" else "hash"

  abbrev listed_prefixes : List Value → List String
  listed_prefixes [] = "rvl" ∷ []
  listed_prefixes (v ∷ vs) = map (to_string c) (v ∷ vs)

  abbrev prefixes_of : Option Value → List String
  prefixes_of (some (array vs)) = listed_prefixes (to_list vs)
  prefixes_of v = "rvl" ∷ []

  abbrev defined : String → Dict Value → IndexInfo
  defined name m = record {
    name = name;
    prefixes = prefixes_of (lookup "prefixes" m);
    key_separator = "";
    storage_type = storage_of (lookup "key_type" m);
    stopwords = none;
  }

  abbrev info_of : String → Option Value → IndexInfo
  info_of name none = defined name []
  info_of name (some idef) = defined name (definition_map idef (as_map c idef))

  unfoldable pub from_existing {ℓ} : {S : Type ℓ} → Server S → String → Action S IndexSchema
  from_existing server name =
      (λ s.
        after (λ v. lift (map_err reply (parse_info_reply c v)))
          (answered redis (server.call (str "FT.INFO" ∷ str name ∷ []) s)))
      >>> λ info.
          lift
            (map_err schema (new_index_schema (info_of name (lookup "index_definition" info)) []))
