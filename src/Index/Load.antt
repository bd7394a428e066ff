-- ===== src/Index/Load.antt =====
-- index.go: the keys of an index and `Load`.
--
-- `json.Marshal` and `NewULID`, for the record of an index, are parameters. The loop over the
-- batches takes fuel, and `none` is that it did not suffice.
pub mod Parts
pub mod Batches
use redis_vl_golang.Base.{
  ℕ, zero, suc, ◌+◌, String, ◌<>◌, str_eq, Bool, true, false, Option, none, some, List, [], ◌∷◌,
  ◌++◌, length, ◌==◌, take, drop, ltb, Result, ok, err, ◌>>=◌, if◌then◌else◌,
}
use redis_vl_golang.Base.Int.{ℤ, pos, leb_ℤ, ltb_ℤ, pos_part}
use redis_vl_golang.Base.Dict.{Dict, lookup}
use redis_vl_golang.Command.{str}
use redis_vl_golang.Schema.Index.{IndexSchema, is_json}
use redis_vl_golang.Index.Value.{Value, text, Scalars, to_string}
use redis_vl_golang.Index.Server.{
  Server, Queued, queued_do, queued_hset, queued_expire, RedisError, IndexError, redis, keys_length,
  no_id, not_marshalled, first_error,
}
use redis_vl_golang.Index.Records.{validate_record}

-- A time to live is in nanoseconds.
pub record LoadOptions : Type 0 where
  pub id_field : String
  pub keys : Option (List String)
  pub ttl : ℤ
  pub batch_size : ℤ
  pub preprocess : Option (Dict Value → Dict Value)
  pub validate : Bool

-- A schema has a prefix (`apply_defaults`): the first of none would be a panic.
abbrev pub first : List String → String
first [] = ""
first (p ∷ ps) = p

unfoldable pub prefix : IndexSchema → String
prefix i = first i.index.prefixes

unfoldable pub key : IndexSchema → String → String
unfolding prefix
key i id = prefix i <> i.index.key_separator <> id

unfoldable pub batch_size_of : LoadOptions → ℕ
batch_size_of o = if leb_ℤ o.batch_size (pos 0) then 200 else pos_part o.batch_size

module _ (c : Scalars) (i : IndexSchema) (marshal : Dict Value → Option String)
    (ulid : ℕ → String) where
  abbrev id_key : LoadOptions → ℕ → Option Value → Result IndexError String
  id_key o idx none = err (no_id o.id_field idx)
  id_key o idx (some v) = ok (key i (to_string c v))

  abbrev pub record_key : LoadOptions → ℕ → Dict Value → Result IndexError String
  record_key o idx obj =
      if str_eq o.id_field "" then ok (key i (ulid idx)) else id_key o idx (lookup o.id_field obj)

  unfoldable pub record_keys : LoadOptions → ℕ → List (Dict Value) → Result IndexError (List String)
  record_keys o idx [] = ok []
  record_keys o idx (obj ∷ objs) = do
    k ← record_key o idx obj
    ks ← record_keys o (suc idx) objs
    ok (k ∷ ks)

  -- The keys of the options take the place of all others.
  abbrev pub given_keys :
      LoadOptions → Option (List String) → List (Dict Value) → Result IndexError (List String)
  given_keys o none objs = record_keys o 0 objs
  given_keys o (some ks) objs =
      if length ks == length objs then ok ks else err (keys_length (length ks) (length objs))

  unfoldable pub load_keys : LoadOptions → List (Dict Value) → Result IndexError (List String)
  load_keys o objs = given_keys o o.keys objs

  abbrev preprocessed : Option (Dict Value → Dict Value) → Dict Value → Dict Value
  preprocessed none obj = obj
  preprocessed (some f) obj = f obj

  abbrev validated : Bool → ℕ → Dict Value → Option IndexError
  validated false idx obj = none
  validated true idx obj = validate_record c i idx obj

  abbrev pub marshalled : ℕ → String → Option String → Result IndexError Queued
  marshalled idx k none = err (not_marshalled idx)
  marshalled idx k (some json) = ok (queued_do (str "JSON.SET" ∷ str k ∷ str "$" ∷ str json ∷ []))

  abbrev pub written : Bool → ℕ → String → Dict Value → Result IndexError Queued
  written true idx k obj = marshalled idx k (marshal obj)
  written false idx k obj = ok (queued_hset k obj)

  abbrev expiry : LoadOptions → String → List Queued
  expiry o k = if ltb_ℤ (pos 0) o.ttl then queued_expire k o.ttl ∷ [] else []

  abbrev queue_record :
      LoadOptions → ℕ → String → Dict Value → Option IndexError → Result IndexError (List Queued)
  queue_record o idx k obj (some e) = err e
  queue_record o idx k obj none = do w ← written (is_json i) idx k obj; ok (w ∷ expiry o k)

  -- What the loop over a batch does for a record.
  unfoldable pub record_commands :
      LoadOptions → ℕ → String → Dict Value → Result IndexError (List Queued)
  record_commands o idx k objs =
      let obj = preprocessed o.preprocess objs in
      queue_record o idx k obj (validated o.validate idx obj)

  unfoldable pub batch_commands :
      LoadOptions → ℕ → List String → List (Dict Value) → Result IndexError (List Queued)
  batch_commands o idx (k ∷ ks) (obj ∷ objs) = do
    cs ← record_commands o idx k obj
    rest ← batch_commands o (suc idx) ks objs
    ok (cs ++ rest)
  batch_commands o idx [] objs = ok []
  batch_commands o idx (k ∷ ks) [] = ok []

  module _ {ℓ} {S : Type ℓ} (server : Server S) where
    abbrev Loaded : Type ℓ
    Loaded = Option (Result IndexError (Unit {0}) × S)

    abbrev pub exec_error : Option RedisError → S → (S → Loaded) → Loaded
    exec_error (some e) s rest = some (err (redis e), s)
    exec_error none s rest = rest s

    abbrev pub after_exec : List (Result RedisError Value) × S → (S → Loaded) → Loaded
    after_exec (answers, s) rest = exec_error (first_error answers) s rest

    -- A batch with an error in a record is not sent.
    abbrev pub after_commands : Result IndexError (List Queued) → S → (S → Loaded) → Loaded
    after_commands (err e) s rest = some (err e, s)
    after_commands (ok cmds) s rest = after_exec (server.exec cmds s) rest

    unfoldable pub load_batches :
        ℕ → LoadOptions → ℕ → ℕ → List String → List (Dict Value) → S → Loaded
    load_batches fuel o n idx ks [] s = some (ok tt, s)
    load_batches zero o n idx ks (obj ∷ objs) s = none
    load_batches (suc fuel) o n idx ks (obj ∷ objs) s =
        after_commands (batch_commands o idx (take n ks) (take n (obj ∷ objs))) s
          (load_batches fuel o n (idx + n) (drop n ks) (drop n (obj ∷ objs)))

    abbrev pub with_keys : List String → Loaded → Option (Result IndexError (List String) × S)
    with_keys ks none = none
    with_keys ks (some (err e, s)) = some (err e, s)
    with_keys ks (some (ok _, s)) = some (ok ks, s)

    abbrev pub after_keys :
        ℕ
        → LoadOptions
        → List (Dict Value)
        → Result IndexError (List String)
        → S
        → Option (Result IndexError (List String) × S)
    after_keys fuel o objs (err e) s = some (err e, s)
    after_keys fuel o objs (ok ks) s =
        with_keys ks (load_batches fuel o (batch_size_of o) 0 ks objs s)

    unfoldable pub load :
        ℕ → LoadOptions → List (Dict Value) → S → Option (Result IndexError (List String) × S)
    unfolding load_batches
    load fuel o objs s = after_keys fuel o objs (load_keys o objs) s
