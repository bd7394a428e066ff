-- ===== src/Index/Batch.antt =====
-- batch.go: many queries, or many documents, in pipelines.
--
-- The loop over the batches takes fuel, and `none` is that it did not suffice. A position that
-- `processResults` would read out of range of the queries is not reached: the results are as many.
pub mod Order
use redis_vl_golang.Base.{
  ℕ, zero, suc, ◌+◌, String, Bool, true, false, Option, none, some, List, [], ◌∷◌, ◌++◌, map,
  length, ◌==◌, not, take, drop, Result, ok, err, map_err, ◌>>=◌, if◌then◌else◌,
}
use redis_vl_golang.Base.Int.{ℤ, pos, leb_ℤ, pos_part}
use redis_vl_golang.Base.Dict.{Dict}
use redis_vl_golang.Command.{Arg, str}
use redis_vl_golang.Schema.Index.{IndexSchema, is_json}
use redis_vl_golang.Query.Vector.{QueryError}
use redis_vl_golang.Query.Options.{Floats, build_search_args}
use redis_vl_golang.Index.Value.{Value, named, Scalars, to_string, fields_dict}
use redis_vl_golang.Index.Reply.{SearchResult, parse_search_reply}
use redis_vl_golang.Index.Server.{
  Server, Queued, queued_do, queued_hgetall, RedisError, redis_nil, redis_error, IndexError,
  index_not_found, in_batch, redis, reply, query, is_unknown_index_error, first_error, Action,
}
use redis_vl_golang.Index.Search.{Runnable, name_of, process_results}
use redis_vl_golang.Index.Load.{key}

-- `bs`, for a batch size that is given or not.
unfoldable pub batch_size : Option ℤ → ℕ
batch_size none = 10
batch_size (some n) = if leb_ℤ n (pos 0) then 10 else pos_part n

-- A failed command of a batch.
abbrev batch_error : String → ℕ → RedisError → IndexError
batch_error name n e =
    if is_unknown_index_error e then index_not_found name else in_batch n (redis e)

abbrev pub prepend {ℓ} : {A : Type ℓ} → A → Result IndexError (List A) → Result IndexError (List A)
prepend a (err e) = err e
prepend a (ok rest) = ok (a ∷ rest)

module _ (c : Scalars) (i : IndexSchema) where
  abbrev pub queue_query :
      Runnable
      → Option QueryError
      → Result IndexError (List Queued)
      → Result IndexError (List Queued)
  queue_query r (some e) rest = err (query e)
  queue_query r none rest = prepend (queued_do (build_search_args (name_of i) r.query)) rest

  unfoldable pub queue_queries : List Runnable → Result IndexError (List Queued)
  queue_queries [] = ok []
  queue_queries (r ∷ rs) = queue_query r r.error (queue_queries rs)

  abbrev parse_answer : ℕ → Runnable → Result RedisError Value → Result IndexError SearchResult
  parse_answer n r (err e) = err (batch_error (name_of i) n e)
  parse_answer n r (ok v) =
      map_err (λ e. in_batch n (reply e)) (parse_search_reply c v r.query.options)

  abbrev pub then_prepend :
      Result IndexError SearchResult
      → Result IndexError (List SearchResult)
      → Result IndexError (List SearchResult)
  then_prepend (err e) rest = err e
  then_prepend (ok res) rest = prepend res rest

  -- The answers of a batch, each to its query. The pipeline has as many answers as commands.
  unfoldable pub parse_answers :
      ℕ → List Runnable → List (Result RedisError Value) → Result IndexError (List SearchResult)
  parse_answers n (r ∷ rs) (a ∷ answers) =
      then_prepend (parse_answer n r a) (parse_answers (suc n) rs answers)
  parse_answers n [] answers = ok []
  parse_answers n (r ∷ rs) [] = ok []

  module _ {ℓ} {S : Type ℓ} (server : Server S) where
    abbrev pub Batched : Type ℓ
    Batched = Option (Result IndexError (List SearchResult) × S)

    -- An error of `Exec` itself, where the batch has fewer results than queries.
    abbrev pub check_exec :
        Bool
        → Option RedisError
        → List SearchResult
        → S
        → (List SearchResult → S → Batched)
        → Batched
    check_exec true (some e) results s rest = some (err (redis e), s)
    check_exec true none results s rest = rest results s
    check_exec false e results s rest = rest results s

    abbrev pub after_answers :
        ℕ
        → List SearchResult
        → Option RedisError
        → Result IndexError (List SearchResult)
        → S
        → (List SearchResult → S → Batched)
        → Batched
    after_answers end results e (err problem) s rest = some (err problem, s)
    after_answers end results e (ok more) s rest =
        check_exec (not (length (results ++ more) == end)) e (results ++ more) s rest

    abbrev pub after_exec :
        ℕ
        → List Runnable
        → List SearchResult
        → List (Result RedisError Value) × S
        → (List SearchResult → S → Batched)
        → Batched
    after_exec n batch results (answers, s) rest =
        after_answers (n + length batch) results (first_error answers)
          (parse_answers n batch answers) s rest

    abbrev pub send_batch :
        ℕ
        → List Runnable
        → List SearchResult
        → Result IndexError (List Queued)
        → S
        → (List SearchResult → S → Batched)
        → Batched
    send_batch n batch results (err e) s rest = some (err e, s)
    send_batch n batch results (ok cmds) s rest =
        after_exec n batch results (server.exec cmds s) rest

    unfoldable pub search_batches : ℕ → ℕ → ℕ → List Runnable → List SearchResult → S → Batched
    search_batches fuel bs start [] results s = some (ok results, s)
    search_batches zero bs start (r ∷ rs) results s = none
    search_batches (suc fuel) bs start (r ∷ rs) results s =
        send_batch start (take bs (r ∷ rs)) results (queue_queries (take bs (r ∷ rs))) s
          (search_batches fuel bs (start + bs) (drop bs (r ∷ rs)))

    unfoldable pub batch_search : ℕ → Option ℤ → List Runnable → S → Batched
    unfolding search_batches
    batch_search fuel size queries = search_batches fuel (batch_size size) 0 queries []

    module _ (f : Floats) (unmarshal : String → Option (Dict Value)) where
      unfoldable pub process_all : List Runnable → List SearchResult → List (List (Dict Value))
      process_all (r ∷ rs) (res ∷ results) =
          process_results server c i f unmarshal r res ∷ process_all rs results
      process_all [] results = []
      process_all (r ∷ rs) [] = []

      abbrev processed :
          List Runnable → Batched → Option (Result IndexError (List (List (Dict Value))) × S)
      processed queries none = none
      processed queries (some (err e, s)) = some (err e, s)
      processed queries (some (ok results, s)) = some (ok (process_all queries results), s)

      unfoldable pub batch_query :
          ℕ
          → Option ℤ
          → List Runnable
          → S
          → Option (Result IndexError (List (List (Dict Value))) × S)
      unfolding process_all
      batch_query fuel size queries s = processed queries (batch_search fuel size queries s)

    -- `FetchMany`: a document for each id, or none. An error of `Exec` is that of a command.
    module _ (unmarshal_all : String → Option (List (Dict Value))) where
      abbrev first_of : Option (List (Dict Value)) → Option (Dict Value)
      first_of none = none
      first_of (some []) = none
      first_of (some (d ∷ ds)) = some d

      abbrev pub map_of : Dict Value → Option (Dict Value)
      map_of [] = none
      map_of (e ∷ m) = some (e ∷ m)

      abbrev hash_of : Value → Option (Dict Value)
      hash_of (named fs) = map_of (fields_dict fs)
      hash_of v = none

      abbrev pub fetched : Bool → Result RedisError Value → Result IndexError (Option (Dict Value))
      fetched json (err redis_nil) = ok none
      fetched json (err (redis_error e)) = err (redis (redis_error e))
      fetched true (ok v) = ok (first_of (unmarshal_all (to_string c v)))
      fetched false (ok v) = ok (hash_of v)

      unfoldable pub all_fetched :
          Bool → List (Result RedisError Value) → Result IndexError (List (Option (Dict Value)))
      all_fetched json [] = ok []
      all_fetched json (a ∷ answers) = do
        d ← fetched json a
        ds ← all_fetched json answers
        ok (d ∷ ds)

      abbrev fetch_command : Bool → String → Queued
      fetch_command true k = queued_do (str "JSON.GET" ∷ str k ∷ str "$" ∷ [])
      fetch_command false k = queued_hgetall k

      abbrev answered_all :
          List (Result RedisError Value) × S → Result IndexError (List (Option (Dict Value))) × S
      answered_all (answers, s) = (all_fetched (is_json i) answers, s)

      unfoldable pub fetch_many : List String → Action S (List (Option (Dict Value)))
      unfolding all_fetched
      fetch_many [] s = (ok [], s)
      fetch_many (id ∷ ids) s =
          answered_all (server.exec (map (λ d. fetch_command (is_json i) (key i d)) (id ∷ ids)) s)
