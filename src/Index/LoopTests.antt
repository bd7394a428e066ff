-- ===== src/Index/LoopTests.antt =====
-- Runs of the loops of the search index against small servers.
use Prim.Native.Nat.{min}
use redis_vl_golang.Base.{
  ℕ, zero, suc, ◌-◌, String, str_eq, ◌≡◌, refl, sym, ap, ◌∙◌, arith, Bool, true, false, Option,
  none, some, List, [], ◌∷◌, ◌++◌, map, length, inl, take, drop, has, get_elem?, concat, run_all,
  Result, ok, err, if◌then◌else◌,
}
use redis_vl_golang.Base.Int.{pos}
use redis_vl_golang.Base.Dict.{Dict}
use redis_vl_golang.Command.{Arg, str, int}
use redis_vl_golang.Schema.Index.{IndexSchema, schema_args}
use redis_vl_golang.Query.Options.{Options, build_search_args}
use redis_vl_golang.Index.Value.{Value, text, array, of_list}
use redis_vl_golang.Index.Value
use redis_vl_golang.Index.Reply.{SearchResult}
use redis_vl_golang.Index.Reply.Protocols.{any_keys, list_reply, hit_documents}
use redis_vl_golang.Index.Server.{
  Server, Queued, queued_do, queued_hset, queued_expire, RedisError, not_marshalled, first_error,
}
use redis_vl_golang.Index.Search.{Runnable, search}
use redis_vl_golang.Index.Search.Errors.{search_hits}
use redis_vl_golang.Index.Paginate.{paginate, clear, clear_size, clear_options}
use redis_vl_golang.Index.Paginate.Pages.{PagesWithin, rows, paginate_all}
use redis_vl_golang.Index.Paginate.Empty.{key_hits, clear_all}
use redis_vl_golang.Index.Load.{LoadOptions, load, load_keys, batch_commands}
use redis_vl_golang.Index.Load.Batches.{load_all, load_refused}
use redis_vl_golang.Index.Admin.{CreateOptions, create, exists, create_args, delete_args}
use redis_vl_golang.Index.Admin.Creation.{left_by, create-exists}
use redis_vl_golang.Index.Batch.{batch_search}
use redis_vl_golang.Index.Batch.Order.{search_each, queued, answers_to, batch_search-search_each}
use redis_vl_golang.Index.Tests.{scalars, floats, docs, hits, every, scored}

-- The offset that a search asks for, and a server that answers with a page of two hits from there.
abbrev offset_in : Option Arg → ℕ
offset_in (some (int (pos n))) = n
offset_in _ = 0

abbrev paged : Server (List (List (Dict Value)))
paged = record {
  call = λ args s.
      (ok (list_reply scored (pos 3) (take 2 (drop (offset_in (get_elem? args 5)) hits))), s);
  exec = λ batch s. ([], s);
  run = λ q s. (ok Value.nil, s);
  hgetall = λ k s. (ok [], s);
  del = λ ks s. (ok 0, s);
  exists_keys = λ ks s. (ok 0, s);
}

abbrev remember : List (Dict Value) → List (List (Dict Value)) → List (List (Dict Value))
remember page seen = seen ++ (page ∷ [])

paginate_all_example :
    (ps : List (List (Dict Value))) × (concat ps
      ≡ rows paged scalars docs floats (λ s. none) remember every 2 hits)
    × PagesWithin 2 ps
    × (paginate paged scalars docs floats
          (λ s. none)
          (λ page seen. (ok tt, remember page seen))
          4
          every
          (pos 2)
          []
        ≡ some (ok tt, run_all remember ps []))
unfolding build_search_args redis_vl_golang.Query.Options.scorer_args
    redis_vl_golang.Query.Options.return_args redis_vl_golang.Query.Options.sort_args
paginate_all_example =
    paginate_all paged scalars docs floats (λ s. none) remember every 2 (pos 3) hits 4 []
      (omega arith) refl (λ offset s. refl) (omega arith)

-- A server with a number of keys of one name.
copies : ℕ → List String
copies zero = []
copies (suc n) = "doc:1" ∷ copies n

length-copies : (n : ℕ) → length (copies n) ≡ n
unfolding copies
length-copies zero = refl
length-copies (suc n) = omega (arith, length-copies n)

abbrev page_of : ℕ → List String
page_of s = copies (min clear_size s)

abbrev counted : Server ℕ
counted = record {
  call = λ args s. (ok (list_reply clear_options (pos s) (key_hits (page_of s))), s);
  exec = λ batch s. ([], s);
  run = λ q s. (ok Value.nil, s);
  hgetall = λ k s. (ok [], s);
  del = λ ks s. (ok (length ks), s - length ks);
  exists_keys = λ ks s. (ok 0, s);
}

clear_all_example :
    (s' : ℕ) × (s' ≡ 0) × (clear counted scalars docs 1201 1200 ≡ some ((1200, none), s'))
clear_all_example =
    clear_all counted scalars docs (λ s. s) page_of (λ s. s - length (page_of s)) (λ s. refl)
      (λ s. refl) (λ s. length-copies (min clear_size s)) (λ s. refl) 1201 1200 (omega arith)

-- A server that keeps a log of what it is sent.
answers_ok : List Queued → List (Result RedisError Value)
answers_ok [] = []
answers_ok (q ∷ batch) = ok Value.nil ∷ answers_ok batch

first_error-answers_ok : (batch : List Queued) → first_error (answers_ok batch) ≡ none
unfolding first_error answers_ok
first_error-answers_ok [] = refl
first_error-answers_ok (q ∷ batch) = first_error-answers_ok batch

abbrev log : Queued → List Queued → List Queued
log q s = s ++ (q ∷ [])

abbrev logged : Server (List Queued)
logged = record {
  call = λ args s. (ok Value.nil, s);
  exec = λ batch s. (answers_ok batch, run_all log batch s);
  run = λ q s. (ok Value.nil, log q s);
  hgetall = λ k s. (ok [], s);
  del = λ ks s. (ok 0, s);
  exists_keys = λ ks s. (ok 0, s);
}

abbrev small_batches : LoadOptions
small_batches = record {
  id_field = "id";
  keys = none;
  ttl = pos 60;
  batch_size = pos 1;
  preprocess = none;
  validate = false;
}

abbrev record_of : String → Dict Value
record_of id = ("id", text id) ∷ ("title", text "Go") ∷ []

abbrev both_keys : List String
both_keys = "doc:1" ∷ "doc:2" ∷ []

abbrev writes : List Queued
writes =
    queued_hset "doc:1" (record_of "1")
    ∷ queued_expire "doc:1" (pos 60)
    ∷ queued_hset "doc:2" (record_of "2")
    ∷ queued_expire "doc:2" (pos 60)
    ∷ []

load_all_example :
    load scalars docs
      (λ m. none)
      (λ n. "")
      logged
      2
      small_batches
      (record_of "1" ∷ record_of "2" ∷ [])
      []
    ≡ some (ok both_keys, run_all log writes [])
unfolding load_keys batch_commands redis_vl_golang.Index.Load.record_keys
    redis_vl_golang.Base.Dict.lookup redis_vl_golang.Index.Load.key Value.to_string
    redis_vl_golang.Index.Load.record_commands redis_vl_golang.Schema.Index.is_json
load_all_example =
    load_all scalars docs (λ m. none) (λ n. "") logged log small_batches
      (record_of "1" ∷ record_of "2" ∷ []) 0 [] both_keys writes
      (λ batch s. (answers_ok batch, first_error-answers_ok batch, refl)) refl refl

-- The second document cannot be marshalled.
abbrev in_json : IndexSchema
in_json = record docs { index = record docs.index { storage_type = "json" } }

abbrev only_first : Dict Value → Option String
only_first [] = none
only_first (e ∷ m) = some "{}"

load_refused_example :
    load scalars in_json only_first
      (λ n. "")
      logged
      2
      (record small_batches { keys = some both_keys })
      (record_of "1" ∷ [] ∷ [])
      []
    ≡ some (
      err (not_marshalled 1),
      run_all log
          (queued_do (str "JSON.SET" ∷ str "doc:1" ∷ str "$" ∷ str "{}" ∷ [])
            ∷ queued_expire "doc:1" (pos 60)
            ∷ [])
          [],
    )
unfolding load_keys batch_commands redis_vl_golang.Index.Load.batch_size_of
    redis_vl_golang.Index.Load.record_commands redis_vl_golang.Schema.Index.is_json
load_refused_example =
    load_refused scalars in_json only_first (λ n. "") logged log
      (record small_batches { keys = some both_keys }) (record_of "1" ∷ [] ∷ []) 1 0 [] both_keys
      (queued_do (str "JSON.SET" ∷ str "doc:1" ∷ str "$" ∷ str "{}" ∷ [])
        ∷ queued_expire "doc:1" (pos 60)
        ∷ [])
      (not_marshalled 1) (λ batch s. (answers_ok batch, first_error-answers_ok batch, refl)) refl
      refl refl

-- A server that holds at most one index.
abbrev is_list : List Arg → Bool
is_list (str command ∷ []) = true
is_list args = false

abbrev is_create : List Arg → Bool
is_create (str command ∷ rest) = str_eq command "FT.CREATE"
is_create args = false

abbrev after_command : Bool → List String → List String
after_command true names = "docs" ∷ names
after_command false names = []

abbrev one_index : Server (List String)
one_index = record {
  call = λ args s.
      if is_list args
      then (ok (array (of_list (map text s))), s)
      else (ok (text "OK"), after_command (is_create args) s);
  exec = λ batch s. ([], s);
  run = λ q s. (ok Value.nil, s);
  hgetall = λ k s. (ok [], s);
  del = λ ks s. (ok 0, s);
  exists_keys = λ ks s. (ok 0, s);
}

abbrev anew : CreateOptions
anew = record { overwrite = true; drop = true }

abbrev title_args : List Arg
title_args = str "title" ∷ str "TEXT" ∷ []

create-exists_example :
    (create one_index scalars docs anew ("docs" ∷ []) ≡ (
      ok tt,
      left_by one_index scalars docs
          (λ s. s)
          title_args
          (λ s. "docs" ∷ s)
          (λ d s. [])
          true
          true
          true
          ("docs" ∷ []),
    ))
    × (exists one_index scalars docs (
          left_by one_index scalars docs
            (λ s. s)
            title_args
            (λ s. "docs" ∷ s)
            (λ d s. [])
            true
            true
            true
            ("docs" ∷ []))
        ≡ (
          ok true,
          left_by one_index scalars docs
              (λ s. s)
              title_args
              (λ s. "docs" ∷ s)
              (λ d s. [])
              true
              true
              true
              ("docs" ∷ []),
        ))
unfolding left_by has schema_args redis_vl_golang.Base.Dict.lookup
    redis_vl_golang.Schema.Field.redis_args redis_vl_golang.Schema.Field.new_text_field
    redis_vl_golang.Schema.Field.name_args redis_vl_golang.Schema.Field.text_args
    redis_vl_golang.Base.Float.eq create_args delete_args
create-exists_example =
    create-exists one_index scalars docs (λ s. s) title_args (λ s. "docs" ∷ s) (λ d s. []) anew
      ("docs" ∷ []) refl (λ s. refl) (λ s h. (refl, refl)) (λ d s h. (refl, refl))

-- Each search of this server has the same answer.
answers_for : Value → List Queued → List (Result RedisError Value)
answers_for v [] = []
answers_for v (q ∷ batch) = ok v ∷ answers_for v batch

abbrev three : Value
three = list_reply scored (pos 3) hits

abbrev same_answer : Server (Unit {0})
same_answer = record {
  call = λ args s. (ok three, s);
  exec = λ batch s. (answers_for three batch, s);
  run = λ q s. (ok three, s);
  hgetall = λ k s. (ok [], s);
  del = λ ks s. (ok 0, s);
  exists_keys = λ ks s. (ok 0, s);
}

abbrev found : SearchResult
found = record { total = pos 3; docs = hit_documents scalars true false hits }

search-every : search same_answer scalars docs every tt ≡ (ok found, tt)
search-every =
    search_hits same_answer scalars docs every tt tt any_keys (pos 3) hits three refl (inl refl)
      refl

each_found :
    search_each same_answer scalars docs (every ∷ every ∷ []) tt ≡ (ok (found ∷ found ∷ []), tt)
unfolding search_each
each_found = rw search-every refl

piped :
    (batch : List Runnable)
    → answers_for three (queued same_answer scalars docs (λ args. three) batch)
      ≡ answers_to same_answer scalars docs (λ args. three) batch
unfolding answers_for queued answers_to
piped [] = refl
piped (r ∷ batch) = ap (λ t. ok three ∷ t) (piped batch)

batch_search-search_each_example :
    batch_search scalars docs same_answer 2 (some (pos 1)) (every ∷ every ∷ []) tt
    ≡ some (ok (found ∷ found ∷ []), tt)
batch_search-search_each_example =
    batch_search-search_each same_answer scalars docs (λ args. three) (some (pos 1)) 2
      (every ∷ every ∷ []) (found ∷ found ∷ []) tt (λ args s. refl)
      (λ batch s. ap (λ a. (a, s)) (piped batch)) each_found (omega arith)
