-- ===== src/History/Reading.antt =====
-- history.go: the operations of a history on its index.
use redis_vl_golang.Base.{
  ℕ, String, str_eq, true, false, Option, none, some, List, [], ◌∷◌, ◌++◌, Result, ok, err,
  if◌then◌else◌,
}
use redis_vl_golang.Base.Int.{ℤ, pos, eq_ℤ, ltb_ℤ}
use redis_vl_golang.Base.Float.{Float64, zero_f}
use redis_vl_golang.Base.Dict.{Dict}
use redis_vl_golang.Query.Options.{Floats}
use redis_vl_golang.Query.Simple.{
  SimpleQuery, new_filter_query, new_count_query, set_simple_all, return_fields, num_results,
  sort_by_field,
}
use redis_vl_golang.Index.Value.{Value, Scalars}
use redis_vl_golang.Index.Server.{Server, IndexError, after, answered}
use redis_vl_golang.Index.Search.{run_query, run_simple, count}
use redis_vl_golang.Index.Load.{LoadOptions, load}
use redis_vl_golang.Index.Admin.{drop_documents, delete}
use redis_vl_golang.Index.Paginate.{clear, Cleared}
use redis_vl_golang.History.{
  Message, HistoryError, index, negative_top_k, MessageHistory, or_own, session_filter,
  validate_roles, roles_filter,
}
use redis_vl_golang.History.Fields.{all_fields, docs_to_messages}

abbrev history_return_fields : List String
history_return_fields =
    "entry_id" ∷ "session_tag" ∷ "role" ∷ "content" ∷ "tool_call_id" ∷ "timestamp" ∷ "metadata" ∷ []

pub record GetRecentOptions : Type 0 where
  pub top_k : ℤ
  pub session_tag : String
  pub roles : List String

abbrev top_k_of : GetRecentOptions → ℤ
top_k_of o = if eq_ℤ o.top_k (pos 0) then pos 5 else o.top_k

-- The result of `reverse`, which swaps in place.
unfoldable pub reverse {ℓ} : {A : Type ℓ} → List A → List A
reverse [] = []
reverse (x ∷ xs) = reverse xs ++ (x ∷ [])

unfoldable pub recent_query : MessageHistory → GetRecentOptions → SimpleQuery
recent_query h o =
    set_simple_all
      (return_fields history_return_fields
        ∷ num_results (top_k_of o)
        ∷ sort_by_field "timestamp" false
        ∷ [])
      (new_filter_query (roles_filter (session_filter h o.session_tag) o.roles))

unfoldable pub messages_query : MessageHistory → SimpleQuery
messages_query h =
    set_simple_all
      (return_fields history_return_fields
        ∷ num_results (pos 1000)
        ∷ sort_by_field "timestamp" true
        ∷ [])
      (new_filter_query (session_filter h ""))

abbrev pub load_options : LoadOptions
load_options = record {
  id_field = "entry_id";
  keys = none;
  ttl = pos 0;
  batch_size = pos 0;
  preprocess = none;
  validate = false;
}

module _ {ℓ} {S : Type ℓ} (server : Server S) (c : Scalars) (f : Floats) (h : MessageHistory)
    (unmarshal_doc : String → Option (Dict Value)) (unmarshal : String → Option Value) where
  abbrev to_messages :
      Result HistoryError (List (Dict Value)) × S → Result HistoryError (List Message) × S
  to_messages (err e, s) = (err e, s)
  to_messages (ok docs, s) = (ok (docs_to_messages c unmarshal docs), s)

  abbrev to_recent :
      Result HistoryError (List (Dict Value)) × S → Result HistoryError (List Message) × S
  to_recent (err e, s) = (err e, s)
  to_recent (ok docs, s) = (ok (reverse (docs_to_messages c unmarshal docs)), s)

  abbrev recent_valid :
      GetRecentOptions → Option HistoryError → S → Result HistoryError (List Message) × S
  recent_valid o (some e) s = (err e, s)
  recent_valid o none s = to_recent (
      answered index
        (run_query server c h.schema f unmarshal_doc (run_simple (recent_query h o)) s))

  unfoldable pub get_recent : GetRecentOptions → S → Result HistoryError (List Message) × S
  get_recent o s =
      if ltb_ℤ (top_k_of o) (pos 0)
      then (err negative_top_k, s)
      else recent_valid o (validate_roles o.roles) s

  unfoldable pub messages : S → Result HistoryError (List Message) × S
  messages s = to_messages (
      answered index
        (run_query server c h.schema f unmarshal_doc (run_simple (messages_query h)) s))

  unfoldable pub count_messages : String → S → Result HistoryError ℤ × S
  count_messages tag s =
      answered index
        (count server c h.schema (run_simple (new_count_query (session_filter h tag))) s)

  abbrev drop_id : String → S → Result HistoryError (Unit {0}) × S
  drop_id id s =
      after (λ _ s. (ok tt, s)) (answered index (drop_documents server c h.schema (id ∷ []) s))

  abbrev drop_first : List Message → S → Result HistoryError (Unit {0}) × S
  drop_first [] s = (ok tt, s)
  drop_first (m ∷ recent) s = drop_id m.entry_id s

  -- `Drop`: with an empty id, the most recent message.
  unfoldable pub drop : String → S → Result HistoryError (Unit {0}) × S
  unfolding get_recent
  drop id s =
      if str_eq id ""
      then after drop_first (get_recent (record { top_k = pos 1; session_tag = ""; roles = [] }) s)
      else drop_id id s

  unfoldable pub clear_history : ℕ → S → Cleared server c h.schema
  clear_history = clear server c h.schema

  unfoldable pub delete_history : S → Result HistoryError (Unit {0}) × S
  delete_history s = answered index (delete server c h.schema true s)

  module _ (format_ts : Float64 → String) (marshal : Value → Option String)
      (marshal_doc : Dict Value → Option String) (now : ℕ → Float64)
      (suffix ulid : ℕ → String) where
    abbrev Added : Type ℓ
    Added = Option (Result HistoryError (Unit {0}) × S)

    abbrev loaded : Option (Result IndexError (List String) × S) → Added
    loaded none = none
    loaded (some (err e, s)) = some (err (index e), s)
    loaded (some (ok ks, s)) = some (ok tt, s)

    abbrev pub load_fields : ℕ → Result HistoryError (List (Dict Value)) → S → Added
    load_fields fuel (err e) s = some (err e, s)
    load_fields fuel (ok records) s =
        loaded (load c h.schema marshal_doc ulid server fuel load_options records s)

    -- `AddMessages`, with the fuel of `load`.
    unfoldable pub add_messages : ℕ → List Message → String → S → Added
    add_messages fuel messages tag s =
        load_fields fuel (all_fields format_ts marshal now suffix 0 (or_own h tag) messages) s

    abbrev pub bare : String → String → Message
    bare role content = record {
      entry_id = "";
      role = role;
      content = content;
      session_tag = "";
      timestamp = zero_f;
      tool_call_id = "";
      metadata = none;
    }

    -- `AddMessage` and `Store`
    unfoldable pub add_message : ℕ → Message → String → S → Added
    unfolding add_messages
    add_message fuel m = add_messages fuel (m ∷ [])

    unfoldable pub store : ℕ → String → String → String → S → Added
    unfolding add_messages
    store fuel prompt response = add_messages fuel (bare "user" prompt ∷ bare "llm" response ∷ [])
