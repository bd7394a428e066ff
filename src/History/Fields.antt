-- ===== src/History/Fields.antt =====
-- history.go: the fields under which a message is stored, and a message from its fields.
use redis_vl_golang.Base.{
  ℕ, suc, String, ◌<>◌, str_eq, Option, none, some, List, [], ◌∷◌, ◌++◌, has, Result, ok, err,
  ◌>>=◌, if◌then◌else◌,
}
use redis_vl_golang.Base.Float.{Float64, zero_f, eq}
use redis_vl_golang.Base.Dict.{Dict, lookup}
use redis_vl_golang.Index.Value.{Value, nil, text, Scalars}
use redis_vl_golang.History.{Message, HistoryError, invalid_role, not_marshalled, valid_roles}

module _ (format_ts : Float64 → String) (marshal : Value → Option String) (now : ℕ → Float64)
    (suffix : ℕ → String) where
  unfoldable pub make_entry_id : ℕ → String → Float64 → String
  make_entry_id idx session_tag ts = session_tag <> (":" <> (format_ts ts <> (":" <> suffix idx)))

  unfoldable pub timestamp_of : ℕ → Message → Float64
  timestamp_of idx m = if eq m.timestamp zero_f then now idx else m.timestamp

  unfoldable pub entry_id_of : ℕ → String → Message → String
  unfolding make_entry_id timestamp_of
  entry_id_of idx tag m =
      if str_eq m.entry_id "" then make_entry_id idx tag (timestamp_of idx m) else m.entry_id

  abbrev pub tool_fields : Message → Dict Value
  tool_fields m =
      if str_eq m.tool_call_id "" then [] else ("tool_call_id", text m.tool_call_id) ∷ []

  -- Metadata that is nil is not stored.
  abbrev pub marshalled : Option String → Result HistoryError (Dict Value)
  marshalled none = err not_marshalled
  marshalled (some json) = ok (("metadata", text json) ∷ [])

  abbrev pub metadata_fields : Option Value → Result HistoryError (Dict Value)
  metadata_fields none = ok []
  metadata_fields (some meta) = marshalled (marshal meta)

  abbrev pub valid_fields :
      ℕ → String → Message → Result HistoryError (Dict Value) → Result HistoryError (Dict Value)
  valid_fields idx tag m (err e) = err e
  valid_fields idx tag m (ok meta) = ok (
      ("entry_id", text (entry_id_of idx tag m))
        ∷ ("role", text m.role)
        ∷ ("content", text m.content)
        ∷ ("session_tag", text tag)
        ∷ ("timestamp", text (format_ts (timestamp_of idx m)))
        ∷ tool_fields m
      ++ meta)

  unfoldable pub message_fields : ℕ → String → Message → Result HistoryError (Dict Value)
  message_fields idx tag m =
      if has valid_roles m.role
      then valid_fields idx tag m (metadata_fields m.metadata)
      else err (invalid_role m.role)

  -- The records of `AddMessages`, in order.
  unfoldable pub all_fields : ℕ → String → List Message → Result HistoryError (List (Dict Value))
  unfolding message_fields
  all_fields idx tag [] = ok []
  all_fields idx tag (m ∷ messages) = do
    fields ← message_fields idx tag m
    rest ← all_fields (suc idx) tag messages
    ok (fields ∷ rest)

module _ (c : Scalars) (unmarshal : String → Option Value) where
  abbrev pub shown : Option Value → String
  shown none = ""
  shown (some nil) = ""
  shown (some (text s)) = s
  shown (some v) = c.sprint v

  abbrev pub or_zero : Option Float64 → Float64
  or_zero none = zero_f
  or_zero (some t) = t

  abbrev read_metadata : String → Option Value → Value
  read_metadata raw none = text raw
  read_metadata raw (some meta) = meta

  abbrev pub metadata_of : String → Option Value
  metadata_of raw = if str_eq raw "" then none else some (read_metadata raw (unmarshal raw))

  unfoldable pub message_of : Dict Value → Message
  message_of d = record {
    entry_id = shown (lookup "entry_id" d);
    role = shown (lookup "role" d);
    content = shown (lookup "content" d);
    session_tag = shown (lookup "session_tag" d);
    timestamp = or_zero (c.parse_float (shown (lookup "timestamp" d)));
    tool_call_id = shown (lookup "tool_call_id" d);
    metadata = metadata_of (shown (lookup "metadata" d));
  }

  unfoldable pub docs_to_messages : List (Dict Value) → List Message
  unfolding message_of
  docs_to_messages [] = []
  docs_to_messages (d ∷ docs) = message_of d ∷ docs_to_messages docs
