-- ===== src/History/Tests.antt =====
-- Runs of the history at concrete messages.
use redis_vl_golang.Base.{
  ℕ, suc, ◌∙◌, String, ◌≡◌, refl, Bool, true, false, str_eq, str_eq_iff, Bool-cases, inl, inr,
  Option, none, some, List, [], ◌∷◌, ◌++◌, Result, ok, err, sym, ap, if◌then◌else◌,
}
use redis_vl_golang.Base.Unary.{unary, tally, tally-unary, unary-suc}
use redis_vl_golang.Base.Int.{pos, negsuc}
use redis_vl_golang.Base.Float.{Float64, zero_f, half_f, one_f}
use redis_vl_golang.Base.Dict.{Dict}
use redis_vl_golang.Query.Options.{Floats}
use redis_vl_golang.Index.Value.{Value, text, Scalars}
use redis_vl_golang.Index.Server.{Server}
use redis_vl_golang.History.{Message, MessageHistory, HistoryError}
use redis_vl_golang.History.Fields.{message_fields, message_of}
use redis_vl_golang.History.Reading.{add_messages}
use redis_vl_golang.History.Trips.{as_stored, message_of-message_fields, add_messages-invalid}

abbrev scalars : Scalars
scalars = record {
  sprint = λ v. "";
  of_bytes = λ bs. "";
  format_float = λ x. "0.5";
  parse_float = λ s. some (tally s);
  parse_int = λ s. none;
  truncate = λ x. pos 0;
  of_int = λ n. zero_f;
}

abbrev floats : Floats
floats = record {
  add = λ x y. x;
  sub = λ x y. x;
  mul = λ x y. x;
  div = λ x y. x;
  format_float = λ x. "0.5";
}

-- JSON for integers: a number comes back as a float64.
abbrev marshal : Value → Option String
marshal (Value.int (pos n)) = some (unary (suc n))
marshal _ = none

abbrev unmarshal : String → Option Value
unmarshal s = some (Value.float (tally s))

unary_filled : (n : ℕ) → str_eq (unary (suc n)) "" ≡ false
unary_filled n = elim (Bool-cases (str_eq (unary (suc n)) "")) [
  | inl e ↦ absurd (unary-suc n ((str_eq_iff (unary (suc n)) "").0 e))
  | inr e ↦ e
]

marshal_valid :
    (v : Value) (json : String)
    → marshal v ≡ some json
    → (str_eq json "" ≡ false) × (back : Value) × (unmarshal json ≡ some back)
marshal_valid (Value.int (pos n)) json h =
    let same : unary (suc n) ≡ json = cc in
    (ap (λ s. str_eq s "") (sym same) ∙ unary_filled n, _, refl)
marshal_valid (Value.int (negsuc n)) json h = cc
marshal_valid v json h = cc

abbrev question : Message
question = record {
  entry_id = "";
  role = "user";
  content = "Where?";
  session_tag = "";
  timestamp = 3;
  tool_call_id = "call";
  metadata = some (Value.int (pos 2));
}

abbrev question_fields : Dict Value
question_fields =
    ("entry_id", text "chat:111:ff")
    ∷ ("role", text "user")
    ∷ ("content", text "Where?")
    ∷ ("session_tag", text "chat")
    ∷ ("timestamp", text "111")
    ∷ ("tool_call_id", text "call")
    ∷ ("metadata", text "111")
    ∷ []

message_of-message_fields_example :
    message_of scalars unmarshal (("id", text "chat:1") ∷ question_fields)
    ≡ as_stored scalars unmarshal unary marshal (λ n. 7) (λ n. "ff") 0 "chat" question
unfolding message_fields unary redis_vl_golang.Base.has redis_vl_golang.History.Fields.entry_id_of
    redis_vl_golang.History.Fields.timestamp_of redis_vl_golang.Base.Float.eq
message_of-message_fields_example =
    message_of-message_fields scalars unmarshal unary marshal (λ n. 7) (λ n. "ff") 0 "chat" "chat:1"
      question question_fields (ap some (tally-unary 3)) marshal_valid refl

abbrev quiet : Server (Unit {0})
quiet = record {
  call = λ args s. (ok Value.nil, s);
  exec = λ batch s. ([], s);
  run = λ q s. (ok Value.nil, s);
  hgetall = λ k s. (ok [], s);
  del = λ ks s. (ok 0, s);
  exists_keys = λ ks s. (ok 0, s);
}

abbrev chat : MessageHistory
chat = record {
  session_tag = "chat";
  schema = record {
    index = record {
      name = "chat";
      prefixes = "chat" ∷ [];
      key_separator = ":";
      storage_type = "hash";
      stopwords = none;
    };
    version = "0.1.0";
    fields = [];
    field_order = [];
  };
}

add_messages-invalid_example :
    (e : HistoryError) × (add_messages quiet scalars floats chat
        (λ s. none)
        unmarshal
        unary
        marshal
        (λ m. none)
        (λ n. 7)
        (λ n. "ff")
        (λ n. "")
        3
        (question ∷ (record question { role = "bot" } ∷ []))
        ""
        tt
      ≡ some (err e, tt))
unfolding redis_vl_golang.Base.has
add_messages-invalid_example =
    add_messages-invalid scalars unmarshal unary marshal (λ n. 7) (λ n. "ff") quiet floats chat
      (λ s. none) (λ m. none) (λ n. "") 3 (question ∷ []) (record question { role = "bot" }) [] ""
      tt refl
