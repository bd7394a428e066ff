-- ===== src/History.antt =====
-- extensions/history/history.go: the history of a chat.
--
-- The clock and the random suffix of the message at a position are parameters, `json.Marshal` and
-- `json.Unmarshal` of its metadata too. An answer of the server is a parameter of the index.
pub mod Fields
pub mod Reading
pub mod Trips
mod Tests
use redis_vl_golang.Base.{
  ℕ, zero, suc, String, ◌<>◌, str_eq, Bool, true, false, not, Option, none, some, List, [], ◌∷◌,
  ◌++◌, has, Result, ok, err, if◌then◌else◌,
}
use redis_vl_golang.Base.Float.{Float64, zero_f, eq}
use redis_vl_golang.Base.Dict.{Dict}
use redis_vl_golang.Filter.Expression.{Expression, and_all, or_all}
use redis_vl_golang.Filter.Tag
use redis_vl_golang.Filter.Tag.{TagField}
use redis_vl_golang.Schema.Attrs.{SchemaError}
use redis_vl_golang.Schema.Field.{new_text_field, new_tag_field, new_numeric_field}
use redis_vl_golang.Schema.Index.{IndexSchema, new_index_schema}
use redis_vl_golang.Index.Value.{Value}
use redis_vl_golang.Index.Server.{IndexError}

pub record Message : Type 0 where
  pub entry_id : String
  pub role : String
  pub content : String
  pub session_tag : String
  pub timestamp : Float64
  pub tool_call_id : String
  pub metadata : Option Value

pub data HistoryError : Type 0 where
  invalid_role : String → HistoryError
  not_marshalled : HistoryError
  negative_top_k : HistoryError
  index : IndexError → HistoryError

abbrev pub valid_roles : List String
valid_roles = "user" ∷ "assistant" ∷ "system" ∷ "tool" ∷ "llm" ∷ []

-- A history: the session tag of the instance, and its index.
pub record MessageHistory : Type 0 where
  pub session_tag : String
  pub schema : IndexSchema

-- The index of `NewMessageHistory`; the prefix is given or the name.
unfoldable pub history_schema : String → String → Result SchemaError IndexSchema
history_schema name prefix =
    new_index_schema
      (record {
        name = name;
        prefixes = (if str_eq prefix "" then name else prefix) ∷ [];
        key_separator = "";
        storage_type = "";
        stopwords = none;
      })
      (new_tag_field "role" none
        ∷ new_text_field "content" none
        ∷ new_tag_field "tool_call_id" none
        ∷ new_numeric_field "timestamp" none
        ∷ new_tag_field "session_tag" none
        ∷ new_text_field "metadata" none
        ∷ [])

abbrev pub or_own : MessageHistory → String → String
or_own h tag = if str_eq tag "" then h.session_tag else tag

unfoldable pub session_filter : MessageHistory → String → Expression
session_filter h tag = Tag.eq (record { field = "session_tag" }) (or_own h tag ∷ [])

unfoldable pub validate_roles : List String → Option HistoryError
validate_roles [] = none
validate_roles (r ∷ roles) =
    if has valid_roles r then validate_roles roles else some (invalid_role r)

abbrev role_filter : String → Expression
role_filter r = Tag.eq (record { field = "role" }) (r ∷ [])

unfoldable pub or_roles : Expression → List String → Expression
or_roles e [] = e
or_roles e (r ∷ roles) = or_roles (or_all e (role_filter r ∷ [])) roles

unfoldable pub roles_filter : Expression → List String → Expression
unfolding or_roles
roles_filter base [] = base
roles_filter base (r ∷ roles) = and_all base (or_roles (role_filter r) roles ∷ [])
