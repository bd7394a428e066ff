-- ===== src/Filter/Tag.antt =====
-- filter/filter.go: `TagField`.
pub mod Values
use redis_vl_golang.Base.{
  String, ◌<>◌, str_eq, Bool, true, false, List, [], ◌∷◌, join, if◌then◌else◌,
}
use redis_vl_golang.Filter.Escape.{escape_token}
use redis_vl_golang.Filter.Expression.{Expression, all, raw, missing}

pub record TagField : Type 0 where
  pub field : String

-- The loop of `formatValues`.
escape_values : List String → Bool → List String
escape_values [] preserve_wildcards = []
escape_values (v ∷ values) preserve_wildcards =
    let rest = escape_values values preserve_wildcards in
    if str_eq v "" then rest else escape_token v preserve_wildcards ∷ rest

unfoldable pub format_values : List String → Bool → String
unfolding escape_values
format_values values preserve_wildcards = join "|" (escape_values values preserve_wildcards)

unfoldable pub eq : TagField → List String → Expression
eq t values =
    let formatted = format_values values false in
    if str_eq formatted "" then all else raw ("@" <> (t.field <> (":{" <> (formatted <> "}"))))

unfoldable pub ne : TagField → List String → Expression
ne t values =
    let formatted = format_values values false in
    if str_eq formatted "" then all else raw ("(-@" <> (t.field <> (":{" <> (formatted <> "})"))))

unfoldable pub like : TagField → List String → Expression
like t patterns =
    let formatted = format_values patterns true in
    if str_eq formatted "" then all else raw ("@" <> (t.field <> (":{" <> (formatted <> "}"))))

unfoldable pub is_missing : TagField → Expression
is_missing t = missing t.field
