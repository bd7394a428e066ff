-- ===== src/Filter/Tests.antt =====
-- Runs of the filter expressions at concrete inputs.
use redis_vl_golang.Base.{
  ℕ, ◌+◌, ◌/◌, ◌%◌, ◌≤◌, ◌<◌, String, ◌<>◌, ◌≡◌, refl, arith, Bool, true, false, none, some, List,
  [], ◌∷◌, All, inl, inr,
}
use redis_vl_golang.Filter.Escape.{escape_token, escaped_chars_no_wildcard}
use redis_vl_golang.Filter.Escape.Laws.{
  unescape, unescape-escape_token, IsQuoted, escape_token-IsQuoted,
}
use redis_vl_golang.Filter.Expression.{
  Expression, leaf, combined, geo_unit, and_op, or_op, render, raw,
}
use redis_vl_golang.Filter.Expression.Meaning.{
  Formula, print, satisfies, meaning, IsBuilt, render-meaning,
}
use redis_vl_golang.Filter.Tag.{eq, ne, format_values}
use redis_vl_golang.Filter.Tag.Values.{
  read_values, read_values-format_values, NoBar, drop_empty, eq-bar,
}
use redis_vl_golang.Filter.Fields.{day, on_date}
use redis_vl_golang.Filter.Fields.Laws.{on_date_lem}

unescape-escape_token_example : unescape (escape_token "a-b\\c" false) ≡ "a-b\\c"
unescape-escape_token_example = unescape-escape_token "a-b\\c" false

escape_token-IsQuoted_example : IsQuoted escaped_chars_no_wildcard false (escape_token "{x|*}" true)
escape_token-IsQuoted_example = escape_token-IsQuoted "{x|*}" true

abbrev either_year : Expression
either_year =
    combined and_op (leaf "@genre:{rock}" none)
      (combined or_op (leaf "@year:[1970 1970]" none) (leaf "@year:[1980 1980]" none))

either_year-IsBuilt : IsBuilt either_year
unfolding render
either_year-IsBuilt = (inl refl, tt, (inr (refl, λ h. cc, λ h. cc), tt, tt))

render-meaning_example :
    (f : Formula) × (print f ≡ render either_year)
    × ((holds : String → Bool) → satisfies holds f ≡ meaning holds either_year)
render-meaning_example = render-meaning either_year either_year-IsBuilt

abbrev bad : Expression
bad = leaf "*" (some (geo_unit "yd"))

abbrev colours : List String
colours = "red" ∷ "" ∷ "light blue" ∷ []

colours-NoBar : All NoBar colours
colours-NoBar = ground arith

read_values-format_values_example : read_values (format_values colours false) ≡ drop_empty colours
read_values-format_values_example = read_values-format_values colours colours-NoBar (λ h. cc)

eq-bar_example :
    (eq record { field = "brand" } (("nike" <> ("|" <> "puma")) ∷ [])
      ≡ eq record { field = "brand" } ("nike" ∷ "puma" ∷ []))
    × (ne record { field = "brand" } (("nike" <> ("|" <> "puma")) ∷ [])
        ≡ ne record { field = "brand" } ("nike" ∷ "puma" ∷ []))
eq-bar_example = eq-bar record { field = "brand" } "nike" "puma" (λ h. cc) (λ h. cc)

abbrev seconds : ℕ → String
seconds t = "0"

abbrev noon : ℕ
noon = 1_700_006_400_000_000_000

on_date_lem_example :
    (start : ℕ) × (end : ℕ) × (on_date seconds "day" noon
      ≡ raw ("@" <> ("day" <> (":[" <> (seconds start <> (" " <> (seconds end <> "]")))))))
    × (on_date seconds "day" (noon + 5) ≡ on_date seconds "day" noon)
    × (start % day ≡ 0)
    × (start ≤ noon + 5)
    × (end + 1000 ≡ start + day)
    × (end / day ≡ (noon + 5) / day)
    × (noon + 5 < end + 1000)
on_date_lem_example = on_date_lem seconds "day" noon (noon + 5) refl
