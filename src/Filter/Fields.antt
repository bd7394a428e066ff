-- ===== src/Filter/Fields.antt =====
-- filter/filter.go: `NumField`, `TextField`, `GeoField` and `TimestampField`.
--
-- A float64 enters by its bit pattern, and its two formats are parameters: `format_g` is
-- `strconv.FormatFloat(v, 'g', -1, 64)` and `format_ts` the text that `ts` makes of a time. A time
-- is its number of nanoseconds since the epoch, as `UnixNano` returns it.
pub mod Laws
use redis_vl_golang.Base.{
  ℕ, ◌+◌, ◌-◌, ◌*◌, ◌/◌, ◌%◌, String, ◌<>◌, str_eq, Bool, true, false, ◌||◌, Option, none, some,
  to_lower, show_int, has, List, [], ◌∷◌, if◌then◌else◌,
}
use redis_vl_golang.Base.Int.{ℤ, pos}
use redis_vl_golang.Base.Float.{Float64}
use redis_vl_golang.Filter.Expression.{Expression, leaf, FilterError, geo_unit, all, raw, missing}

-- The named values of the type, which is a string, and any other.
pub data Inclusive : Type 0 where
  both neither left right : Inclusive
  unnamed : String → Inclusive

-- `fmt.Sprintf("@%s:[%s %s]", …)` and its variants with a parenthesis at an end that is excluded.
unfoldable pub format_between : String → String → String → Inclusive → String
format_between field start end neither =
    "@" <> (field <> (":[(" <> (start <> (" (" <> (end <> "]")))))
format_between field start end left = "@" <> (field <> (":[" <> (start <> (" (" <> (end <> "]")))))
format_between field start end right = "@" <> (field <> (":[(" <> (start <> (" " <> (end <> "]")))))
format_between field start end both = "@" <> (field <> (":[" <> (start <> (" " <> (end <> "]")))))
format_between field start end (unnamed s) =
    "@" <> (field <> (":[" <> (start <> (" " <> (end <> "]")))))

-- The comparisons of `NumField` and `TimestampField`, which differ in the type of the value.
module _ {V : Type 0} (format : V → String) (field : String) where
  unfoldable pub eq : V → Expression
  eq v = let s = format v in raw ("@" <> (field <> (":[" <> (s <> (" " <> (s <> "]"))))))

  unfoldable pub ne : V → Expression
  ne v = let s = format v in raw ("(-@" <> (field <> (":[" <> (s <> (" " <> (s <> "])"))))))

  unfoldable pub gt : V → Expression
  gt v = raw ("@" <> (field <> (":[(" <> (format v <> " +inf]"))))

  unfoldable pub lt : V → Expression
  lt v = raw ("@" <> (field <> (":[-inf (" <> (format v <> "]"))))

  unfoldable pub ge : V → Expression
  ge v = raw ("@" <> (field <> (":[" <> (format v <> " +inf]"))))

  unfoldable pub le : V → Expression
  le v = raw ("@" <> (field <> (":[-inf " <> (format v <> "]"))))

  unfoldable pub between : V → V → Inclusive → Expression
  between start end inclusive = raw (format_between field (format start) (format end) inclusive)

  unfoldable pub is_missing : Expression
  is_missing = missing field

-- `TextField`
unfoldable pub text_eq : String → String → Expression
text_eq field value =
    if str_eq value "" then all else raw ("@" <> (field <> (":(\"" <> (value <> "\")"))))

unfoldable pub text_ne : String → String → Expression
text_ne field value =
    if str_eq value "" then all else raw ("(-@" <> (field <> (":\"" <> (value <> "\")"))))

unfoldable pub text_like : String → String → Expression
text_like field value =
    if str_eq value "" then all else raw ("@" <> (field <> (":(" <> (value <> ")"))))

pub record GeoRadius : Type 0 where
  pub longitude : Float64
  pub latitude : Float64
  pub radius : ℤ
  pub unit : String

abbrev geo_units : List String
geo_units = "m" ∷ "km" ∷ "mi" ∷ "ft" ∷ []

unfoldable pub validate : GeoRadius → Option FilterError
validate g = if has geo_units (to_lower g.unit) then none else some (geo_unit g.unit)

module _ (format_g : Float64 → String) (field : String) where
  -- `GeoField.radius`
  geo_radius : GeoRadius → Bool → Expression
  geo_radius r negate = elim (validate r) [
    | some e ↦ leaf "*" (some e)
    | none ↦
        let body =
          "@"
          <> (field
              <> (":["
                  <> (format_g r.longitude
                      <> (" "
                          <> (format_g r.latitude
                              <> (" "
                                  <> (show_int r.radius
                                      <> (" " <> (to_lower r.unit <> "]"))))))))) in
        if negate then raw ("(-" <> (body <> ")")) else raw body
  ]

  unfoldable pub within : GeoRadius → Expression
  unfolding geo_radius
  within r = geo_radius r false

  unfoldable pub not_within : GeoRadius → Expression
  unfolding geo_radius
  not_within r = geo_radius r true

-- A day in nanoseconds. The day of `OnDate` starts at the last midnight in UTC (times before the
-- epoch are not modelled), and ends a microsecond before the next.
abbrev pub day : ℕ
day = 86_400_000_000_000

unfoldable pub day_start : ℕ → ℕ
day_start t = t - t % day

unfoldable pub day_end : ℕ → ℕ
unfolding day_start
day_end t = day_start t + (day - 1000)

unfoldable pub on_date : (ℕ → String) → String → ℕ → Expression
on_date format_ts field t = between format_ts field (day_start t) (day_end t) both
