-- ===== src/Filter/Expression.antt =====
-- filter/filter.go: `Expression`, its combinators, its rendering and its deferred error.
pub mod Meaning
pub mod Errors
use redis_vl_golang.Base.{
  String, ◌<>◌, str_eq, Bool, ◌&&◌, ◌||◌, Option, none, some, List, [], ◌∷◌, if◌then◌else◌,
}

-- What `GeoRadius.validate` reports: the unit.
pub data FilterError : Type 0 where
  geo_unit : String → FilterError

-- A `*Expression`. `nil` is the nil pointer; `leaf` has the fields raw and err; `combined` has op,
-- left and right.
pub data Expression : Type 0 where
  nil : Expression
  leaf : String → Option FilterError → Expression
  combined : String → Expression → Expression → Expression

-- `Err`
pub err_of : Expression → Option FilterError
err_of nil = none
err_of (leaf raw err) = err
err_of (combined op left right) = elim (err_of left) [ some e ↦ some e | none ↦ err_of right ]

pub all : Expression
all = leaf "*" none

pub raw : String → Expression
raw s = leaf s none

abbrev pub and_op : String
and_op = " "

abbrev pub or_op : String
or_op = " | "

-- `And`, `Or`
unfoldable pub and_all : Expression → List Expression → Expression
and_all out [] = out
and_all out (o ∷ others) = and_all (combined and_op out o) others

unfoldable pub or_all : Expression → List Expression → Expression
or_all out [] = out
or_all out (o ∷ others) = or_all (combined or_op out o) others

-- The branch of `String` for a combined expression.
render_combined : String → String → String → String
render_combined op l r =
    if str_eq l "*" && str_eq r "*"
    then "*"
    else if str_eq l "*"
    then r
    else if str_eq r "*"
    then l
    else "(" <> (l <> (op <> (r <> ")")))

-- `String`
unfoldable pub render : Expression → String
unfolding render_combined
render nil = "*"
render (leaf raw err) = if str_eq raw "" then "*" else raw
render (combined op left right) =
    if str_eq op "" then "*" else render_combined op (render left) (render right)

pub missing : String → Expression
missing field = leaf ("ismissing(@" <> (field <> ")")) none
