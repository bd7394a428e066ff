-- ===== src/Router/Routes.antt =====
-- router.go: the routes of a router, their validation and their thresholds.
use redis_vl_golang.Base.{
  String, str_eq, Bool, true, false, ◌||◌, Option, none, some, List, [], ◌∷◌, ◌++◌, if◌then◌else◌,
  is_blank,
}
use redis_vl_golang.Base.Float.{Float64, zero_f, half_f, two_f, eq, le, lt}
use redis_vl_golang.Base.Dict.{Dict, lookup, insert}
use redis_vl_golang.Router.{
  Route, RouteError, empty_name, no_references, empty_reference, bad_threshold,
}

unfoldable pub has_blank : List String → Bool
has_blank [] = false
has_blank (s ∷ refs) = is_blank s || has_blank refs

abbrev pub is_empty : List String → Bool
is_empty [] = true
is_empty (s ∷ refs) = false

-- `validate`, with the receiver that it leaves.
unfoldable pub with_threshold : Route → Route
with_threshold r = record r {
  distance_threshold = if eq r.distance_threshold zero_f then half_f else r.distance_threshold;
}

abbrev pub in_range : Route → Route × Option RouteError
in_range r =
    if le r.distance_threshold zero_f || lt two_f r.distance_threshold
    then (r, some (bad_threshold r.name))
    else (r, none)

unfoldable pub validate : Route → Route × Option RouteError
unfolding with_threshold has_blank
validate r =
    if is_blank r.name
    then (r, some empty_name)
    else if is_empty r.references
    then (r, some (no_references r.name))
    else if has_blank r.references
    then (r, some (empty_reference r.name))
    else in_range (with_threshold r)

-- The loop of `NewSemanticRouter` over the routes, which are written to.
abbrev validate_next :
    Route × Option RouteError
    → List Route
    → List Route × Option RouteError
    → List Route × Option RouteError
validate_next (r, some e) routes rest = (r ∷ routes, some e)
validate_next (r, none) routes rest = (r ∷ rest.0, rest.1)

unfoldable pub validate_all : List Route → List Route × Option RouteError
unfolding validate
validate_all [] = ([], none)
validate_all (r ∷ routes) = validate_next (validate r) routes (validate_all routes)

-- `RouteThresholds` and `UpdateRouteThresholds`
unfoldable pub put_thresholds : List Route → Dict Float64 → Dict Float64
put_thresholds [] out = out
put_thresholds (r ∷ routes) out = put_thresholds routes (insert r.name r.distance_threshold out)

unfoldable pub route_thresholds : List Route → Dict Float64
unfolding put_thresholds
route_thresholds routes = put_thresholds routes []

abbrev pub at_threshold : Route → Option Float64 → Route
at_threshold r none = r
at_threshold r (some t) = record r { distance_threshold = t }

unfoldable pub update_thresholds : Dict Float64 → List Route → List Route
update_thresholds thresholds [] = []
update_thresholds thresholds (r ∷ routes) =
    at_threshold r (lookup r.name thresholds) ∷ update_thresholds thresholds routes

-- The loops at the end of `AddRoute` and of `RemoveRoute`: the first route of the name is meant.
unfoldable pub merge_route : Route → List Route → List Route
merge_route new [] = new ∷ []
merge_route new (r ∷ routes) =
    if str_eq r.name new.name
    then record r { references = r.references ++ new.references } ∷ routes
    else r ∷ merge_route new routes

unfoldable pub remove_first : String → List Route → List Route
remove_first name [] = []
remove_first name (r ∷ routes) = if str_eq r.name name then routes else r ∷ remove_first name routes

-- The loop for the widest threshold.
unfoldable pub max_threshold : Float64 → List Route → Float64
max_threshold widest [] = widest
max_threshold widest (r ∷ routes) =
    max_threshold (if lt widest r.distance_threshold then r.distance_threshold else widest) routes
