-- ===== src/Router/Tests.antt =====
-- Runs of the router's routes at concrete thresholds.
use redis_vl_golang.Base.{
  String, ◌≡◌, refl, Bool, true, false, Option, none, some, List, [], ◌∷◌, All,
}
use redis_vl_golang.Base.Float.{Float64, zero_f, half_f, one_f, lt, is_nan}
use redis_vl_golang.Base.Dict.{lookup}
use redis_vl_golang.Router.{Route}
use redis_vl_golang.Router.Routes.{validate, route_thresholds, update_thresholds, max_threshold}
use redis_vl_golang.Router.Limits.{IsRoutable, max_threshold-covers, validate-IsRoutable}
use redis_vl_golang.Router.Names.{updated, lookup-update_thresholds}

abbrev route_of : String → Float64 → Route
route_of name threshold = record {
  name = name;
  references = "hello" ∷ [];
  metadata = [];
  distance_threshold = threshold;
}

abbrev routes : List Route
routes = route_of "greeting" half_f ∷ route_of "farewell" one_f ∷ []

max_threshold-covers_example :
    (is_nan (max_threshold zero_f routes) ≡ false)
    × All (λ (r : Route). lt (max_threshold zero_f routes) r.distance_threshold ≡ false) routes
max_threshold-covers_example = max_threshold-covers routes

validate-IsRoutable_example :
    IsRoutable (route_of "greeting" half_f)
    × (validate (route_of "greeting" half_f) ≡ (route_of "greeting" half_f, none))
unfolding validate redis_vl_golang.Base.is_blank redis_vl_golang.Base.Float.le
validate-IsRoutable_example =
    validate-IsRoutable (route_of "greeting" zero_f) (route_of "greeting" half_f) refl

lookup-update_thresholds_example :
    lookup "greeting" (route_thresholds (update_thresholds (("greeting", one_f) ∷ []) routes))
    ≡ updated
        (lookup "greeting" (("greeting", one_f) ∷ []))
        (lookup "greeting" (route_thresholds routes))
lookup-update_thresholds_example =
    lookup-update_thresholds "greeting" (("greeting", one_f) ∷ []) routes
