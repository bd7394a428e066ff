-- ===== src/Router/Limits.antt =====
-- The bounds of the routes' thresholds.
use mathlib.Core.Path.{subst}
use redis_vl_golang.Base.{
  ◌≡◌, refl, arith, Bool, true, false, Bool-cases, inl, inr, ◌||◌, none, List, [], ◌∷◌,
  if◌then◌else◌, is_blank, All,
}
use redis_vl_golang.Base.Float.{Float64, zero_f, two_f, eq, le, lt, is_nan}
use redis_vl_golang.Router.{Route}
use redis_vl_golang.Router.Routes.{
  has_blank, is_empty, with_threshold, in_range, validate, max_threshold,
}

not_lt_trans :
    (x y z : Float64)
    → is_nan x ≡ false
    → is_nan y ≡ false
    → lt x y ≡ false
    → lt y z ≡ false
    → lt x z ≡ false
unfolding lt is_nan
not_lt_trans x y z nx ny h k = ground arith

-- A step of the loop for the widest threshold.
abbrev wider : Float64 → Float64 → Float64
wider w t = if lt w t then t else w

wider_lem :
    (w t : Float64)
    → is_nan w ≡ false
    → (is_nan (wider w t) ≡ false) × (lt (wider w t) w ≡ false) × (lt (wider w t) t ≡ false)
unfolding lt is_nan
wider_lem w t h = (ground arith, ground arith, ground arith)

max_threshold-le :
    (w : Float64) (routes : List Route)
    → is_nan w ≡ false
    → (is_nan (max_threshold w routes) ≡ false) × (lt (max_threshold w routes) w ≡ false)
unfolding max_threshold lt is_nan
max_threshold-le w [] h = (h, ground arith)
max_threshold-le w (r ∷ routes) h =
    let (sound, above, _) = wider_lem w r.distance_threshold h in
    let (kept, further) = max_threshold-le (wider w r.distance_threshold) routes sound in
    (kept, not_lt_trans _ (wider w r.distance_threshold) w kept sound further above)

covers_from :
    (w : Float64) (routes : List Route)
    → is_nan w ≡ false
    → All (λ (r : Route). lt (max_threshold w routes) r.distance_threshold ≡ false) routes
unfolding max_threshold
covers_from w [] h = tt
covers_from w (r ∷ routes) h =
    let (sound, _, above) = wider_lem w r.distance_threshold h in
    let (kept, further) = max_threshold-le (wider w r.distance_threshold) routes sound in
    (
      not_lt_trans _ (wider w r.distance_threshold) r.distance_threshold kept sound further above,
      covers_from (wider w r.distance_threshold) routes sound,
    )

-- The threshold of the range query, which is no NaN, is not below that of any route: no reference
-- that is within the threshold of its route is left out by the range.
pub max_threshold-covers :
    (routes : List Route)
    → (is_nan (max_threshold zero_f routes) ≡ false)
      × All (λ (r : Route). lt (max_threshold zero_f routes) r.distance_threshold ≡ false) routes
unfolding is_nan
max_threshold-covers routes =
    ((max_threshold-le zero_f routes refl).0, covers_from zero_f routes refl)

-- A route that passes has a name, references, none of them blank, and a threshold above 0 and not
-- above 2, or NaN.
pub record IsRoutable (r : Route) : Type 0 where
  pub has_name : is_blank r.name ≡ false
  pub has_references : is_empty r.references ≡ false
  pub none_blank : has_blank r.references ≡ false
  pub above_zero : le r.distance_threshold zero_f ≡ false
  pub at_most_two : lt two_f r.distance_threshold ≡ false

or_false : (a b : Bool) → (a || b) ≡ false → (a ≡ false) × (b ≡ false)
or_false false b h = (refl, h)
or_false true b h = cc

not_zero : (t : Float64) → le t zero_f ≡ false → eq t zero_f ≡ false
unfolding le
not_zero t h = (or_false (lt t zero_f) (eq t zero_f) h).1

validate_routable : (r : Route) → IsRoutable r → validate r ≡ (r, none)
unfolding validate with_threshold
validate_routable r v =
    rw
      (
        v.has_name,
        v.has_references,
        v.none_blank,
        not_zero r.distance_threshold v.above_zero,
        v.above_zero,
        v.at_most_two,
      )
      refl

in_range-eq-none :
    (q r' : Route)
    → in_range q ≡ (r', none)
    → (q ≡ r') × (le q.distance_threshold zero_f ≡ false) × (lt two_f q.distance_threshold ≡ false)
in_range-eq-none q r' h =
    elim (Bool-cases (le q.distance_threshold zero_f || lt two_f q.distance_threshold)) [
      | inl out ↦ cc
      | inr within ↦ let (low, high) = or_false _ _ within in (cc, low, high)
    ]

-- The three tests before the threshold.
validate-eq-none :
    (r r' : Route)
    → validate r ≡ (r', none)
    → (is_blank r.name ≡ false)
      × (is_empty r.references ≡ false)
      × (has_blank r.references ≡ false)
      × (in_range (with_threshold r) ≡ (r', none))
unfolding validate with_threshold
validate-eq-none r r' h = elim (Bool-cases (is_blank r.name)) [
  | inl e ↦ cc
  | inr a ↦ elim (Bool-cases (is_empty r.references)) [
    | inl e ↦ cc
    | inr b ↦ elim (Bool-cases (has_blank r.references)) [ inl e ↦ cc | inr d ↦ (a, b, d, cc) ]
  ]
]

-- Every route that `validate` leaves without an error has a name, references, none of them blank, and
-- a threshold that is neither 0 or below nor above 2; validating it again changes nothing.
pub validate-IsRoutable :
    (r r' : Route) → validate r ≡ (r', none) → IsRoutable r' × (validate r' ≡ (r', none))
unfolding with_threshold
validate-IsRoutable r r' h =
    let (named, listed, filled, fits) = validate-eq-none r r' h in
    let (same, low, high) = in_range-eq-none (with_threshold r) r' fits in
    let v : IsRoutable r' = subst IsRoutable same (record {
      has_name = named;
      has_references = listed;
      none_blank = filled;
      above_zero = low;
      at_most_two = high;
    }) in
    (v, validate_routable r' v)
