-- ===== src/Router/Names.antt =====
-- The routes of a router by their names.
use redis_vl_golang.Base.{
  String, str_eq, str_eq_iff, str_eq_refl, ◌≡◌, refl, sym, ap, ◌∙◌, Bool, true, false, Bool-cases,
  inl, inr, Option, none, some, List, [], ◌∷◌, ◌++◌, if◌then◌else◌,
}
use redis_vl_golang.Base.Float.{Float64}
use redis_vl_golang.Base.Dict.{Dict, lookup, insert, lookup-insert}
use redis_vl_golang.Router.{Route}
use redis_vl_golang.Router.Routes.{
  put_thresholds, route_thresholds, at_threshold, update_thresholds, merge_route, remove_first,
}

-- No route of the name.
unfoldable pub named : String → List Route → Bool
named name [] = false
named name (r ∷ routes) = if str_eq r.name name then true else named name routes

-- The threshold of a name: that of the last route of it, or what was there before.
abbrev pub later {ℓ} : {A : Type ℓ} → Option A → Option A → Option A
later (some a) before = some a
later none before = before

unfoldable pub threshold_of : String → List Route → Option Float64
threshold_of name [] = none
threshold_of name (r ∷ routes) =
    later (threshold_of name routes)
      (if str_eq r.name name then some r.distance_threshold else none)

later_assoc {ℓ} : {A : Type ℓ} (a b c : Option A) → later a (later b c) ≡ later (later a b) c
later_assoc none b c = refl
later_assoc (some a) b c = refl

later_if {ℓ} :
    {A : Type ℓ} (test : Bool) (a : A) (b : Option A)
    → (if test then some a else b) ≡ later (if test then some a else none) b
later_if true a b = refl
later_if false a b = refl

lookup-put_thresholds :
    (name : String) (routes : List Route) (out : Dict Float64)
    → lookup name (put_thresholds routes out) ≡ later (threshold_of name routes) (lookup name out)
unfolding put_thresholds threshold_of
lookup-put_thresholds name [] out = refl
lookup-put_thresholds name (r ∷ routes) out =
    lookup-put_thresholds name routes (insert r.name r.distance_threshold out)
    ∙ ap (later (threshold_of name routes)) (
        lookup-insert r.name name r.distance_threshold out
        ∙ later_if (str_eq r.name name) r.distance_threshold (lookup name out))
    ∙ later_assoc (threshold_of name routes)
        (if str_eq r.name name then some r.distance_threshold else none) (lookup name out)

later-none {ℓ} : {A : Type ℓ} (a : Option A) → later a none ≡ a
later-none none = refl
later-none (some a) = refl

-- What an update makes of the threshold of a name that has one.
abbrev pub updated : Option Float64 → Option Float64 → Option Float64
updated given none = none
updated given (some t) = later given (some t)

updated-later : (g a b : Option Float64) → later (updated g a) (updated g b) ≡ updated g (later a b)
updated-later none none b = refl
updated-later (some t) none b = refl
updated-later none (some x) b = refl
updated-later (some t) (some x) b = refl

head-update :
    (name : String) (r : Route) (o g : Option Float64) (b : Bool)
    → str_eq r.name name ≡ b
    → (b ≡ true → o ≡ g)
    → (if str_eq (at_threshold r o).name name
        then some (at_threshold r o).distance_threshold
        else none)
      ≡ updated g (if str_eq r.name name then some r.distance_threshold else none)
head-update name r none g false h same = rw h refl
head-update name r (some t) g false h same = rw h refl
head-update name r none g true h same = rw (h, sym (same refl)) refl
head-update name r (some t) g true h same = rw (h, sym (same refl)) refl

threshold_of-update :
    (name : String) (given : Dict Float64) (routes : List Route)
    → threshold_of name (update_thresholds given routes)
      ≡ updated (lookup name given) (threshold_of name routes)
unfolding threshold_of update_thresholds
threshold_of-update name given [] = refl
threshold_of-update name given (r ∷ routes) =
    ap
      (λ t. later t (
        if str_eq (at_threshold r (lookup r.name given)).name name
        then some (at_threshold r (lookup r.name given)).distance_threshold
        else none))
      (threshold_of-update name given routes)
    ∙ ap (later (updated (lookup name given) (threshold_of name routes))) (
        head-update name r (lookup r.name given) (lookup name given) (str_eq r.name name) refl
          (λ e. ap (λ k. lookup k given) ((str_eq_iff r.name name).0 e)))
    ∙ updated-later (lookup name given) (threshold_of name routes)
        (if str_eq r.name name then some r.distance_threshold else none)

-- After an update of thresholds, the threshold that `RouteThresholds` shows for a name is the given
-- one, where one is given and a route of the name is there, and else the one that it showed before.
pub lookup-update_thresholds :
    (name : String) (given : Dict Float64) (routes : List Route)
    → lookup name (route_thresholds (update_thresholds given routes))
      ≡ updated (lookup name given) (lookup name (route_thresholds routes))
unfolding route_thresholds lookup
lookup-update_thresholds name given routes =
    lookup-put_thresholds name (update_thresholds given routes) []
    ∙ later-none (threshold_of name (update_thresholds given routes))
    ∙ threshold_of-update name given routes
    ∙ ap (updated (lookup name given))
        (sym (lookup-put_thresholds name routes [] ∙ later-none (threshold_of name routes)))

named-append :
    (name : String) (r : Route) (routes : List Route)
    → named name routes ≡ false
    → str_eq r.name name ≡ true
    → remove_first name (routes ++ (r ∷ [])) ≡ routes
unfolding named remove_first
named-append name r [] h e = rw e refl
named-append name r (q ∷ routes) h e = elim (Bool-cases (str_eq q.name name)) [
  | inl there ↦ cc
  | inr other ↦ rw other (ap (λ t. q ∷ t) (named-append name r routes (rw other at h) e))
]

merge_route-named :
    (new : Route) (routes : List Route)
    → named new.name routes ≡ false
    → merge_route new routes ≡ routes ++ (new ∷ [])
unfolding named merge_route
merge_route-named new [] h = refl
merge_route-named new (q ∷ routes) h = elim (Bool-cases (str_eq q.name new.name)) [
  | inl there ↦ cc
  | inr other ↦ rw other (ap (λ t. q ∷ t) (merge_route-named new routes (rw other at h)))
]

-- A route of a new name that is added and then removed leaves the routes as they were.
remove_first-merge_route :
    (new : Route) (routes : List Route)
    → named new.name routes ≡ false
    → remove_first new.name (merge_route new routes) ≡ routes
remove_first-merge_route new routes h =
    ap (remove_first new.name) (merge_route-named new routes h)
    ∙ named-append new.name new routes h (str_eq_refl new.name)
