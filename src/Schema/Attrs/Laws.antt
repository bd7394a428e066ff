-- ===== src/Schema/Attrs/Laws.antt =====
-- What `VectorAttrs.Validate` accepts, and what it leaves in its receiver.
use mathlib.Core.Path.{subst, sym}
use redis_vl_golang.Base.{
  ◌≡◌, ap, ◌∙◌, ◌↔◌, inl, inr, refl, arith, String, str_eq, str_eq_iff, true, false, Bool-cases,
  Option, none, some, [], ◌∷◌, to_lower, to_upper, has, has-All, has_prefix,
}
use redis_vl_golang.Base.Int.{ℤ, pos, leb_ℤ, ◌<ℤ◌}
use redis_vl_golang.Schema.Attrs.{
  VectorAttrs, SchemaError, datatypes, metrics, algorithms, is_svs, or_text, svs_error,
  reduce_error, validate,
}

-- Attributes that a vector field can be created with, in normal form.
pub record IsReady (v : VectorAttrs) : Type 0 where
  pub dims_pos : pos 0 <ℤ v.dims
  pub datatype_known : has datatypes v.datatype ≡ true
  pub metric_known : has metrics v.distance_metric ≡ true
  pub algorithm_known : has algorithms v.algorithm ≡ true
  pub svs_ok : is_svs v.algorithm ≡ true → svs_error v ≡ none

-- Attributes that `Validate` accepts are left ready.
pub validate-IsReady : (v : VectorAttrs) → (validate v).1 ≡ none → IsReady (validate v).0
unfolding validate
validate-IsReady v h = ground arith

lower_known : (d : String) → has datatypes d ≡ true → or_text (to_lower d) "float32" ≡ d
unfolding to_lower
lower_known d h =
    has-All (λ d. or_text (to_lower d) "float32" ≡ d) datatypes d
      (refl, (refl, (refl, (refl, (refl, (refl, tt)))))) h

upper_metric : (m : String) → has metrics m ≡ true → to_upper (or_text m "COSINE") ≡ m
unfolding to_upper
upper_metric m h =
    has-All (λ m. to_upper (or_text m "COSINE") ≡ m) metrics m (refl, (refl, (refl, tt))) h

upper_algorithm : (a : String) → has algorithms a ≡ true → to_upper a ≡ a
unfolding to_upper
upper_algorithm a h = has-All (λ a. to_upper a ≡ a) algorithms a (refl, (refl, (refl, tt))) h

-- Attributes that are ready pass, and validating them writes nothing.
pub validate_ready : (v : VectorAttrs) → IsReady v → validate v ≡ (v, none)
unfolding validate
validate_ready v r =
    rw
      (
        lower_known v.datatype r.datatype_known,
        upper_metric v.distance_metric r.metric_known,
        upper_algorithm v.algorithm r.algorithm_known,
      )
      (ground arith)

-- A second validation finds nothing to report and nothing to write.
validate_idempotent :
    (v : VectorAttrs) → (validate v).1 ≡ none → validate (validate v).0 ≡ ((validate v).0, none)
validate_idempotent v h = validate_ready (validate v).0 (validate-IsReady v h)

prefix_nonempty : (c : String) → has_prefix c "LeanVec" ≡ true → str_eq c "" ≡ false
unfolding has_prefix
prefix_nonempty c h = elim (Bool-cases (str_eq c "")) [
  | inl e ↦ cc (subst (λ s. has_prefix s "LeanVec" ≡ true) ((str_eq_iff c "").0 e) h)
  | inr e ↦ e
]

-- A reduction, if there is one, is below the dimensions and goes with a LeanVec compression.
abbrev pub ReduceFits : VectorAttrs → Option ℤ → Type 0
ReduceFits v none = Unit
ReduceFits v (some r) = (r <ℤ v.dims) × (has_prefix v.compression "LeanVec" ≡ true)

reduce_error-none_iff :
    (v : VectorAttrs) (r : ℤ) → (reduce_error v r ≡ none) ↔ ReduceFits v (some r)
unfolding reduce_error
reduce_error-none_iff v r =
    (λ h. (ground arith, ground arith), λ h. ground (arith, prefix_nonempty v.compression h.1))

svs_reduce :
    (v : VectorAttrs) (o : Option ℤ)
    → (elim o as (λ _. Option SchemaError) [ none ↦ none | some r ↦ reduce_error v r ] ≡ none)
      ↔ ReduceFits v o
svs_reduce v none = (λ h. tt, λ h. refl)
svs_reduce v (some r) = reduce_error-none_iff v r

-- Normalized attributes pass the checks of SVS-VAMANA exactly if their type is one of two and a
-- reduction is below the dimensions and goes with a LeanVec compression.
svs_error-none_iff :
    (v : VectorAttrs)
    → (svs_error v ≡ none)
      ↔ ((has ("float16" ∷ "float32" ∷ []) v.datatype ≡ true) × ReduceFits v v.reduce)
unfolding svs_error has
svs_error-none_iff v = elim (Bool-cases (str_eq v.datatype "float16")) [
  | inl e ↦ rw e (λ h. (refl, (svs_reduce v v.reduce).0 h), λ h. (svs_reduce v v.reduce).1 h.1)
  | inr n ↦ elim (Bool-cases (str_eq v.datatype "float32")) [
    | inl e ↦
        rw (n, e) (λ h. (refl, (svs_reduce v v.reduce).0 h), λ h. (svs_reduce v v.reduce).1 h.1)
    | inr k ↦ rw (n, k) (λ h. cc, λ h. cc)
  ]
]

abbrev pub normal : VectorAttrs → VectorAttrs
normal v = record v {
  datatype = or_text (to_lower v.datatype) "float32";
  distance_metric = to_upper (or_text v.distance_metric "COSINE");
  algorithm = to_upper v.algorithm;
}

validate_checks :
    (v : VectorAttrs)
    → ((validate v).1 ≡ none) ↔ (
        (leb_ℤ v.dims (pos 0) ≡ false)
        × (has datatypes (normal v).datatype ≡ true)
        × (has metrics (normal v).distance_metric ≡ true)
        × (has algorithms (normal v).algorithm ≡ true)
        × (is_svs (normal v).algorithm ≡ true → svs_error (normal v) ≡ none))
unfolding validate
validate_checks v =
    (λ h. (ground arith, ground arith, ground arith, ground arith, ground arith), λ h. ground arith)

-- `Validate` accepts attributes exactly if the dimensions are positive; the data type, in lower case
-- and float32 by default, the metric, in upper case and COSINE by default, and the algorithm, in upper
-- case, are each one of those known; and, where the algorithm is SVS-VAMANA, the type is float16 or
-- float32 and a reduction, if there is one, is below the dimensions and goes with a LeanVec
-- compression.
pub validate-none_iff :
    (v : VectorAttrs)
    → ((validate v).1 ≡ none) ↔ (
        (leb_ℤ v.dims (pos 0) ≡ false)
        × (has datatypes (or_text (to_lower v.datatype) "float32") ≡ true)
        × (has metrics (to_upper (or_text v.distance_metric "COSINE")) ≡ true)
        × (has algorithms (to_upper v.algorithm) ≡ true)
        × (is_svs (to_upper v.algorithm) ≡ true
            → (has ("float16" ∷ "float32" ∷ []) (or_text (to_lower v.datatype) "float32") ≡ true)
              × ReduceFits v v.reduce))
validate-none_iff v =
    let checks = validate_checks v in
    let svs = svs_error-none_iff (normal v) in
    (
      λ h. let (p, d, m, a, s) = checks.0 h in (p, d, m, a, λ k. svs.0 (s k)),
      λ (p, d, m, a, s). checks.1 (p, d, m, a, λ k. svs.1 (s k)),
    )

-- Attributes whose texts are known, with positive dimensions, and whose algorithm is SVS-VAMANA
-- are checked by `svs_error`.
pub validate_svs :
    (v : VectorAttrs)
    → leb_ℤ v.dims (pos 0) ≡ false
    → has datatypes (or_text (to_lower v.datatype) "float32") ≡ true
    → has metrics (to_upper (or_text v.distance_metric "COSINE")) ≡ true
    → has algorithms (to_upper v.algorithm) ≡ true
    → is_svs (to_upper v.algorithm) ≡ true
    → validate v ≡ (normal v, svs_error (normal v))
unfolding validate
validate_svs v p d m a k = rw (p, d, m, a, k) refl

upper_cosine : has metrics (to_upper (or_text "" "COSINE")) ≡ true
unfolding to_upper has
upper_cosine = refl

upper_svs :
    (has algorithms (to_upper "SVS-VAMANA") ≡ true) × (is_svs (to_upper "SVS-VAMANA") ≡ true)
unfolding to_upper has
upper_svs = (refl, refl)

svs_datatypes : (d : String) → has ("float16" ∷ "float32" ∷ []) d ≡ true → has datatypes d ≡ true
unfolding has
svs_datatypes d h = ground arith

-- The attributes of an SVS-VAMANA field with the default metric pass if the dimensions are
-- positive, the data type is one of two and a reduction fits.
pub validate_svs_ok :
    (v : VectorAttrs)
    → leb_ℤ v.dims (pos 0) ≡ false
    → v.distance_metric ≡ ""
    → v.algorithm ≡ "SVS-VAMANA"
    → has ("float16" ∷ "float32" ∷ []) (or_text (to_lower v.datatype) "float32") ≡ true
    → ReduceFits v v.reduce
    → validate v ≡ (normal v, none)
validate_svs_ok v p m a d r =
    let upper : (s : String) → s ≡ "" → has metrics (to_upper (or_text s "COSINE")) ≡ true =
      λ s e. subst (λ t. has metrics (to_upper (or_text t "COSINE")) ≡ true) (sym e) upper_cosine in
    let whole =
      validate_svs v p (svs_datatypes (or_text (to_lower v.datatype) "float32") d)
        (upper v.distance_metric m)
        (subst (λ t. has algorithms (to_upper t) ≡ true) (sym a) upper_svs.0)
        (subst (λ t. is_svs (to_upper t) ≡ true) (sym a) upper_svs.1) in
    whole ∙ ap (λ e. (normal v, e)) ((svs_error-none_iff (normal v)).1 (d, r))
