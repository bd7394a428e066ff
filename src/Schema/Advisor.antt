-- ===== src/Schema/Advisor.antt =====
-- schema/advisor.go: `RecommendCompression`. The estimate of the savings is float arithmetic and is
-- not modelled.
use mathlib.Core.Path.{subst, sym}
use redis_vl_golang.Base.{
  ℕ, ◌/◌, ◌<◌, ◌≡◌, ◌⊎◌, refl, ap, arith, String, str_eq, str_eq_iff, true, false, Option, none,
  some, [], ◌∷◌, has, Result, ok, err, to_lower, has_prefix, if◌then◌else◌, ltb, leb, Bool-cases,
  inl, inr,
}
use redis_vl_golang.Base.Int.{ℤ, pos, pos_part, leb_ℤ}
use redis_vl_golang.Schema.Attrs.{or_text, VectorAttrs, SchemaError, dims_not_positive, validate}
use redis_vl_golang.Schema.Attrs.Laws.{
  normal, IsReady, ReduceFits, validate_svs_ok, validate-IsReady,
}

abbrev pub none_set : ℤ → String → VectorAttrs
none_set dims datatype = record {
  dims = dims;
  algorithm = "SVS-VAMANA";
  datatype = datatype;
  distance_metric = "";
  initial_cap = none;
  index_missing = false;
  block_size = none;
  m = none;
  ef_construction = none;
  ef_runtime = none;
  epsilon = none;
  graph_max_degree = none;
  construction_window_size = none;
  search_window_size = none;
  compression = "";
  reduce = none;
  training_threshold = none;
}

-- `dims` is positive where it is divided, so that Go's quotient is that of ℕ.
high_attrs : ℕ → String → String → VectorAttrs
high_attrs dims priority dt =
    let base = record (none_set (pos dims) (if str_eq dt "" then "float16" else dt)) {
      graph_max_degree = some (pos 64);
      construction_window_size = some (pos 300);
      compression = "LeanVec4x8";
    } in
    if str_eq priority "memory"
    then record base { reduce = some (pos (dims / 2)); search_window_size = some (pos 20) }
    else if str_eq priority "speed"
    then record base {
      reduce = some (pos (if ltb (dims / 4) 256 then 256 else dims / 4));
      search_window_size = some (pos 40);
    }
    else record base { reduce = some (pos (dims / 2)); search_window_size = some (pos 30) }

low_attrs : ℕ → String → String → VectorAttrs
low_attrs dims priority dt =
    let base = record (none_set (pos dims) (if str_eq dt "" then "float32" else dt)) {
      graph_max_degree = some (pos 40);
      construction_window_size = some (pos 250);
      search_window_size = some (pos 20);
    } in
    if str_eq priority "memory"
    then record base { compression = "LVQ4" }
    else if str_eq priority "speed"
    then record base { compression = "LVQ4x8" }
    else record base { compression = "LVQ4x4" }

pub advised : ℤ → String → String → VectorAttrs
unfolding high_attrs low_attrs
advised dims priority dt =
    if leb 1024 (pos_part dims)
    then high_attrs (pos_part dims) priority dt
    else low_attrs (pos_part dims) priority dt

-- `datatype` is the optional argument, "" if it is absent.
unfoldable pub recommend_compression : ℤ → String → String → Result SchemaError VectorAttrs
recommend_compression dims priority datatype =
    if leb_ℤ dims (pos 0)
    then err (dims_not_positive dims)
    else elim (validate (advised dims priority datatype)).1 [
      | some e ↦ err e
      | none ↦ ok (validate (advised dims priority datatype)).0
    ]

module _ (d : ℕ) (priority datatype : String) where
  abbrev advice : VectorAttrs
  advice = advised (pos d) priority datatype

  advice_fixed :
      (advice.dims ≡ pos d) × (advice.distance_metric ≡ "") × (advice.algorithm ≡ "SVS-VAMANA")
  unfolding advised high_attrs low_attrs
  advice_fixed = (ground arith, ground arith, ground arith)

  advice-ReduceFits : ReduceFits advice advice.reduce
  unfolding advised high_attrs low_attrs has_prefix
  advice-ReduceFits = elim (Bool-cases (leb 1024 d)) [
    | inl h ↦ elim (Bool-cases (str_eq priority "memory")) [
      | inl e ↦ rw (h, e) (ground arith, refl)
      | inr e ↦ elim (Bool-cases (str_eq priority "speed")) [
        | inl k ↦ rw (h, e, k) (ground arith, refl)
        | inr k ↦ rw (h, e, k) (ground arith, refl)
      ]
    ]
    | inr h ↦ elim (Bool-cases (str_eq priority "memory")) [
      | inl e ↦ rw (h, e) tt
      | inr e ↦ elim (Bool-cases (str_eq priority "speed")) [
        | inl k ↦ rw (h, e, k) tt
        | inr k ↦ rw (h, e, k) tt
      ]
    ]
  ]

  asked : String
  asked = if str_eq datatype "" then (if leb 1024 d then "float16" else "float32") else datatype

  advice_asked : advice.datatype ≡ asked
  unfolding advised high_attrs low_attrs asked
  advice_asked = elim (Bool-cases (leb 1024 d)) [
    | inl h ↦ elim (Bool-cases (str_eq priority "memory")) [
      | inl e ↦ rw (h, e) refl
      | inr e ↦ elim (Bool-cases (str_eq priority "speed")) [
        | inl k ↦ rw (h, e, k) refl
        | inr k ↦ rw (h, e, k) refl
      ]
    ]
    | inr h ↦ elim (Bool-cases (str_eq priority "memory")) [
      | inl e ↦ rw (h, e) refl
      | inr e ↦ elim (Bool-cases (str_eq priority "speed")) [
        | inl k ↦ rw (h, e, k) refl
        | inr k ↦ rw (h, e, k) refl
      ]
    ]
  ]

  asked_text :
      has ("" ∷ "float16" ∷ "float32" ∷ []) datatype ≡ true
      → (asked ≡ "float16") ⊎ (asked ≡ "float32")
  unfolding has asked
  asked_text h = ground (
    arith,
    str_eq_iff datatype "float16",
    str_eq_iff datatype "float32",
    str_eq_iff datatype "",
    Bool-cases (leb 1024 d),
  )

svs_lower :
    (s : String)
    → (s ≡ "float16") ⊎ (s ≡ "float32")
    → has ("float16" ∷ "float32" ∷ []) (or_text (to_lower s) "float32") ≡ true
unfolding has to_lower
svs_lower s (inl e) =
    subst (λ t. has ("float16" ∷ "float32" ∷ []) (or_text (to_lower t) "float32") ≡ true) (sym e)
      refl
svs_lower s (inr e) =
    subst (λ t. has ("float16" ∷ "float32" ∷ []) (or_text (to_lower t) "float32") ≡ true) (sym e)
      refl

recommend_valid :
    (d : ℕ) (priority datatype : String) (w : VectorAttrs)
    → 0 < d
    → validate (advice d priority datatype) ≡ (w, none)
    → recommend_compression (pos d) priority datatype ≡ ok w
unfolding recommend_compression
recommend_valid d priority datatype w h e =
    let positive : leb_ℤ (pos d) (pos 0) ≡ false = ground arith in
    let outcome : VectorAttrs × Option SchemaError → Result SchemaError VectorAttrs =
      λ p. elim p.1 [ some e ↦ err e | none ↦ ok p.0 ] in
    rw positive (ap outcome e)

-- For positive dimensions, any priority and the data type float16, float32 or none, the advice is
-- given. It is valid, has the dimensions asked for, and a reduction in it is below them.
pub recommend_compression-IsReady :
    (d : ℕ) (priority datatype : String)
    → 0 < d
    → has ("" ∷ "float16" ∷ "float32" ∷ []) datatype ≡ true
    → (v : VectorAttrs) × (recommend_compression (pos d) priority datatype ≡ ok v)
      × IsReady v
      × (v.dims ≡ pos d)
      × ReduceFits v v.reduce
recommend_compression-IsReady d priority datatype h k =
    let fixed = advice_fixed d priority datatype in
    let positive : leb_ℤ (advice d priority datatype).dims (pos 0) ≡ false =
      subst (λ x. leb_ℤ x (pos 0) ≡ false) (sym fixed.0) (ground arith) in
    let fits = advice-ReduceFits d priority datatype in
    let valid =
      validate_svs_ok (advice d priority datatype) positive fixed.1 fixed.2
        (subst (λ s. has ("float16" ∷ "float32" ∷ []) (or_text (to_lower s) "float32") ≡ true)
          (sym (advice_asked d priority datatype))
          (svs_lower (asked d priority datatype) (asked_text d priority datatype k)))
        fits in
    (
      normal (advice d priority datatype),
      recommend_valid d priority datatype (normal (advice d priority datatype)) h valid,
      subst (λ p. IsReady p.0) valid
          (validate-IsReady (advice d priority datatype) (ap (λ p. p.1) valid)),
      fixed.0,
      fits,
    )
