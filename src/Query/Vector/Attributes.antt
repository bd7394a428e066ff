-- ===== src/Query/Vector/Attributes.antt =====
-- The placeholders of a KNN query and its PARAMS.
use redis_vl_golang.Base.{
  String, ◌<>◌, str_eq, ◌≡◌, refl, Bool-cases, inl, inr, List, [], ◌∷◌, if◌then◌else◌,
}
use redis_vl_golang.Base.Int.{pos, ltb_ℤ}
use redis_vl_golang.Base.Dict.{Dict, keys}
use redis_vl_golang.Command.{Arg}
use redis_vl_golang.Vectors.Buffer.{Conversions}
use redis_vl_golang.Query.Options.{filter_string}
use redis_vl_golang.Query.Vector.{VectorQuery, knn_head, policy_piece, query_string, params}

-- The attribute that uses a parameter: its name, which is the parameter's but for EF, and the
-- placeholder.
abbrev pub use_of : String → String
use_of k = if str_eq k "EF" then " EF_RUNTIME $EF" else " " <> (k <> (" $" <> k))

pub uses : List String → String
uses [] = " AS vector_distance]"
uses (k ∷ ks) = use_of k <> uses ks

pub later : Dict Arg → List String
unfolding keys
later [] = []
later (p ∷ ps) = keys ps

-- The query string names each parameter that is sent, but for the vector, in one attribute with its
-- placeholder, in the order of the parameters, and no other.
pub query_string-params :
    (c : Conversions) (q : VectorQuery)
    → query_string q
      ≡ filter_string q.filter
        <> ("=>[" <> (knn_head q <> policy_piece q (uses (later (params c q).0))))
unfolding query_string params uses later keys
query_string-params c q = elim (Bool-cases (ltb_ℤ (pos 0) q.ef_runtime)) [
  | inl a ↦ elim (Bool-cases (ltb_ℤ (pos 0) q.search_window_size)) [
    | inl b ↦ elim (Bool-cases (str_eq q.use_search_history "")) [
      | inl e ↦ elim (Bool-cases (ltb_ℤ (pos 0) q.search_buffer_capacity)) [
        | inl d ↦ rw (a, b, e, d) refl
        | inr d ↦ rw (a, b, e, d) refl
      ]
      | inr e ↦ elim (Bool-cases (ltb_ℤ (pos 0) q.search_buffer_capacity)) [
        | inl d ↦ rw (a, b, e, d) refl
        | inr d ↦ rw (a, b, e, d) refl
      ]
    ]
    | inr b ↦ elim (Bool-cases (str_eq q.use_search_history "")) [
      | inl e ↦ elim (Bool-cases (ltb_ℤ (pos 0) q.search_buffer_capacity)) [
        | inl d ↦ rw (a, b, e, d) refl
        | inr d ↦ rw (a, b, e, d) refl
      ]
      | inr e ↦ elim (Bool-cases (ltb_ℤ (pos 0) q.search_buffer_capacity)) [
        | inl d ↦ rw (a, b, e, d) refl
        | inr d ↦ rw (a, b, e, d) refl
      ]
    ]
  ]
  | inr a ↦ elim (Bool-cases (ltb_ℤ (pos 0) q.search_window_size)) [
    | inl b ↦ elim (Bool-cases (str_eq q.use_search_history "")) [
      | inl e ↦ elim (Bool-cases (ltb_ℤ (pos 0) q.search_buffer_capacity)) [
        | inl d ↦ rw (a, b, e, d) refl
        | inr d ↦ rw (a, b, e, d) refl
      ]
      | inr e ↦ elim (Bool-cases (ltb_ℤ (pos 0) q.search_buffer_capacity)) [
        | inl d ↦ rw (a, b, e, d) refl
        | inr d ↦ rw (a, b, e, d) refl
      ]
    ]
    | inr b ↦ elim (Bool-cases (str_eq q.use_search_history "")) [
      | inl e ↦ elim (Bool-cases (ltb_ℤ (pos 0) q.search_buffer_capacity)) [
        | inl d ↦ rw (a, b, e, d) refl
        | inr d ↦ rw (a, b, e, d) refl
      ]
      | inr e ↦ elim (Bool-cases (ltb_ℤ (pos 0) q.search_buffer_capacity)) [
        | inl d ↦ rw (a, b, e, d) refl
        | inr d ↦ rw (a, b, e, d) refl
      ]
    ]
  ]
]
