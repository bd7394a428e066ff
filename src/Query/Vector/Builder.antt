-- ===== src/Query/Vector/Builder.antt =====
-- What holds of every KNN query that a chain of calls builds.
use mathlib.Core.Path.{subst}
use redis_vl_golang.Base.{
  ℕ, String, str_eq, str_eq_iff, ◌≡◌, ◌↔◌, refl, sym, ap, ◌∙◌, arith, Bool, true, false, not, ◌&&◌,
  ◌||◌, Bool-cases, inl, inr, Option, none, some, List, [], ◌∷◌, ◌++◌, has, ok, err, to_lower,
}
use redis_vl_golang.Base.Float.{Float64}
use redis_vl_golang.Vectors.Buffer.{
  invalid_data_type, Conversions, data_types, parse, to_buffer, encode_all,
}
use redis_vl_golang.Query.Options.{distance_id}
use redis_vl_golang.Query.Vector.{
  VectorQuery, bad_vector, set_dtype, after_parse, blob_of, Setter, dtype, filter, return_fields,
  no_return_score, num_results, paging, sort_by_field, dialect, in_order, set_hybrid_policy,
  batch_size, ef_runtime, search_window_size, use_search_history, search_buffer_capacity,
  normalize_vector_distance, set, set_all, new_vector_query, vector_blob, params, with_distance,
  without_distance,
}

-- The data type is one that the encoding knows, and the KNN count is the number of results asked
-- for.
pub record IsBuilt (q : VectorQuery) : Type 0 where
  pub known : has data_types (to_lower q.dtype) ≡ true
  pub same_count : q.num_results ≡ q.options.num

parse_known : (dt : String) → has data_types (to_lower dt) ≡ true → parse dt ≡ ok (to_lower dt)
unfolding parse
parse_known dt h = rw h refl

parse_unknown :
    (dt : String) → has data_types (to_lower dt) ≡ false → parse dt ≡ err (invalid_data_type dt)
unfolding parse
parse_unknown dt h = rw h refl

set_dtype_known :
    (dt : String) (q : VectorQuery)
    → has data_types (to_lower dt) ≡ true
    → set_dtype dt q ≡ record q { dtype = dt }
unfolding set_dtype
set_dtype_known dt q h = ap (after_parse dt q) (parse_known dt h)

set_dtype_unknown :
    (dt : String) (q : VectorQuery)
    → has data_types (to_lower dt) ≡ false
    → set_dtype dt q ≡ record q { error = some (bad_vector (invalid_data_type dt)) }
unfolding set_dtype
set_dtype_unknown dt q h = ap (after_parse dt q) (parse_unknown dt h)

set-IsBuilt : (s : Setter) (q : VectorQuery) → IsBuilt q → IsBuilt (set s q)
unfolding set
set-IsBuilt (dtype dt) q b = elim (Bool-cases (has data_types (to_lower dt))) [
  | inl e ↦
      subst IsBuilt (sym (set_dtype_known dt q e)) record { known = e; same_count = b.same_count }
  | inr e ↦
      subst IsBuilt (sym (set_dtype_unknown dt q e))
        record { known = b.known; same_count = b.same_count }
]
set-IsBuilt (filter f) q b = record { known = b.known; same_count = b.same_count }
set-IsBuilt (return_fields fs) q b = record { known = b.known; same_count = b.same_count }
set-IsBuilt no_return_score q b = record { known = b.known; same_count = b.same_count }
set-IsBuilt (num_results k) q b = record { known = b.known; same_count = refl }
set-IsBuilt (paging o n) q b = record { known = b.known; same_count = refl }
set-IsBuilt (sort_by_field f asc) q b = record { known = b.known; same_count = b.same_count }
set-IsBuilt (dialect d) q b = record { known = b.known; same_count = b.same_count }
set-IsBuilt in_order q b = record { known = b.known; same_count = b.same_count }
set-IsBuilt (set_hybrid_policy p) q b = record { known = b.known; same_count = b.same_count }
set-IsBuilt (batch_size n) q b = record { known = b.known; same_count = b.same_count }
set-IsBuilt (ef_runtime n) q b = record { known = b.known; same_count = b.same_count }
set-IsBuilt (search_window_size n) q b = record { known = b.known; same_count = b.same_count }
set-IsBuilt (use_search_history v) q b = record { known = b.known; same_count = b.same_count }
set-IsBuilt (search_buffer_capacity n) q b = record { known = b.known; same_count = b.same_count }
set-IsBuilt normalize_vector_distance q b = record { known = b.known; same_count = b.same_count }

-- Every call keeps the data type known and the KNN count equal to the number of results.
set_all-IsBuilt : (ss : List Setter) (q : VectorQuery) → IsBuilt q → IsBuilt (set_all ss q)
unfolding set_all
set_all-IsBuilt [] q b = b
set_all-IsBuilt (s ∷ ss) q b = set_all-IsBuilt ss (set s q) (set-IsBuilt s q b)

new-IsBuilt : (f : String) (v : List Float64) → IsBuilt (new_vector_query f v)
unfolding new_vector_query has to_lower
new-IsBuilt f v = record { known = refl; same_count = refl }

to_buffer_known :
    (c : Conversions) (v : List Float64) (dt : String)
    → has data_types (to_lower dt) ≡ true
    → to_buffer c v dt ≡ ok (encode_all c (to_lower dt) v)
unfolding to_buffer
to_buffer_known c v dt h = rw (h, h) refl

vector_blob_known :
    (c : Conversions) (q : VectorQuery) (given : Option (List ℕ))
    → has data_types (to_lower q.dtype) ≡ true
    → (blob_of q given (to_buffer c q.vector q.dtype)).1 ≡ q
vector_blob_known c q (some bytes) h = refl
vector_blob_known c q none h = ap (λ r. (blob_of q none r).1) (to_buffer_known c q.vector q.dtype h)

-- `Params` leaves the query as it is, without an error of the encoding, whatever calls built it.
pub params-set_all :
    (c : Conversions) (f : String) (v : List Float64) (ss : List Setter)
    → (params c (set_all ss (new_vector_query f v))).1 ≡ set_all ss (new_vector_query f v)
unfolding params vector_blob
params-set_all c f v ss =
    vector_blob_known c (set_all ss (new_vector_query f v))
      (set_all ss (new_vector_query f v)).vector_bytes
      (set_all-IsBuilt ss (new_vector_query f v) (new-IsBuilt f v)).known

pub known_type : Setter → Bool
known_type (dtype dt) = has data_types (to_lower dt)
known_type s = true

unfoldable pub all_known : List Setter → Bool
unfolding known_type
all_known [] = true
all_known (s ∷ ss) = known_type s && all_known ss

error-set :
    (s : Setter) (q : VectorQuery)
    → ((set s q).error ≡ none) ↔ ((q.error ≡ none) × (known_type s ≡ true))
unfolding set known_type
error-set (dtype dt) q = elim (Bool-cases (has data_types (to_lower dt))) [
  | inl e ↦
      let same : (set_dtype dt q).error ≡ q.error = ap (λ q. q.error) (set_dtype_known dt q e) in
      (λ h. (sym same ∙ h, e), λ h. same ∙ h.0)
  | inr e ↦
      let bad : (set_dtype dt q).error ≡ some (bad_vector (invalid_data_type dt)) =
        ap (λ q. q.error) (set_dtype_unknown dt q e) in
      (λ h. cc, λ h. cc)
]
error-set (filter f) q = (λ h. (h, refl), λ h. h.0)
error-set (return_fields fs) q = (λ h. (h, refl), λ h. h.0)
error-set no_return_score q = (λ h. (h, refl), λ h. h.0)
error-set (num_results k) q = (λ h. (h, refl), λ h. h.0)
error-set (paging o n) q = (λ h. (h, refl), λ h. h.0)
error-set (sort_by_field f asc) q = (λ h. (h, refl), λ h. h.0)
error-set (dialect d) q = (λ h. (h, refl), λ h. h.0)
error-set in_order q = (λ h. (h, refl), λ h. h.0)
error-set (set_hybrid_policy p) q = (λ h. (h, refl), λ h. h.0)
error-set (batch_size n) q = (λ h. (h, refl), λ h. h.0)
error-set (ef_runtime n) q = (λ h. (h, refl), λ h. h.0)
error-set (search_window_size n) q = (λ h. (h, refl), λ h. h.0)
error-set (use_search_history v) q = (λ h. (h, refl), λ h. h.0)
error-set (search_buffer_capacity n) q = (λ h. (h, refl), λ h. h.0)
error-set normalize_vector_distance q = (λ h. (h, refl), λ h. h.0)

-- The error of a query whose calls are done is none exactly if it was none before and each data
-- type set is known.
pub error-set_all :
    (ss : List Setter) (q : VectorQuery)
    → ((set_all ss q).error ≡ none) ↔ ((q.error ≡ none) × (all_known ss ≡ true))
unfolding set_all all_known
error-set_all [] q = (λ h. (h, refl), λ h. h.0)
error-set_all (s ∷ ss) q =
    let now = error-set s q in
    let after = error-set_all ss (set s q) in
    (
      λ h. ((now.0 (after.0 h).0).0, ground (arith, (now.0 (after.0 h).0).1, (after.0 h).1)),
      λ h. after.1 (now.1 (h.0, ground (arith, h.1)), ground (arith, h.1)),
    )

has-append : (xs ys : List String) (s : String) → has (xs ++ ys) s ≡ (has xs s || has ys s)
unfolding has
has-append [] ys s = refl
has-append (x ∷ xs) ys s = ground (arith, has-append xs ys s)

has-without_distance :
    (fs : List String) (s : String)
    → has (without_distance fs) s ≡ (has fs s && not (str_eq s distance_id))
unfolding has without_distance
has-without_distance [] s = refl
has-without_distance (f ∷ fs) s = ground (
  arith,
  has-without_distance fs s,
  str_eq_iff f distance_id,
  str_eq_iff s distance_id,
  str_eq_iff s f,
)

one_has : (b : Bool) (s : String) → (b || has (distance_id ∷ []) s) ≡ (b || str_eq s distance_id)
unfolding has
one_has b s = ground arith

has-with_distance :
    (fs : List String) (s : String) → has (with_distance fs) s ≡ (has fs s || str_eq s distance_id)
unfolding with_distance
has-with_distance fs s = elim (Bool-cases (has fs distance_id)) [
  | inl e ↦ elim (Bool-cases (str_eq s distance_id)) [
    | inl k ↦
        let there : has fs s ≡ true =
          subst (λ t. has fs t ≡ true) (sym ((str_eq_iff s distance_id).0 k)) e in
        rw (e, there) refl
    | inr k ↦ rw (e, k) (ground arith)
  ]
  | inr e ↦ rw e (has-append fs (distance_id ∷ []) s ∙ one_has (has fs s) s)
]

-- The fields that `ReturnFields` leaves are those given and the distance; `NoReturnScore` takes away
-- the distance and nothing else.
without_distance-with_distance :
    (fs : List String) (s : String)
    → (has (with_distance fs) s ≡ (has fs s || str_eq s distance_id))
      × (has (without_distance (with_distance fs)) s ≡ (has fs s && not (str_eq s distance_id)))
without_distance-with_distance fs s = (
  has-with_distance fs s,
  ground (arith, has-without_distance (with_distance fs) s, has-with_distance fs s),
)
