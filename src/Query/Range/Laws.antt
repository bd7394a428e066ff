-- ===== src/Query/Range/Laws.antt =====
-- What the range query's command says of its filter and its policy.
use redis_vl_golang.Base.{
  ℕ, String, str_eq, str_eq_iff, ◌≡◌, refl, Bool, true, false, Option, none, some, List, [], ◌∷◌,
  has, to_lower, ap, ok, ◌&&◌, if◌then◌else◌, Bool-cases, inl, inr,
}
use redis_vl_golang.Base.Int.{pos, ltb_ℤ}
use redis_vl_golang.Base.Dict.{lookup}
use redis_vl_golang.Command.{str, int, float, blob}
use redis_vl_golang.Base.Float.{Float64}
use redis_vl_golang.Vectors.Buffer.{Conversions, data_types, parse, to_buffer, encode_all}
use redis_vl_golang.Query.Options.{Floats}
use redis_vl_golang.Query.Range.{
  VectorRangeQuery, RangeSetter, distance_threshold, epsilon, dtype, filter, return_fields,
  num_results, sort_by_field, dialect, in_order, set_hybrid_policy, batch_size, search_window_size,
  use_search_history, search_buffer_capacity, normalize_vector_distance, after_parse, blob_of,
  threshold_of, policy_params, set_range, set_range_all, new_range_query, range_params, range_blob,
}

to_buffer_known :
    (c : Conversions) (v : List Float64) (dt : String)
    → has data_types (to_lower dt) ≡ true
    → to_buffer c v dt ≡ ok (encode_all c (to_lower dt) v)
unfolding to_buffer parse
to_buffer_known c v dt h = rw (h, h) refl

known_after :
    (dt : String) (q : VectorRangeQuery) (b : Bool)
    → has data_types (to_lower dt) ≡ b
    → has data_types (to_lower q.dtype) ≡ true
    → has data_types (to_lower (after_parse dt q (parse dt)).dtype) ≡ true
unfolding parse
known_after dt q true e h = rw e e
known_after dt q false e h = rw e h

-- The data type of a range query is one that the encoding knows after every chain of calls.
pub set_range_all-known :
    (ss : List RangeSetter) (q : VectorRangeQuery)
    → has data_types (to_lower q.dtype) ≡ true
    → has data_types (to_lower (set_range_all ss q).dtype) ≡ true
unfolding set_range_all set_range
set_range_all-known [] q h = h
set_range_all-known (dtype dt ∷ ss) q h =
    set_range_all-known ss (set_range (dtype dt) q)
      (known_after dt q (has data_types (to_lower dt)) refl h)
set_range_all-known (distance_threshold t ∷ ss) q h =
    set_range_all-known ss (set_range (distance_threshold t) q) h
set_range_all-known (epsilon e ∷ ss) q h = set_range_all-known ss (set_range (epsilon e) q) h
set_range_all-known (filter e ∷ ss) q h = set_range_all-known ss (set_range (filter e) q) h
set_range_all-known (return_fields fs ∷ ss) q h =
    set_range_all-known ss (set_range (return_fields fs) q) h
set_range_all-known (num_results k ∷ ss) q h =
    set_range_all-known ss (set_range (num_results k) q) h
set_range_all-known (sort_by_field g asc ∷ ss) q h =
    set_range_all-known ss (set_range (sort_by_field g asc) q) h
set_range_all-known (dialect d ∷ ss) q h = set_range_all-known ss (set_range (dialect d) q) h
set_range_all-known (in_order ∷ ss) q h = set_range_all-known ss (set_range in_order q) h
set_range_all-known (set_hybrid_policy p ∷ ss) q h =
    set_range_all-known ss (set_range (set_hybrid_policy p) q) h
set_range_all-known (batch_size n ∷ ss) q h = set_range_all-known ss (set_range (batch_size n) q) h
set_range_all-known (search_window_size n ∷ ss) q h =
    set_range_all-known ss (set_range (search_window_size n) q) h
set_range_all-known (use_search_history v ∷ ss) q h =
    set_range_all-known ss (set_range (use_search_history v) q) h
set_range_all-known (search_buffer_capacity n ∷ ss) q h =
    set_range_all-known ss (set_range (search_buffer_capacity n) q) h
set_range_all-known (normalize_vector_distance ∷ ss) q h =
    set_range_all-known ss (set_range normalize_vector_distance q) h

new_known :
    (name : String) (v : List Float64)
    → has data_types (to_lower (new_range_query name v).dtype) ≡ true
unfolding new_range_query has to_lower
new_known name v = refl

range_blob_known :
    (c : Conversions) (q : VectorRangeQuery) (given : Option (List ℕ))
    → has data_types (to_lower q.dtype) ≡ true
    → (blob_of q given (to_buffer c q.vector q.dtype)).1 ≡ q
range_blob_known c q (some bytes) h = refl
range_blob_known c q none h = ap (λ r. (blob_of q none r).1) (to_buffer_known c q.vector q.dtype h)

-- `Params` of a range query leaves it as it is, without an error of the encoding, whatever calls
-- built it.
pub range_params-set_range_all :
    (f : Floats) (c : Conversions) (name : String) (v : List Float64) (ss : List RangeSetter)
    → (range_params f c (set_range_all ss (new_range_query name v))).1
      ≡ set_range_all ss (new_range_query name v)
unfolding range_params range_blob
range_params-set_range_all f c name v ss =
    range_blob_known c (set_range_all ss (new_range_query name v))
      (set_range_all ss (new_range_query name v)).vector_bytes
      (set_range_all-known ss (new_range_query name v) (new_known name v))

-- The parameters of a range query: the vector and the threshold are always there, the policy if
-- one is set, and the batch size if the policy is BATCHES and the size positive.
lookup-range_params :
    (f : Floats) (c : Conversions) (q : VectorRangeQuery)
    → let params = (range_params f c q).0 in
      (lookup "vector" params ≡ some (blob (range_blob f c q).0))
      × (lookup "distance_threshold" params ≡ some (float (threshold_of f c q)))
      × (lookup "HYBRID_POLICY" params
          ≡ (if str_eq q.hybrid_policy "" then none else some (str q.hybrid_policy)))
      × (lookup "BATCH_SIZE" params ≡ (
          if str_eq q.hybrid_policy "BATCHES" && ltb_ℤ (pos 0) q.batch_size
          then some (int q.batch_size)
          else none))
unfolding range_params policy_params lookup
lookup-range_params f c q = elim (Bool-cases (str_eq q.hybrid_policy "")) [
  | inl e ↦
      let b : str_eq q.hybrid_policy "BATCHES" ≡ false =
        ap (λ p. str_eq p "BATCHES") ((str_eq_iff q.hybrid_policy "").0 e) in
      (refl, refl, rw e refl, rw (e, b) refl)
  | inr e ↦ elim (Bool-cases (str_eq q.hybrid_policy "BATCHES" && ltb_ℤ (pos 0) q.batch_size)) [
    | inl b ↦ (refl, refl, rw e refl, rw (e, b) refl)
    | inr b ↦ (refl, refl, rw e refl, rw (e, b) refl)
  ]
]
