-- ===== src/Query/Range.antt =====
-- query/range.go: the vector range query. The calls that build one are those of the KNN query but
-- for the threshold, epsilon and the paging.
pub mod Laws
use redis_vl_golang.Base.{
  ℕ, String, ◌<>◌, str_eq, Bool, true, false, not, ◌&&◌, Option, none, some, List, [], ◌∷◌, ◌++◌,
  to_upper, join, Result, ok, err, show_int, if◌then◌else◌,
}
use redis_vl_golang.Base.Int.{ℤ, pos, ltb_ℤ}
use redis_vl_golang.Base.Float.{Float64, fifth_f}
use redis_vl_golang.Base.Dict.{Dict}
use redis_vl_golang.Command.{Arg, str, int, float, blob}
use redis_vl_golang.Filter.Expression.{Expression, nil, err_of}
use redis_vl_golang.Query.Options.{
  SortBy, Options, Query, Floats, filter_string, distance_id, denorm_cosine_distance,
}
use redis_vl_golang.Query.Vector.{
  QueryError, bad_vector, bad_filter, vector_options, with_distance, entry,
}
use redis_vl_golang.Vectors.Buffer.{VectorError, Conversions, parse, to_buffer}

pub record VectorRangeQuery : Type 0 where
  pub options : Options
  pub error : Option QueryError
  pub field_name : String
  pub vector : List Float64
  pub vector_bytes : Option (List ℕ)
  pub dtype : String
  pub filter : Expression
  pub distance_threshold : Float64
  pub epsilon : Option Float64
  pub hybrid_policy : String
  pub batch_size : ℤ
  pub search_window_size : ℤ
  pub use_search_history : String
  pub search_buffer_capacity : ℤ
  pub normalize_distance : Bool

unfoldable pub new_range_query : String → List Float64 → VectorRangeQuery
new_range_query field_name vector = record {
  options = vector_options;
  error = none;
  field_name = field_name;
  vector = vector;
  vector_bytes = none;
  dtype = "float32";
  filter = nil;
  distance_threshold = fifth_f;
  epsilon = none;
  hybrid_policy = "";
  batch_size = pos 0;
  search_window_size = pos 0;
  use_search_history = "";
  search_buffer_capacity = pos 0;
  normalize_distance = false;
}

unfoldable pub new_range_query_from_bytes : String → Option (List ℕ) → VectorRangeQuery
unfolding new_range_query
new_range_query_from_bytes field_name bytes = record (new_range_query field_name []) {
  vector_bytes = bytes;
}

-- `Dtype`, by what `vectors.Parse` returns.
abbrev pub after_parse : String → VectorRangeQuery → Result VectorError String → VectorRangeQuery
after_parse dt q (ok _) = record q { dtype = dt }
after_parse dt q (err e) = record q { error = some (bad_vector e) }

-- The methods that set fields, with their arguments.
pub data RangeSetter : Type 0 where
  distance_threshold epsilon : Float64 → RangeSetter
  dtype : String → RangeSetter
  filter : Expression → RangeSetter
  return_fields : List String → RangeSetter
  num_results : ℤ → RangeSetter
  sort_by_field : String → Bool → RangeSetter
  dialect : ℤ → RangeSetter
  in_order : RangeSetter
  set_hybrid_policy : String → RangeSetter
  batch_size search_window_size : ℤ → RangeSetter
  use_search_history : String → RangeSetter
  search_buffer_capacity : ℤ → RangeSetter
  normalize_vector_distance : RangeSetter

unfoldable pub set_range : RangeSetter → VectorRangeQuery → VectorRangeQuery
set_range (distance_threshold t) q = record q { distance_threshold = t }
set_range (epsilon e) q = record q { epsilon = some e }
set_range (dtype dt) q = after_parse dt q (parse dt)
set_range (filter f) q = record q { filter = f }
set_range (return_fields fs) q = record q {
  options = record q.options { return_fields = with_distance fs };
}
set_range (num_results k) q = record q { options = record q.options { num = k } }
set_range (sort_by_field f asc) q = record q {
  options = record q.options { sort_by = some record { field = f; asc = asc } };
}
set_range (dialect d) q = record q { options = record q.options { dialect = d } }
set_range in_order q = record q { options = record q.options { in_order = true } }
set_range (set_hybrid_policy p) q = record q { hybrid_policy = p }
set_range (batch_size n) q = record q { batch_size = n }
set_range (search_window_size n) q = record q { search_window_size = n }
set_range (use_search_history v) q = record q { use_search_history = to_upper v }
set_range (search_buffer_capacity n) q = record q { search_buffer_capacity = n }
set_range normalize_vector_distance q = record q { normalize_distance = true }

unfoldable pub set_range_all : List RangeSetter → VectorRangeQuery → VectorRangeQuery
unfolding set_range
set_range_all [] q = q
set_range_all (s ∷ ss) q = set_range_all ss (set_range s q)

-- `Err`
unfoldable pub range_err : VectorRangeQuery → Option QueryError
range_err q = elim q.error [
  | some e ↦ some e
  | none ↦ elim (err_of q.filter) [ some e ↦ some (bad_filter e) | none ↦ none ]
]

-- The bytes given, or else what `vectors.ToBuffer` returns.
abbrev pub blob_of :
    VectorRangeQuery → Option (List ℕ) → Result VectorError (List ℕ) → List ℕ × VectorRangeQuery
blob_of q (some bytes) encoded = (bytes, q)
blob_of q none (ok bytes) = (bytes, q)
blob_of q none (err e) = ([], record q { error = some (bad_vector e) })

abbrev pub one : Bool → String → List String
one test s = if test then s ∷ [] else []

abbrev pub epsilon_attr : (Float64 → String) → Option Float64 → List String
epsilon_attr format none = []
epsilon_attr format (some e) = ("$EPSILON: " <> format e) ∷ []

module _ (f : Floats) where
  unfoldable pub attributes : VectorRangeQuery → List String
  attributes q =
      ("$YIELD_DISTANCE_AS: " <> distance_id)
      ∷ (epsilon_attr f.format_float q.epsilon
          ++ (one (ltb_ℤ (pos 0) q.search_window_size)
                ("$SEARCH_WINDOW_SIZE: " <> show_int q.search_window_size)
              ++ (one (not (str_eq q.use_search_history ""))
                    ("$USE_SEARCH_HISTORY: " <> q.use_search_history)
                  ++ one (ltb_ℤ (pos 0) q.search_buffer_capacity)
                      ("$SEARCH_BUFFER_CAPACITY: " <> show_int q.search_buffer_capacity))))

  unfoldable pub range_query_string : VectorRangeQuery → String
  range_query_string q =
      let base = "@" <> (q.field_name <> ":[VECTOR_RANGE $distance_threshold $vector]") in
      let section = "=>{" <> (join "; " (attributes q) <> "}") in
      if str_eq (filter_string q.filter) "*"
      then base <> section
      else "(" <> (base <> (section <> (" " <> (filter_string q.filter <> ")"))))

  -- `Params`, with the receiver that it leaves: an error of the encoding is recorded in it.
  module _ (c : Conversions) where
    unfoldable pub range_blob : VectorRangeQuery → List ℕ × VectorRangeQuery
    range_blob q = blob_of q q.vector_bytes (to_buffer c q.vector q.dtype)

    unfoldable pub threshold_of : VectorRangeQuery → Float64
    threshold_of q =
        if q.normalize_distance
        then denorm_cosine_distance f q.distance_threshold
        else q.distance_threshold

    unfoldable pub policy_params : VectorRangeQuery → Dict Arg
    policy_params q =
        if not (str_eq q.hybrid_policy "")
        then ("HYBRID_POLICY", str q.hybrid_policy)
          ∷ entry (str_eq q.hybrid_policy "BATCHES" && ltb_ℤ (pos 0) q.batch_size) "BATCH_SIZE"
              (int q.batch_size)
        else []

    unfoldable pub range_params : VectorRangeQuery → Dict Arg × VectorRangeQuery
    range_params q = (
      ("vector", blob (range_blob q).0)
          ∷ ("distance_threshold", float (threshold_of q))
          ∷ policy_params q,
      (range_blob q).1,
    )

    unfoldable pub to_range_query : VectorRangeQuery → Query
    to_range_query q = record {
      query_string = range_query_string q;
      params = (range_params q).0;
      options = q.options;
    }
