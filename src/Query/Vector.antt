-- ===== src/Query/Vector.antt =====
-- query/vector.go: the KNN query. Its methods set the receiver's fields and return it: each is here
-- a function from query to query, and a chain of calls a list of `Setter`s.
--
-- `UseSearchHistory` leaves letters beyond ASCII as they are (`to_upper`). A slice that is nil is
-- `none` where the source asks, a `*Expression` is `nil` if it is.
pub mod Attributes
pub mod Builder
pub mod Page
use redis_vl_golang.Base.{
  ℕ, String, ◌<>◌, str_eq, Bool, true, false, not, ◌&&◌, Option, none, some, List, [], ◌∷◌, ◌++◌,
  has, to_upper, Result, ok, err, if◌then◌else◌,
}
use redis_vl_golang.Base.{show_int}
use redis_vl_golang.Base.Int.{ℤ, pos, ltb_ℤ}
use redis_vl_golang.Base.Float.{Float64}
use redis_vl_golang.Base.Dict.{Dict}
use redis_vl_golang.Command.{Arg, str, int, blob}
use redis_vl_golang.Filter.Expression.{Expression, FilterError, nil, err_of}
use redis_vl_golang.Query.Options.{SortBy, Options, Query, no_options, filter_string, distance_id}
use redis_vl_golang.Vectors.Buffer.{VectorError, Conversions, parse, to_buffer}

pub data QueryError : Type 0 where
  bad_vector : VectorError → QueryError
  bad_filter : FilterError → QueryError

pub record VectorQuery : Type 0 where
  pub options : Options
  pub error : Option QueryError
  pub field_name : String
  pub vector : List Float64
  pub vector_bytes : Option (List ℕ)
  pub dtype : String
  pub filter : Expression
  pub num_results : ℤ
  pub hybrid_policy : String
  pub batch_size : ℤ
  pub ef_runtime : ℤ
  pub search_window_size : ℤ
  pub use_search_history : String
  pub search_buffer_capacity : ℤ
  pub normalize_distance : Bool

-- The options of a new vector query, and of a new range query.
abbrev pub vector_options : Options
vector_options = record no_options {
  num = pos 10;
  dialect = pos 2;
  sort_by = some record { field = distance_id; asc = true };
  return_fields = distance_id ∷ [];
}

unfoldable pub new_vector_query : String → List Float64 → VectorQuery
new_vector_query field_name vector = record {
  options = vector_options;
  error = none;
  field_name = field_name;
  vector = vector;
  vector_bytes = none;
  dtype = "float32";
  filter = nil;
  num_results = pos 10;
  hybrid_policy = "";
  batch_size = pos 0;
  ef_runtime = pos 0;
  search_window_size = pos 0;
  use_search_history = "";
  search_buffer_capacity = pos 0;
  normalize_distance = false;
}

unfoldable pub new_vector_query_from_bytes : String → Option (List ℕ) → VectorQuery
unfolding new_vector_query
new_vector_query_from_bytes field_name bytes = record (new_vector_query field_name []) {
  vector_bytes = bytes;
}

-- `ReturnFields`: the fields with the distance, which is added where it is missing.
unfoldable pub with_distance : List String → List String
with_distance fields = if has fields distance_id then fields else fields ++ (distance_id ∷ [])

-- The loop of `NoReturnScore`
unfoldable pub without_distance : List String → List String
without_distance [] = []
without_distance (f ∷ fs) =
    let rest = without_distance fs in if not (str_eq f distance_id) then f ∷ rest else rest

-- `Dtype`, by what `vectors.Parse` returns.
abbrev pub after_parse : String → VectorQuery → Result VectorError String → VectorQuery
after_parse dt q (ok _) = record q { dtype = dt }
after_parse dt q (err e) = record q { error = some (bad_vector e) }

unfoldable pub set_dtype : String → VectorQuery → VectorQuery
set_dtype dt q = after_parse dt q (parse dt)

-- The methods that set fields, with their arguments.
pub data Setter : Type 0 where
  dtype : String → Setter
  filter : Expression → Setter
  return_fields : List String → Setter
  no_return_score : Setter
  num_results : ℤ → Setter
  paging : ℤ → ℤ → Setter
  sort_by_field : String → Bool → Setter
  dialect : ℤ → Setter
  in_order : Setter
  set_hybrid_policy : String → Setter
  batch_size ef_runtime search_window_size : ℤ → Setter
  use_search_history : String → Setter
  search_buffer_capacity : ℤ → Setter
  normalize_vector_distance : Setter

unfoldable pub set : Setter → VectorQuery → VectorQuery
unfolding set_dtype
set (dtype dt) q = set_dtype dt q
set (filter f) q = record q { filter = f }
set (return_fields fs) q = record q {
  options = record q.options { return_fields = with_distance fs };
}
set no_return_score q = record q {
  options = record q.options { return_fields = without_distance q.options.return_fields };
}
set (num_results k) q = record q { num_results = k; options = record q.options { num = k } }
set (paging offset num) q = record q {
  num_results = num;
  options = record q.options { offset = offset; num = num };
}
set (sort_by_field f asc) q = record q {
  options = record q.options { sort_by = some record { field = f; asc = asc } };
}
set (dialect d) q = record q { options = record q.options { dialect = d } }
set in_order q = record q { options = record q.options { in_order = true } }
set (set_hybrid_policy p) q = record q { hybrid_policy = p }
set (batch_size n) q = record q { batch_size = n }
set (ef_runtime n) q = record q { ef_runtime = n }
set (search_window_size n) q = record q { search_window_size = n }
set (use_search_history v) q = record q { use_search_history = to_upper v }
set (search_buffer_capacity n) q = record q { search_buffer_capacity = n }
set normalize_vector_distance q = record q { normalize_distance = true }

unfoldable pub set_all : List Setter → VectorQuery → VectorQuery
unfolding set
set_all [] q = q
set_all (s ∷ ss) q = set_all ss (set s q)

-- `Err`
unfoldable pub query_err : VectorQuery → Option QueryError
query_err q = elim q.error [
  | some e ↦ some e
  | none ↦ elim (err_of q.filter) [ some e ↦ some (bad_filter e) | none ↦ none ]
]

-- A piece of text under a condition, and the text after it.
abbrev pub piece : Bool → String → String → String
piece test s rest = if test then s <> rest else rest

abbrev pub policy_piece : VectorQuery → String → String
policy_piece q rest =
    if not (str_eq q.hybrid_policy "")
    then " HYBRID_POLICY "
      <> (q.hybrid_policy
          <> piece (str_eq q.hybrid_policy "BATCHES" && ltb_ℤ (pos 0) q.batch_size)
              (" BATCH_SIZE " <> show_int q.batch_size) rest)
    else rest

abbrev pub knn_head : VectorQuery → String
knn_head q = "KNN " <> (show_int q.num_results <> (" @" <> (q.field_name <> " $vector")))

unfoldable pub query_string : VectorQuery → String
query_string q =
    filter_string q.filter
    <> ("=>["
        <> (knn_head q
            <> policy_piece q (
                piece (ltb_ℤ (pos 0) q.ef_runtime) " EF_RUNTIME $EF" (
                  piece (ltb_ℤ (pos 0) q.search_window_size)
                    " SEARCH_WINDOW_SIZE $SEARCH_WINDOW_SIZE"
                    (piece (not (str_eq q.use_search_history ""))
                      " USE_SEARCH_HISTORY $USE_SEARCH_HISTORY"
                      (piece (ltb_ℤ (pos 0) q.search_buffer_capacity)
                        " SEARCH_BUFFER_CAPACITY $SEARCH_BUFFER_CAPACITY"
                        " AS vector_distance]"))))))

abbrev pub entry : Bool → String → Arg → Dict Arg
entry test key value = if test then (key, value) ∷ [] else []

-- The bytes given, or else what `vectors.ToBuffer` returns.
abbrev pub blob_of :
    VectorQuery → Option (List ℕ) → Result VectorError (List ℕ) → List ℕ × VectorQuery
blob_of q (some bytes) encoded = (bytes, q)
blob_of q none (ok bytes) = (bytes, q)
blob_of q none (err e) = ([], record q { error = some (bad_vector e) })

-- `Params`, with the receiver that it leaves: an error of the encoding is recorded in it.
module _ (c : Conversions) where
  unfoldable pub vector_blob : VectorQuery → List ℕ × VectorQuery
  vector_blob q = blob_of q q.vector_bytes (to_buffer c q.vector q.dtype)

  unfoldable pub params : VectorQuery → Dict Arg × VectorQuery
  unfolding vector_blob
  params q = (
    ("vector", blob (vector_blob q).0)
        ∷ (entry (ltb_ℤ (pos 0) q.ef_runtime) "EF" (int q.ef_runtime)
            ++ (entry (ltb_ℤ (pos 0) q.search_window_size) "SEARCH_WINDOW_SIZE"
                  (int q.search_window_size)
                ++ (entry (not (str_eq q.use_search_history "")) "USE_SEARCH_HISTORY"
                      (str q.use_search_history)
                    ++ entry (ltb_ℤ (pos 0) q.search_buffer_capacity) "SEARCH_BUFFER_CAPACITY"
                        (int q.search_buffer_capacity)))),
    (vector_blob q).1,
  )

  unfoldable pub to_query : VectorQuery → Query
  unfolding params query_string
  to_query q = record { query_string = query_string q; params = (params q).0; options = q.options }
