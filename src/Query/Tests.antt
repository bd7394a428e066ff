-- ===== src/Query/Tests.antt =====
-- Runs of the queries at concrete inputs.
use redis_vl_golang.Base.{
  ℕ, ◌-◌, ◌≤◌, ◌<>◌, ◌≡◌, refl, List, [], ◌∷◌, map, has, to_lower, sort_strings, length, take, drop,
  show_int, String,
}
use redis_vl_golang.Base.Int.{pos}
use redis_vl_golang.Base.Float.{Float64, one_f, half_f}
use redis_vl_golang.Base.Dict.{Dict, keys}
use redis_vl_golang.Filter.Expression.{nil}
use redis_vl_golang.Vectors.Buffer.{Conversions}
use redis_vl_golang.Query.Options.{
  Floats, param, limit_of, dialect_of, build_search_args, filter_string,
}
use redis_vl_golang.Query.Options.Grammar.{read_command}
use redis_vl_golang.Query.Options.Grammar.Laws.{read_command-build_search_args}
use redis_vl_golang.Query.Vector.{
  VectorQuery, Setter, dtype, num_results, paging, ef_runtime, use_search_history, set, set_all,
  new_vector_query, params, query_string, knn_head, policy_piece, to_query,
}
use redis_vl_golang.Query.Vector.Attributes.{uses, later, query_string-params}
use redis_vl_golang.Query.Vector.Builder.{IsBuilt, params-set_all}
use redis_vl_golang.Query.Vector.Page.{window, window-paging}
use redis_vl_golang.Query.Range.{
  VectorRangeQuery, RangeSetter, new_range_query, set_range_all, range_params, range_blob,
  threshold_of,
}
use redis_vl_golang.Query.Range
use redis_vl_golang.Query.Range.Laws.{range_params-set_range_all}
use redis_vl_golang.Query.Simple.{
  SimpleQuery, CountSetter, count_dialect, set_count_all, new_count_query, FilterSetter,
  set_simple_all, new_filter_query,
}
use redis_vl_golang.Query.Simple

-- Arithmetic that forgets its second argument.
abbrev left_only : Floats
left_only = record {
  add = λ x y. x;
  sub = λ x y. x;
  mul = λ x y. x;
  div = λ x y. x;
  format_float = λ x. "0.5";
}

abbrev zeros : Conversions
zeros = record {
  narrow = λ v. 0;
  widen = λ w. 0;
  to_int8 = λ v. 0;
  from_int8 = λ b. 0;
  to_uint8 = λ v. 0;
  from_uint8 = λ b. 0;
}

abbrev calls : List Setter
calls = dtype "float64" ∷ num_results (pos 5) ∷ ef_runtime (pos 100) ∷ use_search_history "on" ∷ []

abbrev started : VectorQuery
started = new_vector_query "embedding" (one_f ∷ half_f ∷ [])

abbrev knn : VectorQuery
knn = set_all calls started

read_command-build_search_args_example :
    read_command (build_search_args "docs" (to_query zeros knn)) ≡ record {
      index_name = "docs";
      query_string = (to_query zeros knn).query_string;
      options = record (to_query zeros knn).options {
        num = limit_of (to_query zeros knn).options;
        dialect = dialect_of (to_query zeros knn).options;
      };
      params =
          map
            (λ k. (k, param (to_query zeros knn).params k))
            (sort_strings (keys (to_query zeros knn).params));
    }
read_command-build_search_args_example = read_command-build_search_args "docs" (to_query zeros knn)

query_string-params_example :
    query_string knn
    ≡ filter_string knn.filter
      <> ("=>[" <> (knn_head knn <> policy_piece knn (uses (later (params zeros knn).0))))
query_string-params_example = query_string-params zeros knn

started-IsBuilt : IsBuilt started
unfolding new_vector_query has to_lower
started-IsBuilt = record { known = refl; same_count = refl }

params-set_all_example : (params zeros knn).1 ≡ knn
params-set_all_example = params-set_all zeros "embedding" (one_f ∷ half_f ∷ []) calls

abbrev hits : List ℕ
hits = 1 ∷ 2 ∷ 3 ∷ []

window-paging_example :
    let command =
      build_search_args "docs" (to_query zeros (set (paging (pos 2) (pos 3)) started)) in
    (rest : String) × ((read_command command).query_string
      ≡ filter_string nil <> ("=>[" <> ("KNN " <> (show_int (pos 3) <> (" @" <> rest)))))
    × (window (read_command command).options (take 3 hits) ≡ drop 2 (take 3 hits))
    × (length (drop 2 (take 3 hits)) ≤ 3 - 2)
unfolding new_vector_query
window-paging_example = window-paging zeros "docs" started 2 3 hits

abbrev range_calls : List RangeSetter
range_calls = Range.set_hybrid_policy "BATCHES" ∷ Range.batch_size (pos 20) ∷ []

abbrev ranged : VectorRangeQuery
ranged = set_range_all range_calls (new_range_query "embedding" (one_f ∷ []))

range_params-set_range_all_example : (range_params left_only zeros ranged).1 ≡ ranged
range_params-set_range_all_example =
    range_params-set_range_all left_only zeros "embedding" (one_f ∷ []) range_calls

abbrev paged : SimpleQuery
paged = set_simple_all (Simple.paging (pos 20) (pos 0) ∷ []) (new_filter_query nil)

abbrev heavy : Dict Float64
heavy = ("bike", half_f) ∷ []
