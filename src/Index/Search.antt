-- ===== src/Index/Search.antt =====
-- index.go: running a query, and what becomes of its hits.
--
-- A query that can run is its command's parts, the error that it has deferred (read after the
-- command is built), and the field whose distance is normalized, "" for none.
pub mod Errors
use redis_vl_golang.Base.{
  ℕ, String, str_eq, Bool, true, false, not, ◌&&◌, Option, none, some, List, [], ◌∷◌, map, length,
  ◌==◌, Result, ok, err, map_err, if◌then◌else◌,
}
use redis_vl_golang.Base.Int.{ℤ}
use redis_vl_golang.Base.Float.{Float64}
use redis_vl_golang.Base.Dict.{Dict, lookup, insert}
use redis_vl_golang.Filter.Expression.{FilterError}
use redis_vl_golang.Vectors.Buffer.{Conversions}
use redis_vl_golang.Schema.Attrs.{VectorAttrs}
use redis_vl_golang.Schema.Field.{Field}
use redis_vl_golang.Schema.Index.{IndexSchema, is_json, field as schema_field}
use redis_vl_golang.Query.Options.{
  Options, Query, Floats, build_search_args, distance_id, norm_cosine_distance, norm_l2_distance,
}
use redis_vl_golang.Query.Vector.{
  VectorQuery, QueryError, bad_filter, params, query_string, query_err,
}
use redis_vl_golang.Query.Range.{VectorRangeQuery, range_params, range_query_string, range_err}
use redis_vl_golang.Query.Simple.{SimpleQuery, simple_err, to_simple_query}
use redis_vl_golang.Query.Terms.{TextQuery, text_err, to_text_query}
use redis_vl_golang.Index.Value.{Value, text, float, Scalars, to_string, to_float64}
use redis_vl_golang.Index.Reply.{
  Document, SearchResult, parse_search_reply, unpack_json_doc, copy_text,
}
use redis_vl_golang.Index.Server.{
  Server, RedisError, IndexError, index_not_found, redis, reply, query, Action, return, fail, ◌>>>◌,
  answered, after, lift, is_unknown_index_error,
}

pub record Runnable : Type 0 where
  pub query : Query
  pub error : Option QueryError
  pub normalized_field : String

abbrev normalized : Bool → String → String
normalized enabled field = if enabled then field else ""

abbrev filter_error : Option FilterError → Option QueryError
filter_error none = none
filter_error (some e) = some (bad_filter e)

unfoldable pub run_vector : Conversions → VectorQuery → Runnable
run_vector c q = record {
  query = record { query_string = query_string q; params = (params c q).0; options = q.options };
  error = query_err (params c q).1;
  normalized_field = normalized q.normalize_distance q.field_name;
}

unfoldable pub run_range : Floats → Conversions → VectorRangeQuery → Runnable
run_range f c q = record {
  query = record {
    query_string = range_query_string f q;
    params = (range_params f c q).0;
    options = q.options;
  };
  error = range_err (range_params f c q).1;
  normalized_field = normalized q.normalize_distance q.field_name;
}

unfoldable pub run_simple : SimpleQuery → Runnable
run_simple q = record {
  query = to_simple_query q;
  error = filter_error (simple_err q);
  normalized_field = "";
}

unfoldable pub run_text : Floats → (String → String) → TextQuery → Runnable
run_text f lower q = record {
  query = to_text_query f lower q;
  error = filter_error (text_err q);
  normalized_field = "";
}

abbrev pub name_of : IndexSchema → String
name_of i = i.index.name

abbrev pub named_error : String → RedisError → IndexError
named_error name e = if is_unknown_index_error e then index_not_found name else redis e

module _ {ℓ} {S : Type ℓ} (server : Server S) (c : Scalars) (i : IndexSchema) where
  abbrev run_args : Runnable → Action S SearchResult
  run_args r s =
      after (λ v. lift (map_err reply (parse_search_reply c v r.query.options)))
        (answered (named_error (name_of i)) (server.call (build_search_args (name_of i) r.query) s))

  abbrev pub checked : Runnable → Option QueryError → Action S SearchResult
  checked r (some e) = fail (query e)
  checked r none = run_args r

  unfoldable pub search : Runnable → Action S SearchResult
  search r = checked r r.error

  unfoldable pub count : Runnable → Action S ℤ
  unfolding search
  count r = search r >>> λ res. return res.total

  -- The function that normalizes the distances, for a query that asks for it.
  abbrev metric_norm : Floats → String → Option (Float64 → Float64)
  metric_norm f metric =
      if str_eq metric "COSINE"
      then some (norm_cosine_distance f)
      else if str_eq metric "L2"
      then some (norm_l2_distance f)
      else none

  abbrev attrs_norm : Floats → Option VectorAttrs → Option (Float64 → Float64)
  attrs_norm f none = none
  attrs_norm f (some a) = metric_norm f a.distance_metric

  abbrev field_norm : Floats → Option Field → Option (Float64 → Float64)
  field_norm f none = none
  field_norm f (some field) = attrs_norm f field.vector

  unfoldable pub norm_fn : Floats → String → Option (Float64 → Float64)
  norm_fn f field = if not (str_eq field "") then field_norm f (schema_field i field) else none

  abbrev set_distance : (Float64 → Float64) → Option Float64 → Dict Value → Dict Value
  set_distance norm none m = m
  set_distance norm (some d) m = insert distance_id (text (to_string c (float (norm d)))) m

  abbrev normalize_raw : (Float64 → Float64) → Option Value → Dict Value → Dict Value
  normalize_raw norm none m = m
  normalize_raw norm (some raw) m = set_distance norm (to_float64 c raw) m

  unfoldable pub normalize : Option (Float64 → Float64) → Dict Value → Dict Value
  normalize none m = m
  normalize (some norm) m = normalize_raw norm (lookup distance_id m) m

  module _ (f : Floats) (unmarshal : String → Option (Dict Value)) where
    unfoldable pub unpacks : Options → Bool
    unpacks o = is_json i && length o.return_fields == 0 && not o.no_content

    abbrev pub scored : Bool → Document → Dict Value → Dict Value
    scored with_scores doc m = if with_scores then insert "score" (float doc.score) m else m

    unfoldable pub process_doc : Options → String → Document → Dict Value
    process_doc o field doc =
        let m =
          if unpacks o
          then unpack_json_doc unmarshal doc
          else copy_text doc.fields (("id", text doc.id) ∷ []) in
        normalize (norm_fn f field) (scored o.with_scores doc m)

    unfoldable pub process_results : Runnable → SearchResult → List (Dict Value)
    process_results r res = map (process_doc r.query.options r.normalized_field) res.docs

    unfoldable pub run_query : Runnable → Action S (List (Dict Value))
    run_query r = search r >>> λ res. return (process_results r res)
