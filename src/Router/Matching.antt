-- ===== src/Router/Matching.antt =====
-- router.go: how a statement is matched with the routes.
use redis_vl_golang.Base.{
  ℕ, String, ◌<>◌, str_eq, Option, none, some, List, [], ◌∷◌, map, join, to_upper, Result, ok, err,
  map_err, if◌then◌else◌,
}
use redis_vl_golang.Base.Int.{ℤ, pos, leb_ℤ}
use redis_vl_golang.Base.Float.{Float64, zero_f}
use redis_vl_golang.Command.{Arg, str, int, blob}
use redis_vl_golang.Vectors.Buffer.{Conversions, to_buffer}
use redis_vl_golang.Query.Options.{Floats}
use redis_vl_golang.Query.Range.{
  new_range_query, set_range_all, distance_threshold, dtype, range_query_string,
}
use redis_vl_golang.Index.Value.{Value, Scalars}
use redis_vl_golang.Index.Server.{Server, RedisError, redis_nil, redis_error, contains, after}
use redis_vl_golang.Vectorize.{Vectorizer}
use redis_vl_golang.Router.{
  Route, Router, RouterError, redis, vss_not_supported, vector, not_vectorized, no_routes,
  nothing_given, route_vector_field,
}
use redis_vl_golang.Router.Routes.{max_threshold}
use redis_vl_golang.Router.Answers.{RouteMatch, parse_aggregate_matches}

unfoldable pub filter_part : Floats → Route → String
filter_part f r =
    "(@route_name == '"
    <> (r.name <> ("' && @distance < " <> (f.format_float r.distance_threshold <> ")")))

unfoldable pub threshold_filter : Floats → List Route → String
unfolding filter_part
threshold_filter f routes = join " || " (map (filter_part f) routes)

unfoldable pub reduce_of : String → String
reduce_of aggregation =
    let reduce = to_upper aggregation in if str_eq reduce "" then "AVG" else reduce

unfoldable pub match_args : Floats → Router → String → List Float64 → ℤ → List ℕ → List Arg
unfolding threshold_filter
match_args f r dt vec max_k blob_bytes =
    let widest = max_threshold zero_f r.routes in
    let rq =
      set_range_all (distance_threshold widest ∷ dtype dt ∷ [])
        (new_range_query route_vector_field vec) in
    str "FT.AGGREGATE"
    ∷ str r.name
    ∷ str (range_query_string f rq)
    ∷ str "GROUPBY"
    ∷ int (pos 1)
    ∷ str "@route_name"
    ∷ str "REDUCE"
    ∷ str (reduce_of r.config.aggregation)
    ∷ int (pos 1)
    ∷ str "vector_distance"
    ∷ str "AS"
    ∷ str "distance"
    ∷ str "SORTBY"
    ∷ int (pos 2)
    ∷ str "@distance"
    ∷ str "ASC"
    ∷ str "MAX"
    ∷ int max_k
    ∷ str "FILTER"
    ∷ str (threshold_filter f r.routes)
    ∷ str "PARAMS"
    ∷ int (pos 4)
    ∷ str "distance_threshold"
    ∷ str (f.format_float widest)
    ∷ str "vector"
    ∷ blob blob_bytes
    ∷ str "DIALECT"
    ∷ int (pos 2)
    ∷ []

module _ {ℓ} {S : Type ℓ} (server : Server S) (v : Vectorizer S) (c : Scalars) (f : Floats)
    (conv : Conversions) where
  abbrev reply_error : RedisError → RouterError
  reply_error redis_nil = redis redis_nil
  reply_error (redis_error e) =
      if contains e "VSS is not yet supported on FT.AGGREGATE"
      then vss_not_supported (redis_error e)
      else redis (redis_error e)

  abbrev read_matches : Result RedisError Value × S → Result RouterError (List RouteMatch) × S
  read_matches (err e, s) = (err (reply_error e), s)
  read_matches (ok reply, s) = (parse_aggregate_matches c reply, s)

  abbrev ask : Router → ℤ → List Float64 → S → Result RouterError (List RouteMatch) × S
  ask r max_k vec s =
      let k = if leb_ℤ max_k (pos 0) then pos 1 else max_k in
      after (λ bs s. read_matches (server.call (match_args f r v.dtype vec k bs) s))
        (map_err vector (to_buffer conv vec v.dtype), s)

  abbrev pub embedded :
      Router → ℤ → Result String (List Float64) × S → Result RouterError (List RouteMatch) × S
  embedded r max_k (err e, s) = (err (not_vectorized e), s)
  embedded r max_k (ok vec, s) = ask r max_k vec s

  -- With a vector, the statement is not looked at.
  abbrev match_given :
      Router → String → ℤ → Option (List Float64) → S → Result RouterError (List RouteMatch) × S
  match_given r statement max_k (some vec) s = ask r max_k vec s
  match_given r statement max_k none s =
      if str_eq statement "" then (err nothing_given, s) else embedded r max_k (v.embed statement s)

  abbrev match_in :
      List Route
      → Router
      → String
      → ℤ
      → Option (List Float64)
      → S
      → Result RouterError (List RouteMatch) × S
  match_in [] r statement max_k vec s = (err (no_routes r.name), s)
  match_in (_ ∷ _) r statement max_k vec s = match_given r statement max_k vec s

  unfoldable pub route_matches :
      Router → String → ℤ → Option (List Float64) → S → Result RouterError (List RouteMatch) × S
  route_matches r = match_in r.routes r

  unfoldable pub route_many :
      Router → String → Option (List Float64) → S → Result RouterError (List RouteMatch) × S
  unfolding route_matches
  route_many r statement = route_matches r statement r.config.max_k

  -- The first match, or the match without a name.
  abbrev first_match : List RouteMatch → RouteMatch
  first_match [] = record { name = ""; distance = zero_f }
  first_match (m ∷ matches) = m

  unfoldable pub route :
      Router → String → Option (List Float64) → S → Result RouterError RouteMatch × S
  unfolding route_matches
  route r statement vec s =
      after (λ matches s. (ok (first_match matches), s)) (route_matches r statement (pos 1) vec s)
