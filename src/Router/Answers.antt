-- ===== src/Router/Answers.antt =====
-- router.go: the matches that the server answers with.
use redis_vl_golang.Base.{
  String, str_eq, Option, none, some, List, [], ◌∷◌, Result, ok, err, if◌then◌else◌,
}
use redis_vl_golang.Base.Float.{Float64, zero_f}
use redis_vl_golang.Base.Dict.{Dict, lookup, insert}
use redis_vl_golang.Index.Value.{
  Value, nil, text, bytes, array, named, keyed, Pairs, no_pair, pair, to_list, fields_dict, Scalars,
}
use redis_vl_golang.Router.{RouterError, unexpected_reply}

pub record RouteMatch : Type 0 where
  pub name : String
  pub distance : Float64

module _ (c : Scalars) where
  -- `toStr` and `toStrMap`
  unfoldable pub to_str : Value → String
  to_str (text s) = s
  to_str (bytes bs) = c.of_bytes bs
  to_str nil = ""
  to_str v = c.sprint v

  unfoldable pub str_keys : Pairs → Dict Value → Dict Value
  unfolding to_str
  str_keys no_pair out = out
  str_keys (pair k v ps) out = str_keys ps (insert (to_str k) v out)

  unfoldable pub to_str_map : Value → Option (Dict Value)
  unfolding str_keys
  to_str_map (named fs) = some (fields_dict fs)
  to_str_map (keyed ps) = some (str_keys ps [])
  to_str_map v = none

  unfoldable pub row_pairs : List Value → Dict String → Dict String
  row_pairs [] out = out
  row_pairs (k ∷ []) out = out
  row_pairs (k ∷ v ∷ rest) out = row_pairs rest (insert (to_str k) (to_str v) out)

  unfoldable pub row_fields : Dict Value → Dict String → Dict String
  row_fields [] out = out
  row_fields ((k, v) ∷ m) out = row_fields m (insert k (to_str v) out)

  abbrev pub or_empty : Option String → String
  or_empty none = ""
  or_empty (some s) = s

  abbrev pub or_zero : Option Float64 → Float64
  or_zero none = zero_f
  or_zero (some d) = d

  -- `appendRow`, before the rows that follow: a row without a name gives no match.
  unfoldable pub append_row : Dict String → List RouteMatch → List RouteMatch
  append_row fields rest =
      let name = or_empty (lookup "route_name" fields) in
      if str_eq name ""
      then rest
      else record {
        name = name;
        distance = or_zero (c.parse_float (or_empty (lookup "distance" fields)));
      }
        ∷ rest

  abbrev list_match : Value → List RouteMatch → List RouteMatch
  list_match (array vs) rest = append_row (row_pairs (to_list vs) []) rest
  list_match v rest = rest

  unfoldable pub list_matches : List Value → List RouteMatch
  list_matches [] = []
  list_matches (v ∷ vs) = list_match v (list_matches vs)

  abbrev value_of : Option Value → Value
  value_of none = nil
  value_of (some v) = v

  -- The fields of a row may stand under `extra_attributes`.
  abbrev nested : Dict Value → Option (Dict Value) → Dict Value
  nested m none = m
  nested m (some extra) = extra

  abbrev map_match : Option (Dict Value) → List RouteMatch → List RouteMatch
  map_match none rest = rest
  map_match (some m) rest =
      append_row (row_fields (nested m (to_str_map (value_of (lookup "extra_attributes" m)))) [])
        rest

  unfoldable pub map_matches : List Value → List RouteMatch
  map_matches [] = []
  map_matches (v ∷ vs) = map_match (to_str_map v) (map_matches vs)

  abbrev results_of : Value → List Value
  results_of (array vs) = to_list vs
  results_of v = []

  abbrev pub tail : List Value → List Value
  tail [] = []
  tail (v ∷ vs) = vs

  abbrev matches_of : Value → Option (Dict Value) → Result RouterError (List RouteMatch)
  matches_of reply (some m) = ok (map_matches (results_of (value_of (lookup "results" m))))
  matches_of (array vs) none = ok (list_matches (tail (to_list vs)))
  matches_of reply none = err (unexpected_reply reply)

  unfoldable pub parse_aggregate_matches : Value → Result RouterError (List RouteMatch)
  unfolding list_matches map_matches
  parse_aggregate_matches reply = matches_of reply (to_str_map reply)
