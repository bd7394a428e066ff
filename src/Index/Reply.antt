-- ===== src/Index/Reply.antt =====
-- results.go: the parsers of the replies of FT.SEARCH, FT.INFO and FT.AGGREGATE.
--
-- A reply comes as a flat list (RESP2) or as a map (RESP3). `json.Unmarshal` into a map is a
-- parameter.
pub mod Keyed
pub mod Protocols
pub mod Rows
use redis_vl_golang.Base.{
  ℕ, zero, suc, String, Bool, true, false, Option, none, some, List, [], ◌∷◌, Result, ok, err,
  ◌>>=◌,
}
use redis_vl_golang.Base.Int.{ℤ, pos}
use redis_vl_golang.Base.Float.{Float64, zero_f}
use redis_vl_golang.Base.Dict.{Dict, lookup, insert, erase}
use redis_vl_golang.Query.Options.{Options}
use redis_vl_golang.Index.Value.{
  Value, Values, nil, text, bytes, other, int, int64, float, bool, array, named, keyed, to_list,
  Scalars, to_string, as_map, to_int64, to_float64,
}

pub record Document : Type 0 where
  pub id : String
  pub score : Float64
  pub fields : Dict String

pub record SearchResult : Type 0 where
  pub total : ℤ
  pub docs : List Document

-- An error names what was met in its place.
pub data ReplyError : Type 0 where
  unexpected_reply : Value → ReplyError
  empty_reply : ReplyError
  unexpected_total unexpected_fields : Value → ReplyError

-- `m[key]`, of an `any`.
abbrev pub get : String → Dict Value → Value
get k m = elim (lookup k m) [ none ↦ nil | some v ↦ v ]

-- `x, _ := v.([]any)`
abbrev as_list : Value → List Value
as_list (array vs) = to_list vs
as_list v = []

module _ (c : Scalars) where
  -- The loop over a flat list of keys and values; a last key without a value is left.
  unfoldable pub put_pairs : List Value → Dict String → Dict String
  put_pairs [] out = out
  put_pairs (k ∷ []) out = out
  put_pairs (k ∷ v ∷ rest) out = put_pairs rest (insert (to_string c k) (to_string c v) out)

  -- The loop over a map.
  unfoldable pub put_all : Dict Value → Dict String → Dict String
  put_all [] out = out
  put_all ((k, v) ∷ m) out = put_all m (insert k (to_string c v) out)

  abbrev pub or_zero : Option Float64 → Float64
  or_zero none = zero_f
  or_zero (some x) = x

  -- A document of the flat list: its id, its score if there is one, its list of fields if there is
  -- one.
  abbrev document : Value → Value → List Value → Document
  document id score fields = record {
    id = to_string c id;
    score = or_zero (to_float64 c score);
    fields = put_pairs fields [];
  }

  abbrev pub fields_of : Value → Result ReplyError (List Value)
  fields_of (array vs) = ok (to_list vs)
  fields_of v = err (unexpected_fields v)

  -- The loop of `parseSearchReplyRESP2`, for the flags WithScores and NoContent: at the end of the
  -- list what is missing of the last document is left out.
  unfoldable pub documents : Bool → Bool → List Value → Result ReplyError (List Document)
  documents with_scores no_content [] = ok []
  documents false true (id ∷ rest) = do
    docs ← documents false true rest
    ok (document id nil [] ∷ docs)
  documents false false (id ∷ []) = ok (document id nil [] ∷ [])
  documents false false (id ∷ fields ∷ rest) = do
    fs ← fields_of fields
    docs ← documents false false rest
    ok (document id nil fs ∷ docs)
  documents true true (id ∷ []) = ok (document id nil [] ∷ [])
  documents true true (id ∷ score ∷ rest) = do
    docs ← documents true true rest
    ok (document id score [] ∷ docs)
  documents true false (id ∷ []) = ok (document id nil [] ∷ [])
  documents true false (id ∷ score ∷ []) = ok (document id score [] ∷ [])
  documents true false (id ∷ score ∷ fields ∷ rest) = do
    fs ← fields_of fields
    docs ← documents true false rest
    ok (document id score fs ∷ docs)

  abbrev total_of : Value → Option ℤ → Result ReplyError ℤ
  total_of v none = err (unexpected_total v)
  total_of v (some n) = ok n

  unfoldable pub resp2 : Options → List Value → Result ReplyError SearchResult
  resp2 o [] = err empty_reply
  resp2 o (v ∷ rest) = do
    total ← total_of v (to_int64 c v)
    docs ← documents o.with_scores o.no_content rest
    ok (record { total = total; docs = docs })

  -- A result of the map form; one that is no map is left out.
  abbrev pub attributes : Option (Dict Value) → Dict String
  attributes none = []
  attributes (some m) = put_all m []

  abbrev result : Dict Value → Document
  result m = record {
    id = to_string c (get "id" m);
    score = or_zero (to_float64 c (get "score" m));
    fields = attributes (as_map c (get "extra_attributes" m));
  }

  abbrev pub prepend : Option (Dict Value) → List Document → List Document
  prepend none docs = docs
  prepend (some m) docs = result m ∷ docs

  unfoldable pub results : List Value → List Document
  results [] = []
  results (v ∷ vs) = prepend (as_map c v) (results vs)

  abbrev or_pos_zero : Option ℤ → ℤ
  or_pos_zero none = pos 0
  or_pos_zero (some n) = n

  unfoldable pub resp3 : Dict Value → SearchResult
  unfolding results
  resp3 m = record {
    total = or_pos_zero (to_int64 c (get "total_results" m));
    docs = results (as_list (get "results" m));
  }

  -- `parseSearchReply`, by what `asMap` returns.
  abbrev search_reply : Options → Value → Option (Dict Value) → Result ReplyError SearchResult
  search_reply o reply (some m) = ok (resp3 m)
  search_reply o (array vs) none = resp2 o (to_list vs)
  search_reply o reply none = err (unexpected_reply reply)

  unfoldable pub parse_search_reply : Value → Options → Result ReplyError SearchResult
  parse_search_reply reply o = search_reply o reply (as_map c reply)

  unfoldable pub info_pairs : List Value → Dict Value → Dict Value
  info_pairs [] out = out
  info_pairs (k ∷ []) out = out
  info_pairs (k ∷ v ∷ rest) out = info_pairs rest (insert (to_string c k) v out)

  abbrev info_reply : Value → Option (Dict Value) → Result ReplyError (Dict Value)
  info_reply reply (some m) = ok m
  info_reply (array vs) none = ok (info_pairs (to_list vs) [])
  info_reply reply none = err (unexpected_reply reply)

  unfoldable pub parse_info_reply : Value → Result ReplyError (Dict Value)
  unfolding info_pairs
  parse_info_reply reply = info_reply reply (as_map c reply)

  -- The rows of an aggregate reply: those of a flat list after its first element, and those of the
  -- results of a map, without the internal score.
  abbrev list_row : Value → List (Dict String) → List (Dict String)
  list_row (array vs) rows = erase "__score" (put_pairs (to_list vs) []) ∷ rows
  list_row v rows = rows

  unfoldable pub list_rows : List Value → List (Dict String)
  list_rows [] = []
  list_rows (v ∷ vs) = list_row v (list_rows vs)

  abbrev pub tail : List Value → List Value
  tail [] = []
  tail (v ∷ vs) = vs

  abbrev or_whole : Dict Value → Option (Dict Value) → Dict Value
  or_whole m none = m
  or_whole m (some extra) = extra

  abbrev map_row : Option (Dict Value) → List (Dict String) → List (Dict String)
  map_row none rows = rows
  map_row (some m) rows =
      erase "__score" (put_all (or_whole m (as_map c (get "extra_attributes" m))) []) ∷ rows

  unfoldable pub map_rows : List Value → List (Dict String)
  map_rows [] = []
  map_rows (v ∷ vs) = map_row (as_map c v) (map_rows vs)

  abbrev aggregate_reply : Value → Option (Dict Value) → Result ReplyError (List (Dict String))
  aggregate_reply reply (some m) = ok (map_rows (as_list (get "results" m)))
  aggregate_reply (array vs) none = ok (list_rows (tail (to_list vs)))
  aggregate_reply reply none = err (unexpected_reply reply)

  unfoldable pub parse_aggregate_rows : Value → Result ReplyError (List (Dict String))
  parse_aggregate_rows reply = aggregate_reply reply (as_map c reply)

-- `for k, v := range m { out[k] = v }`
unfoldable pub copy_text : Dict String → Dict Value → Dict Value
copy_text [] out = out
copy_text ((k, v) ∷ m) out = copy_text m (insert k (text v) out)

unfoldable pub copy_values : Dict Value → Dict Value → Dict Value
copy_values [] out = out
copy_values ((k, v) ∷ m) out = copy_values m (insert k v out)

abbrev unpacked : String → Option (Dict Value) → Dict Value → Dict Value
unpacked raw none out = insert "$" (text raw) out
unpacked raw (some data_map) out = copy_values data_map out

abbrev unpack_raw : (String → Option (Dict Value)) → Document → Option String → Dict Value
unpack_raw unmarshal doc none = copy_text doc.fields (("id", text doc.id) ∷ [])
unpack_raw unmarshal doc (some raw) = unpacked raw (unmarshal raw) (("id", text doc.id) ∷ [])

unfoldable pub unpack_json_doc : (String → Option (Dict Value)) → Document → Dict Value
unfolding copy_text copy_values
unpack_json_doc unmarshal doc = unpack_raw unmarshal doc (lookup "$" doc.fields)
