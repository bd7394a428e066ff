-- ===== src/Index/Tests.antt =====
-- Runs of the search index against small servers.
use redis_vl_golang.Base.{
  ℕ, zero, suc, ◌-◌, String, str_eq, ◌≡◌, refl, sym, ap, ◌∙◌, arith, Bool, true, false, Option,
  none, some, List, [], ◌∷◌, ◌++◌, map, length, inr, take, drop, has, get_elem?, concat, run_all,
  Result, ok, err, if◌then◌else◌, ◌≤◌, ◌<◌, ◌⊎◌,
}
use redis_vl_golang.Base.Int.{pos}
use redis_vl_golang.Base.Float.{zero_f, half_f}
use redis_vl_golang.Vectors.Buffer.{Conversions}
use redis_vl_golang.Schema.Index.{IndexSchema}
use redis_vl_golang.Schema.Field.{new_text_field}
use redis_vl_golang.Query.Options.{Options, no_options, Floats}
use redis_vl_golang.Query.Vector.{Setter, dtype, num_results, new_vector_query, set_all, QueryError}
use redis_vl_golang.Query.Vector.Builder.{all_known}
use redis_vl_golang.Index.Value.{Value, Scalars}
use redis_vl_golang.Index.Reply.{SearchResult, parse_search_reply, parse_aggregate_rows}
use redis_vl_golang.Index.Reply.Protocols.{
  Hit, any_keys, list_reply, map_reply, hit_documents, parse_search_reply_protocols,
}
use redis_vl_golang.Index.Reply.Rows.{
  Row, list_table, map_table, row_dict, parse_aggregate_rows_protocols,
}
use redis_vl_golang.Index.Server.{Server, query}
use redis_vl_golang.Index.Search.{Runnable, run_vector, search}
use redis_vl_golang.Index.Search.Errors.{search_hits, search_refused}

abbrev pub scalars : Scalars
scalars = record {
  sprint = λ v. "";
  of_bytes = λ bs. "";
  format_float = λ x. "0.5";
  parse_float = λ s. some half_f;
  parse_int = λ s. none;
  truncate = λ x. pos 0;
  of_int = λ n. zero_f;
}

abbrev pub floats : Floats
floats = record {
  add = λ x y. x;
  sub = λ x y. x;
  mul = λ x y. x;
  div = λ x y. x;
  format_float = λ x. "0.5";
}

abbrev pub zeros : Conversions
zeros = record {
  narrow = λ v. 0;
  widen = λ w. 0;
  to_int8 = λ v. 0;
  from_int8 = λ b. 0;
  to_uint8 = λ v. 0;
  from_uint8 = λ b. 0;
}

abbrev pub docs : IndexSchema
docs = record {
  index = record {
    name = "docs";
    prefixes = "doc" ∷ [];
    key_separator = ":";
    storage_type = "hash";
    stopwords = none;
  };
  version = "0.1.0";
  fields = ("title", new_text_field "title" none) ∷ [];
  field_order = "title" ∷ [];
}

abbrev pub hit : String → Hit
hit key = record { key = key; score = Value.float half_f; fields = ("title", "Go") ∷ [] }

abbrev pub hits : List Hit
hits = hit "doc:1" ∷ hit "doc:2" ∷ hit "doc:3" ∷ []

abbrev pub scored : Options
scored = record no_options { with_scores = true }

abbrev rows : List Row
rows = (("title", "Go") ∷ ("__score", "1") ∷ []) ∷ []

parse_search_reply_protocols_example :
    let parsed : SearchResult = record {
      total = pos 3;
      docs = hit_documents scalars true false hits;
    } in
    (parse_search_reply scalars (list_reply scored (pos 3) hits) scored ≡ ok parsed)
    × (parse_search_reply scalars (map_reply any_keys scored (pos 3) hits) scored ≡ ok parsed)
parse_search_reply_protocols_example =
    parse_search_reply_protocols scalars any_keys scored (pos 3) hits

parse_aggregate_rows_protocols_example :
    (parse_aggregate_rows scalars (list_table (pos 1) rows) ≡ ok (map (row_dict scalars) rows))
    × (parse_aggregate_rows scalars (map_table any_keys rows) ≡ ok (map (row_dict scalars) rows))
parse_aggregate_rows_protocols_example =
    parse_aggregate_rows_protocols scalars any_keys (pos 1) rows

-- A server that answers every command in one way and keeps its state.
abbrev constant : Value → Server (Unit {0})
constant answer = record {
  call = λ args s. (ok answer, s);
  exec = λ batch s. (map (λ _. ok answer) batch, s);
  run = λ q s. (ok answer, s);
  hgetall = λ k s. (ok [], s);
  del = λ ks s. (ok (length ks), s);
  exists_keys = λ ks s. (ok 0, s);
}

abbrev pub every : Runnable
every = record {
  query = record { query_string = "*"; params = []; options = scored };
  error = none;
  normalized_field = "";
}

search_hits_example :
    search (constant (map_reply any_keys scored (pos 3) hits)) scalars docs every tt
    ≡ (ok record { total = pos 3; docs = hit_documents scalars true false hits }, tt)
search_hits_example =
    search_hits (constant (map_reply any_keys scored (pos 3) hits)) scalars docs every tt tt
      any_keys (pos 3) hits (map_reply any_keys scored (pos 3) hits) refl (inr refl) refl

abbrev unknown : List Setter
unknown = dtype "int4" ∷ num_results (pos 5) ∷ []

search_refused_example :
    (e : QueryError) × (search
        (constant Value.nil)
        scalars
        docs
        (run_vector zeros (set_all unknown (new_vector_query "embedding" (half_f ∷ []))))
        tt
      ≡ (err (query e), tt))
unfolding all_known has redis_vl_golang.Base.to_lower
search_refused_example =
    search_refused (constant Value.nil) scalars docs zeros "embedding" (half_f ∷ []) unknown tt refl
