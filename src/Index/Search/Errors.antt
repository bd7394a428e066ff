-- ===== src/Index/Search/Errors.antt =====
-- When a search sends its command, and what it returns.
use redis_vl_golang.Base.{
  String, ◌≡◌, ◌↔◌, ◌⊎◌, refl, sym, ap, ◌∙◌, arith, true, false, none, some, List, Option-cases,
  inl, inr, ok, err, map_err,
}
use redis_vl_golang.Base.Int.{ℤ}
use redis_vl_golang.Base.Float.{Float64}
use redis_vl_golang.Filter.Expression.{err_of}
use redis_vl_golang.Vectors.Buffer.{Conversions}
use redis_vl_golang.Schema.Index.{IndexSchema}
use redis_vl_golang.Query.Options.{build_search_args}
use redis_vl_golang.Query.Vector.{
  VectorQuery, QueryError, Setter, new_vector_query, set_all, query_err,
}
use redis_vl_golang.Query.Vector.Builder.{params-set_all, all_known, error-set_all}
use redis_vl_golang.Index.Value.{Value, Scalars}
use redis_vl_golang.Index.Reply.{parse_search_reply}
use redis_vl_golang.Index.Reply.Protocols.{
  Hit, MapType, list_reply, map_reply, hit_documents, parse_search_reply_protocols,
}
use redis_vl_golang.Index.Server.{Server, query, reply, after, answered, lift}
use redis_vl_golang.Index.Search.{Runnable, name_of, named_error, search, checked, run_vector}

none-query_err :
    (q : VectorQuery) → (query_err q ≡ none) ↔ ((q.error ≡ none) × (err_of q.filter ≡ none))
unfolding query_err
none-query_err q = (λ h. (ground arith, ground arith), λ h. ground arith)

new_error : (name : String) (v : List Float64) → (new_vector_query name v).error ≡ none
unfolding new_vector_query
new_error name v = refl

module _ {ℓ} {S : Type ℓ} (server : Server S) (c : Scalars) (i : IndexSchema) where
  search_lem : (r : Runnable) (s : S) → search server c i r s ≡ checked server c i r r.error s
  unfolding search
  search_lem r s = refl

  -- Where a query has deferred an error, the search returns that error, and the server is not asked.
  search_deferred :
      (r : Runnable) (e : QueryError) (s : S)
      → r.error ≡ some e
      → search server c i r s ≡ (err (query e), s)
  search_deferred r e s h = search_lem r s ∙ ap (λ o. checked server c i r o s) h

  -- A search without a deferred error whose command the server answers with hits, as the flat list of
  -- RESP2 or as the map of RESP3 (of the Go type map[any]any or map[string]any), returns the total and
  -- one document for each hit, in order.
  pub search_hits :
      (r : Runnable) (s s' : S) (g : MapType) (total : ℤ) (hits : List Hit) (answer : Value)
      → r.error ≡ none
      → (answer ≡ list_reply r.query.options total hits)
        ⊎ (answer ≡ map_reply g r.query.options total hits)
      → server.call (build_search_args (name_of i) r.query) s ≡ (ok answer, s')
      → search server c i r s ≡ (
        ok record {
          total = total;
          docs = hit_documents c r.query.options.with_scores r.query.options.no_content hits;
        },
        s',
      )
  search_hits r s s' g total hits answer none_deferred form sent =
      let (listed, mapped) = parse_search_reply_protocols c g r.query.options total hits in
      let parsed : parse_search_reply c answer r.query.options
          ≡ ok record {
            total = total;
            docs = hit_documents c r.query.options.with_scores r.query.options.no_content hits;
          } =
        elim form [
          | inl e ↦ ap (λ a. parse_search_reply c a r.query.options) e ∙ listed
          | inr e ↦ ap (λ a. parse_search_reply c a r.query.options) e ∙ mapped
        ] in
      search_lem r s
      ∙ ap (λ o. checked server c i r o s) none_deferred
      ∙ ap
          (λ a.
            after (λ v. lift (map_err reply (parse_search_reply c v r.query.options)))
              (answered (named_error (name_of i)) a))
          sent
      ∙ ap (λ p. (map_err reply p, s')) parsed

  error-run_vector :
      (conv : Conversions) (name : String) (v : List Float64) (ss : List Setter)
      → ((run_vector conv (set_all ss (new_vector_query name v))).error ≡ none)
        ↔ ((all_known ss ≡ true) × (err_of (set_all ss (new_vector_query name v)).filter ≡ none))
  unfolding run_vector
  error-run_vector conv name v ss =
      let q = set_all ss (new_vector_query name v) in
      let same = ap query_err (params-set_all conv name v ss) in
      let kept = error-set_all ss (new_vector_query name v) in
      let meaning = none-query_err q in
      (
        λ h. ((kept.0 (meaning.0 (sym same ∙ h)).0).1, (meaning.0 (sym same ∙ h)).1),
        λ h. same ∙ meaning.1 (kept.1 (new_error name v, h.0), h.1),
      )

  -- Where any of the calls that built a KNN query set an unknown data type, the search returns an
  -- error whatever calls followed, and the server is not asked.
  pub search_refused :
      (conv : Conversions) (name : String) (v : List Float64) (ss : List Setter) (s : S)
      → all_known ss ≡ false
      → (e : QueryError) × (search server c i
            (run_vector conv (set_all ss (new_vector_query name v)))
            s
          ≡ (err (query e), s))
  search_refused conv name v ss s h =
      let r = run_vector conv (set_all ss (new_vector_query name v)) in
      elim (Option-cases r.error) [
        | inl e ↦ cc (((error-run_vector conv name v ss).0 e).0, h)
        | inr (e, k) ↦ (e, search_deferred r e s k)
      ]
