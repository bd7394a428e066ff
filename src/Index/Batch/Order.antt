-- ===== src/Index/Batch/Order.antt =====
-- That a batch of queries returns what the queries return one by one.
use mathlib.Core.Path.{subst}
use redis_vl_golang.Base.{
  ℕ, zero, suc, ◌+◌, ◌≤◌, ◌<◌, ◌≡◌, refl, sym, ap, ◌∙◌, arith, Bool, true, false, Option, none,
  some, Option-cases, inl, inr, List, [], ◌∷◌, ◌++◌, length, ◌==◌, not, take, drop, length-drop,
  take-append-drop, append-nil, append_assoc, Result, ok, err, Result-cases, map_err,
}
use redis_vl_golang.Base.Int.{ℤ}
use redis_vl_golang.Command.{Arg}
use redis_vl_golang.Schema.Index.{IndexSchema}
use redis_vl_golang.Query.Vector.{QueryError}
use redis_vl_golang.Query.Options.{build_search_args}
use redis_vl_golang.Index.Value.{Value, Scalars}
use redis_vl_golang.Index.Reply.{SearchResult, ReplyError, parse_search_reply}
use redis_vl_golang.Index.Server.{
  Server, Queued, queued_do, RedisError, IndexError, query, reply, in_batch, first_error, Action,
  return, ◌>>>◌, after, lift, answered,
}
use redis_vl_golang.Index.Search.{Runnable, name_of, named_error, search, checked}
use redis_vl_golang.Index.Batch.{
  batch_size, queue_queries, queue_query, prepend, parse_answers, then_prepend, search_batches,
  batch_search, send_batch, after_exec, after_answers, check_exec, Batched,
}

batch_size_positive : (size : Option ℤ) → 0 < batch_size size
unfolding batch_size
batch_size_positive none = omega arith
batch_size_positive (some n) = ground arith

module _ {ℓ} {S : Type ℓ} (server : Server S) (c : Scalars) (i : IndexSchema) where
  -- The queries one by one.
  unfoldable pub search_each : List Runnable → Action S (List SearchResult)
  search_each [] s = (ok [], s)
  search_each (r ∷ rs) s =
      after (λ res. search_each rs >>> λ rest. return (res ∷ rest)) (search server c i r s)

  module _ (answer : List Arg → Value) where
    abbrev args_of : Runnable → List Arg
    args_of r = build_search_args (name_of i) r.query

    -- Each query can run, and its answer is read as its result.
    Answered : List Runnable → List SearchResult → Type 0
    Answered [] [] = Unit
    Answered (r ∷ rs) (res ∷ results) =
        (r.error ≡ none)
        × (parse_search_reply c (answer (args_of r)) r.query.options ≡ ok res)
        × Answered rs results
    Answered [] (res ∷ results) = ⊥
    Answered (r ∷ rs) [] = ⊥

    unfoldable pub answers_to : List Runnable → List (Result RedisError Value)
    answers_to [] = []
    answers_to (r ∷ rs) = ok (answer (args_of r)) ∷ answers_to rs

    unfoldable pub queued : List Runnable → List Queued
    queued [] = []
    queued (r ∷ rs) = queued_do (args_of r) ∷ queued rs

    first_error-answers_to : (rs : List Runnable) → first_error (answers_to rs) ≡ none
    unfolding first_error answers_to
    first_error-answers_to [] = refl
    first_error-answers_to (r ∷ rs) = first_error-answers_to rs

    queue_queries-Answered :
        (rs : List Runnable) (results : List SearchResult)
        → Answered rs results
        → queue_queries c i rs ≡ ok (queued rs)
    unfolding queue_queries Answered queued
    queue_queries-Answered [] [] a = refl
    queue_queries-Answered (r ∷ rs) (res ∷ results) (fine, parsed, a) =
        ap (λ e. queue_query c i r e (queue_queries c i rs)) fine
        ∙ ap (prepend (queued_do (args_of r))) (queue_queries-Answered rs results a)
    queue_queries-Answered [] (res ∷ results) a = absurd a
    queue_queries-Answered (r ∷ rs) [] a = absurd a

    parse_answers-Answered :
        (n : ℕ) (rs : List Runnable) (results : List SearchResult)
        → Answered rs results
        → parse_answers c i n rs (answers_to rs) ≡ ok results
    unfolding parse_answers Answered answers_to
    parse_answers-Answered n [] [] a = refl
    parse_answers-Answered n (r ∷ rs) (res ∷ results) (fine, parsed, a) =
        ap
          (λ p.
            then_prepend c i (map_err (λ e. in_batch n (reply e)) p)
              (parse_answers c i (suc n) rs (answers_to rs)))
          parsed
        ∙ ap (prepend res) (parse_answers-Answered (suc n) rs results a)
    parse_answers-Answered n [] (res ∷ results) a = absurd a
    parse_answers-Answered n (r ∷ rs) [] a = absurd a

    Answered-take :
        (n : ℕ) (rs : List Runnable) (results : List SearchResult)
        → Answered rs results
        → Answered (take n rs) (take n results) × Answered (drop n rs) (drop n results)
    unfolding Answered
    Answered-take zero rs results a = (tt, a)
    Answered-take (suc n) [] [] a = (tt, tt)
    Answered-take (suc n) (r ∷ rs) (res ∷ results) (fine, parsed, a) =
        let (front, back) = Answered-take n rs results a in ((fine, parsed, front), back)
    Answered-take (suc n) [] (res ∷ results) a = absurd a
    Answered-take (suc n) (r ∷ rs) [] a = absurd a

    check_exec-none :
        (b : Bool) (results : List SearchResult) (s : S)
        (rest : List SearchResult → S → Batched c i server)
        → check_exec c i server b none results s rest ≡ rest results s
    check_exec-none true results s rest = refl
    check_exec-none false results s rest = refl

    send_batch-Answered :
        (n : ℕ) (batch : List Runnable) (before results : List SearchResult) (s : S)
        (rest : List SearchResult → S → Batched c i server)
        → Answered batch results
        → server.exec (queued batch) s ≡ (answers_to batch, s)
        → send_batch c i server n batch before (queue_queries c i batch) s rest
          ≡ rest (before ++ results) s
    send_batch-Answered n batch before results s rest a sent =
        ap (λ q. send_batch c i server n batch before q s rest)
          (queue_queries-Answered batch results a)
        ∙ ap (λ t. after_exec c i server n batch before t rest) sent
        ∙ ap
            (λ e.
              after_answers c i server (n + length batch) before e
                (parse_answers c i n batch (answers_to batch)) s rest)
            (first_error-answers_to batch)
        ∙ ap (λ p. after_answers c i server (n + length batch) before none p s rest)
            (parse_answers-Answered n batch results a)
        ∙ check_exec-none (not (length (before ++ results) == n + length batch)) (before ++ results)
            s rest

    search_batches-Answered :
        (bs fuel start : ℕ) (rs : List Runnable) (before results : List SearchResult) (s : S)
        → 0 < bs
        → ((batch : List Runnable) (s : S) → server.exec (queued batch) s ≡ (answers_to batch, s))
        → Answered rs results
        → length rs ≤ fuel
        → search_batches c i server fuel bs start rs before s ≡ some (ok (before ++ results), s)
    unfolding search_batches Answered
    search_batches-Answered bs zero start [] before [] s positive pure a enough =
        ap (λ t. some (ok t, s)) (sym (append-nil before))
    search_batches-Answered bs (suc fuel) start [] before [] s positive pure a enough =
        ap (λ t. some (ok t, s)) (sym (append-nil before))
    search_batches-Answered bs (suc fuel) start (r ∷ rs) before (res ∷ results) s positive pure a
          enough =
        let (front, back) = Answered-take bs (r ∷ rs) (res ∷ results) a in
        let fewer = length-drop bs (r ∷ rs) in
        send_batch-Answered start (take bs (r ∷ rs)) before (take bs (res ∷ results)) s
          (search_batches c i server fuel bs (start + bs) (drop bs (r ∷ rs))) front
          (pure (take bs (r ∷ rs)) s)
        ∙ search_batches-Answered bs fuel (start + bs) (drop bs (r ∷ rs))
            (before ++ take bs (res ∷ results)) (drop bs (res ∷ results)) s positive pure back
            (omega arith)
        ∙ ap (λ t. some (ok t, s))
            (append_assoc before (take bs (res ∷ results)) (drop bs (res ∷ results))
              ∙ ap (λ t. before ++ t) (take-append-drop bs (res ∷ results)))
    search_batches-Answered bs zero start (r ∷ rs) before results s positive pure a enough =
        absurd (omega arith)
    search_batches-Answered bs fuel start [] before (res ∷ results) s positive pure a enough =
        absurd a
    search_batches-Answered bs (suc fuel) start (r ∷ rs) before [] s positive pure a enough =
        absurd a

    abbrev outcome :
        Option QueryError → Result ReplyError SearchResult → Result IndexError SearchResult
    outcome none p = map_err reply p
    outcome (some e) p = err (query e)

    search-outcome :
        (r : Runnable) (s : S) (o : Option QueryError)
        → ((args : List Arg) (s : S) → server.call args s ≡ (ok (answer args), s))
        → r.error ≡ o
        → search server c i r s
          ≡ (outcome o (parse_search_reply c (answer (args_of r)) r.query.options), s)
    unfolding search
    search-outcome r s none pure h =
        ap (λ e. checked server c i r e s) h
        ∙ ap
            (λ a.
              after (λ v. lift (map_err reply (parse_search_reply c v r.query.options)))
                (answered (named_error (name_of i)) a))
            (pure (args_of r) s)
    search-outcome r s (some e) pure h = ap (λ e. checked server c i r e s) h

    after-eq-ok :
        (res : SearchResult) (m : Result IndexError (List SearchResult) × S)
        (results : List SearchResult) (s : S)
        → after (λ rest. return (res ∷ rest)) m ≡ (ok results, s)
        → (rest : List SearchResult) × (m ≡ (ok rest, s)) × (res ∷ rest ≡ results)
    after-eq-ok res (err e, s') results s h = cc
    after-eq-ok res (ok rest, s') results s h = (rest, cc, cc)

    Answered-search_each :
        (rs : List Runnable) (results : List SearchResult) (s : S)
        → ((args : List Arg) (s : S) → server.call args s ≡ (ok (answer args), s))
        → search_each rs s ≡ (ok results, s)
        → Answered rs results
    unfolding Answered search_each
    Answered-search_each [] [] s pure h = tt
    Answered-search_each [] (res ∷ results) s pure h = cc
    Answered-search_each (r ∷ rs) results s pure h =
        let K : SearchResult → Action S (List SearchResult) =
          λ res. search_each rs >>> λ rest. return (res ∷ rest) in
        elim (Option-cases r.error) [
          | inr (e, q) ↦ cc (h, ap (after K) (search-outcome r s (some e) pure q))
          | inl fine ↦
              elim (Result-cases (parse_search_reply c (answer (args_of r)) r.query.options)) [
                | inl (e, q) ↦ cc (
                  h,
                  ap (after K) (search-outcome r s none pure fine),
                  ap (λ p. after K (map_err reply p, s)) q,
                )
                | inr (res, parsed) ↦
                    let found =
                      search-outcome r s none pure fine ∙ ap (λ p. (map_err reply p, s)) parsed in
                    let (rest, each, same) =
                      after-eq-ok res (search_each rs s) results s (sym (ap (after K) found) ∙ h) in
                    subst (Answered (r ∷ rs)) same
                      (fine, parsed, Answered-search_each rs rest s pure each)
              ]
        ]

    -- Where the queries one by one all have results, and the server answers a command in a pipeline as
    -- it answers it alone and keeps its state, a batch of the queries returns the same results, in the
    -- order of the queries, whatever the size of the batches: fuel for as many batches as queries is
    -- enough.
    pub batch_search-search_each :
        (size : Option ℤ) (fuel : ℕ) (rs : List Runnable) (results : List SearchResult) (s : S)
        → ((args : List Arg) (s : S) → server.call args s ≡ (ok (answer args), s))
        → ((batch : List Runnable) (s : S) → server.exec (queued batch) s ≡ (answers_to batch, s))
        → search_each rs s ≡ (ok results, s)
        → length rs ≤ fuel
        → batch_search c i server fuel size rs s ≡ some (ok results, s)
    unfolding batch_search
    batch_search-search_each size fuel rs results s pure piped each enough =
        search_batches-Answered (batch_size size) fuel 0 rs [] results s (batch_size_positive size)
          piped (Answered-search_each rs results s pure each) enough
