-- ===== src/Index/Paginate/Pages.antt =====
-- What `Paginate` hands to its callback, and that it ends.
use Prim.Native.Nat.{min}
use redis_vl_golang.Base.{
  ℕ, zero, suc, ◌+◌, ◌-◌, ◌≤◌, ◌<◌, String, ◌≡◌, refl, sym, ap, ◌∙◌, arith, false, Bool-cases,
  concat, run_all, take-nil, drop_add, drop_all, Option, none, some, List, [], ◌∷◌, ◌++◌, map,
  length, ltb, ok, take, drop, length-take, length-drop, take-append-drop, inl, inr,
}
use redis_vl_golang.Base.Int.{ℤ, pos, leb_ℤ}
use redis_vl_golang.Base.Dict.{Dict}
use redis_vl_golang.Schema.Index.{IndexSchema}
use redis_vl_golang.Query.Options.{Floats, build_search_args}
use redis_vl_golang.Index.Value.{Value, Scalars}
use redis_vl_golang.Index.Reply.Protocols.{Hit, any_keys, list_reply, hit_documents}
use redis_vl_golang.Index.Server.{Server, Action, after, return}
use redis_vl_golang.Index.Search.{
  Runnable, run_query, process_doc, process_results, name_of, unpacks,
}
use redis_vl_golang.Index.Search.Errors.{search_hits}
use redis_vl_golang.Index.Paginate.{
  Ended, at_page, pages, after_query, next_page, paginate, positive_size,
}

-- Every page has an element, and no more than a size.
unfoldable pub PagesWithin {ℓ} : {A : Type ℓ} → ℕ → List (List A) → Type 0
PagesWithin size [] = Unit
PagesWithin size (p ∷ ps) = (0 < length p) × (length p ≤ size) × PagesWithin size ps

module _ {ℓ} {S : Type ℓ} (server : Server S) (c : Scalars) (i : IndexSchema) (f : Floats)
    (unmarshal : String → Option (Dict Value)) (step : List (Dict Value) → S → S) (r : Runnable)
    (size : ℕ) where
  -- A callback that acts on the state and returns no error.
  abbrev keep_on : List (Dict Value) → Action S (Unit {0})
  keep_on page s = (ok tt, step page s)

  -- The documents that become of hits.
  abbrev pub rows : List Hit → List (Dict Value)
  rows hits =
      map (process_doc server c i f unmarshal r.query.options r.normalized_field)
        (hit_documents c r.query.options.with_scores r.query.options.no_content hits)

  length-rows : (hits : List Hit) → length (rows hits) ≡ length hits
  unfolding hit_documents
  length-rows [] = refl
  length-rows (h ∷ hits) = omega (arith, length-rows hits)

  rows-append : (xs ys : List Hit) → rows (xs ++ ys) ≡ rows xs ++ rows ys
  unfolding hit_documents
  rows-append [] ys = refl
  rows-append (x ∷ xs) ys = ap (λ t. rows (x ∷ []) ++ t) (rows-append xs ys)

  run_query-page :
      (offset : ℕ) (s : S) (total : ℤ) (page : List Hit)
      → r.error ≡ none
      → server.call (build_search_args (name_of i) (at_page r offset size).query) s
        ≡ (ok (list_reply r.query.options total page), s)
      → run_query server c i f unmarshal (at_page r offset size) s ≡ (ok (rows page), s)
  unfolding run_query process_results list_reply process_doc unpacks
  run_query-page offset s total page h sent =
      ap
        (λ a.
          after (λ res. return (process_results server c i f unmarshal (at_page r offset size) res))
            a)
        (search_hits server c i (at_page r offset size) s s any_keys total page
          (list_reply r.query.options total page) h (inl refl) sent)

  take_cons :
      (h : Hit) (rest : List Hit) → 0 < size → (t : List Hit) × (take size (h ∷ rest) ≡ h ∷ t)
  take_cons h rest positive =
      let one_more : suc (size - 1) ≡ size = omega arith in
      (take (size - 1) rest, ap (λ k. take k (h ∷ rest)) (sym one_more))

  -- What `Paginate` does with a page of hits.
  query-page :
      (total : ℤ) (offset : ℕ) (s : S) (page : List Hit) (rest : S → Ended S (Unit {0}))
      → r.error ≡ none
      → server.call (build_search_args (name_of i) (at_page r offset size).query) s
        ≡ (ok (list_reply r.query.options total page), s)
      → after_query server c i f unmarshal keep_on size
          (run_query server c i f unmarshal (at_page r offset size) s)
          rest
        ≡ after_query server c i f unmarshal keep_on size (ok (rows page), s) rest
  query-page total offset s page rest fine sent =
      ap (λ a. after_query server c i f unmarshal keep_on size a rest)
        (run_query-page offset s total page fine sent)

  after_query-cons :
      (h : Hit) (t : List Hit) (s : S) (rest : S → Ended S (Unit {0}))
      → after_query server c i f unmarshal keep_on size (ok (rows (h ∷ t)), s) rest
        ≡ next_page server c i f unmarshal keep_on
            (ltb (length (rows (h ∷ t))) size)
            (step (rows (h ∷ t)) s)
            rest
  unfolding hit_documents
  after_query-cons h t s rest = refl

  paginate_from :
      (total : ℤ) (hits : List Hit)
      → 0 < size
      → r.error ≡ none
      → ((offset : ℕ) (s : S)
          → server.call (build_search_args (name_of i) (at_page r offset size).query) s
            ≡ (ok (list_reply r.query.options total (take size (drop offset hits))), s))
      → (fuel offset : ℕ) (rest : List Hit) (s : S) → drop offset hits ≡ rest
      → length rest < fuel
      → (ps : List (List (Dict Value))) × (concat ps ≡ rows rest)
        × PagesWithin size ps
        × (pages server c i f unmarshal keep_on fuel r size offset s
            ≡ some (ok tt, run_all step ps s))
  unfolding pages concat PagesWithin run_all hit_documents
  paginate_from total hits positive fine sent (suc fuel) offset [] s at enough =
      let K = pages server c i f unmarshal keep_on fuel r size (offset + size) in
      let no_page : take size (drop offset hits) ≡ [] = ap (take size) at ∙ take-nil size in
      (
        [],
        refl,
        tt,
        query-page total offset s (take size (drop offset hits)) K fine (sent offset s)
            ∙ ap (λ p. after_query server c i f unmarshal keep_on size (ok (rows p), s) K) no_page,
      )
  paginate_from total hits positive fine sent (suc fuel) offset (h ∷ rest) s at enough =
      let K = pages server c i f unmarshal keep_on fuel r size (offset + size) in
      let (t, shape) = take_cons h rest positive in
      let page = rows (h ∷ t) in
      let taken : take size (drop offset hits) ≡ h ∷ t = ap (take size) at ∙ shape in
      let asked =
        query-page total offset s (take size (drop offset hits)) K fine (sent offset s)
        ∙ ap (λ p. after_query server c i f unmarshal keep_on size (ok (rows p), s) K) taken
        ∙ after_query-cons h t s K in
      let left = drop size (h ∷ rest) in
      let joined : rows (h ∷ rest) ≡ page ++ rows left =
        ap rows (sym (take-append-drop size (h ∷ rest)) ∙ ap (λ p. p ++ left) shape)
        ∙ rows-append (h ∷ t) left in
      let count : length (h ∷ t) ≡ min size (length (h ∷ rest)) =
        ap length (sym shape) ∙ length-take size (h ∷ rest) in
      let width : length page ≡ length (h ∷ t) = length-rows (h ∷ t) in
      let fewer = length-drop size (h ∷ rest) in
      elim (Bool-cases (ltb (length page) size)) [
        | inl last ↦ (
          page ∷ [],
          ap (λ t. page ++ t) (sym (ap rows (drop_all size (h ∷ rest) (ground arith))))
              ∙ sym joined,
          (omega arith, omega arith, tt),
          asked ∙ ap (λ b. next_page server c i f unmarshal keep_on b (step page s) K) last,
        )
        | inr more ↦
            let (ps, whole, within, run) =
              paginate_from total hits positive fine sent fuel (offset + size) left (step page s)
                (drop_add offset size hits ∙ ap (drop size) at) (omega arith) in
            (
              page ∷ ps,
              ap (λ t. page ++ t) whole ∙ sym joined,
              (omega arith, omega arith, within),
              asked
                  ∙ ap (λ b. next_page server c i f unmarshal keep_on b (step page s) K) more
                  ∙ run,
            )
      ]
  paginate_from total hits positive fine sent zero offset rest s at enough = absurd (omega arith)

  -- Where every command for a page is answered with the hits of that page, in the form of a list,
  -- and the callback returns no error, `Paginate` on any positive size ends without an error, with
  -- more fuel than hits: its callback got all hits' documents, in order, in pages that are not empty
  -- and no longer than the size.
  pub paginate_all :
      (total : ℤ) (hits : List Hit) (fuel : ℕ) (s : S)
      → 0 < size
      → r.error ≡ none
      → ((offset : ℕ) (s : S)
          → server.call (build_search_args (name_of i) (at_page r offset size).query) s
            ≡ (ok (list_reply r.query.options total (take size (drop offset hits))), s))
      → length hits < fuel
      → (ps : List (List (Dict Value))) × (concat ps ≡ rows hits)
        × PagesWithin size ps
        × (paginate server c i f unmarshal keep_on fuel r (pos size) s
            ≡ some (ok tt, run_all step ps s))
  unfolding paginate
  paginate_all total hits fuel s positive fine sent enough =
      let (ps, whole, within, run) =
        paginate_from total hits positive fine sent fuel 0 hits s refl enough in
      let not_zero : leb_ℤ (pos size) (pos 0) ≡ false = ground arith in
      (
        ps,
        whole,
        within,
        ap (λ b. positive_size server c i f unmarshal keep_on b fuel r size s) not_zero ∙ run,
      )
