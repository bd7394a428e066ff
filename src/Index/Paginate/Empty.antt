-- ===== src/Index/Paginate/Empty.antt =====
-- That `Clear` ends, with every key deleted.
use redis_vl_golang.Base.{
  ℕ, zero, suc, ◌+◌, ◌-◌, ◌<◌, String, ◌≡◌, refl, ap, ◌∙◌, ◌⊎◌, inl, inr, arith, true, false,
  Bool-cases, none, some, List, [], ◌∷◌, map, length, ltb, ok,
}
use Prim.Native.Nat.{min}
use redis_vl_golang.Base.Int.{pos}
use redis_vl_golang.Schema.Index.{IndexSchema}
use redis_vl_golang.Index.Value.{text, Scalars}
use redis_vl_golang.Index.Reply.{Document}
use redis_vl_golang.Index.Reply.Protocols.{
  Hit, any_keys, list_reply, hit_documents, hit_document, parse_search_reply_protocols,
}
use redis_vl_golang.Index.Server.{Server}
use redis_vl_golang.Index.Search.{name_of}
use redis_vl_golang.Index.Paginate.{
  clear, clear_from, clear_size, clear_options, clear_args, Cleared, after_search, after_parse,
  after_del, next_round,
}

-- Keys as the hits of a search without content.
unfoldable pub key_hits : List String → List Hit
key_hits [] = []
key_hits (k ∷ ks) = record { key = k; score = text ""; fields = [] } ∷ key_hits ks

key_documents :
    (c : Scalars) (ks : List String)
    → map (λ (e : Document). e.id) (hit_documents c false true (key_hits ks)) ≡ ks
unfolding hit_documents hit_document key_hits
key_documents c [] = refl
key_documents c (k ∷ ks) = ap (λ t. k ∷ t) (key_documents c ks)

length-key_documents :
    (c : Scalars) (ks : List String) → length (hit_documents c false true (key_hits ks)) ≡ length ks
unfolding hit_documents key_hits
length-key_documents c [] = refl
length-key_documents c (k ∷ ks) = omega (arith, length-key_documents c ks)

cases_zero : (n : ℕ) → (n ≡ 0) ⊎ (0 < n)
cases_zero zero = inl refl
cases_zero (suc n) = inr (omega arith)

module _ {ℓ} {S : Type ℓ} (server : Server S) (c : Scalars) (i : IndexSchema) where
  -- One round: the keys of the page are deleted, and a short page is the last.
  round_cons :
      (total count : ℕ) (k : String) (ks : List String) (s s' : S)
      (rest : ℕ → S → Cleared server c i)
      → server.call (clear_args (name_of i)) s
        ≡ (ok (list_reply clear_options (pos count) (key_hits (k ∷ ks))), s)
      → server.del (k ∷ ks) s ≡ (ok (length (k ∷ ks)), s')
      → after_search server c i total (server.call (clear_args (name_of i)) s) rest
        ≡ next_round server c i (ltb (length (k ∷ ks)) clear_size) (total + length (k ∷ ks)) s' rest
  unfolding hit_documents hit_document key_hits
  round_cons total count k ks s s' rest asked deleted =
      let (listed, _) =
        parse_search_reply_protocols c any_keys clear_options (pos count) (key_hits (k ∷ ks)) in
      let same : length (hit_documents c false true (key_hits (k ∷ ks))) ≡ length (k ∷ ks) =
        length-key_documents c (k ∷ ks) in
      ap (λ a. after_search server c i total a rest) asked
      ∙ ap (λ p. after_parse server c i total p s rest) listed
      ∙ ap
          (λ n.
            after_del server c i (ltb n clear_size) total
              (server.del
                (map (λ (e : Document). e.id) (hit_documents c false true (key_hits (k ∷ ks)))) s)
              rest)
          same
      ∙ ap
          (λ names.
            after_del server c i (ltb (length (k ∷ ks)) clear_size) total (server.del names s) rest)
          (key_documents c (k ∷ ks))
      ∙ ap (λ a. after_del server c i (ltb (length (k ∷ ks)) clear_size) total a rest) deleted

  round_nil :
      (total count : ℕ) (s : S) (rest : ℕ → S → Cleared server c i)
      → server.call (clear_args (name_of i)) s ≡ (ok (list_reply clear_options (pos count) []), s)
      → after_search server c i total (server.call (clear_args (name_of i)) s) rest
        ≡ some ((total, none), s)
  unfolding hit_documents
  round_nil total count s rest asked =
      let (listed, _) = parse_search_reply_protocols c any_keys clear_options (pos count) [] in
      ap (λ a. after_search server c i total a rest) asked
      ∙ ap (λ p. after_parse server c i total p s rest) listed

  module _ (size : S → ℕ) (page : S → List String) (removed : S → S) where
    clear_round :
        (total : ℕ) (s : S) (rest : ℕ → S → Cleared server c i) (p : List String)
        → 0 < length p
        → server.call (clear_args (name_of i)) s
          ≡ (ok (list_reply clear_options (pos (size s)) (key_hits p)), s)
        → server.del p s ≡ (ok (length p), removed s)
        → after_search server c i total (server.call (clear_args (name_of i)) s) rest
          ≡ next_round server c i (ltb (length p) clear_size) (total + length p) (removed s) rest
    clear_round total s rest [] some_keys asked deleted = absurd (omega arith)
    clear_round total s rest (k ∷ ks) some_keys asked deleted =
        round_cons total (size s) k ks s (removed s) rest asked deleted

    clear_none :
        (total : ℕ) (s : S) (rest : ℕ → S → Cleared server c i) (p : List String)
        → length p ≡ 0
        → server.call (clear_args (name_of i)) s
          ≡ (ok (list_reply clear_options (pos (size s)) (key_hits p)), s)
        → after_search server c i total (server.call (clear_args (name_of i)) s) rest
          ≡ some ((total, none), s)
    unfolding key_hits
    clear_none total s rest [] no_keys asked = round_nil total (size s) s rest asked
    clear_none total s rest (k ∷ ks) no_keys asked = absurd (omega arith)

    clear_from_lem :
        ((s : S)
          → server.call (clear_args (name_of i)) s
            ≡ (ok (list_reply clear_options (pos (size s)) (key_hits (page s))), s))
        → ((s : S) → server.del (page s) s ≡ (ok (length (page s)), removed s))
        → ((s : S) → length (page s) ≡ min clear_size (size s))
        → ((s : S) → size (removed s) ≡ size s - length (page s))
        → (fuel total : ℕ) (s : S) → size s < fuel
        → (s' : S) × (size s' ≡ 0)
          × (clear_from server c i fuel total s ≡ some ((total + size s, none), s'))
    unfolding clear_from
    clear_from_lem asked deleted width left zero total s enough = absurd (omega arith)
    clear_from_lem asked deleted width left (suc fuel) total s enough =
        let K = clear_from server c i fuel in
        let w = width s in
        let l = left s in
        elim (cases_zero (size s)) [
          | inl none_left ↦ (
            s,
            none_left,
            clear_none total s K (page s) (omega arith) (asked s)
                ∙ ap (λ n. some ((n, none), s)) (omega arith),
          )
          | inr some_left ↦
              let round = clear_round total s K (page s) (omega arith) (asked s) (deleted s) in
              elim (Bool-cases (ltb (length (page s)) clear_size)) [
                | inl last ↦
                    let all_counted : total + length (page s) ≡ total + size s = ground arith in
                    (
                      removed s,
                      ground arith,
                      round
                          ∙ ap
                              (λ b. next_round server c i b (total + length (page s)) (removed s) K)
                              last
                          ∙ ap (λ n. some ((n, none), removed s)) all_counted,
                    )
                | inr more ↦
                    let (s', gone, run) =
                      clear_from_lem asked deleted width left fuel (total + length (page s))
                        (removed s) (omega arith) in
                    (
                      s',
                      gone,
                      round
                          ∙ ap
                              (λ b. next_round server c i b (total + length (page s)) (removed s) K)
                              more
                          ∙ run
                          ∙ ap (λ n. some ((n, none), s')) (omega arith),
                    )
              ]
        ]

    -- Where each search is answered with a page of at most 500 of the keys that are left, in the form
    -- of a list, and each `DEL` deletes and counts the keys it names, `Clear` ends, with more fuel than
    -- keys: it returns the number of keys without an error, and no key is left.
    pub clear_all :
        ((s : S)
          → server.call (clear_args (name_of i)) s
            ≡ (ok (list_reply clear_options (pos (size s)) (key_hits (page s))), s))
        → ((s : S) → server.del (page s) s ≡ (ok (length (page s)), removed s))
        → ((s : S) → length (page s) ≡ min clear_size (size s))
        → ((s : S) → size (removed s) ≡ size s - length (page s))
        → (fuel : ℕ) (s : S) → size s < fuel
        → (s' : S) × (size s' ≡ 0) × (clear server c i fuel s ≡ some ((size s, none), s'))
    unfolding clear
    clear_all asked deleted width left fuel s enough =
        let (s', gone, run) = clear_from_lem asked deleted width left fuel 0 s enough in
        (s', gone, run ∙ ap (λ n. some ((n, none), s')) (omega arith))
