-- ===== src/Query/Vector/Page.antt =====
-- What a page of a KNN query can show.
use package.text.Mathlib.TextLemmas.{append_assoc as text_append_assoc}
use redis_vl_golang.Base.{
  ℕ, String, ◌<>◌, ◌≡◌, refl, ap, ◌∙◌, ◌-◌, ◌≤◌, arith, List, length, take, drop, take_all,
  length-take, length-drop, show_int,
}
use redis_vl_golang.Base.Int.{pos, pos_part}
use redis_vl_golang.Vectors.Buffer.{Conversions}
use redis_vl_golang.Query.Options.{Options, limit_of, filter_string, build_search_args}
use redis_vl_golang.Query.Options.Grammar.{read_command}
use redis_vl_golang.Query.Options.Grammar.Laws.{read_command-build_search_args}
use redis_vl_golang.Query.Vector.{VectorQuery, paging, set, query_string, to_query}

-- The window of the results that LIMIT asks for.
pub window {ℓ} : {A : Type ℓ} → Options → List A → List A
window o hits = take (pos_part o.num) (drop (pos_part o.offset) hits)

limit_bound : (o : Options) (num : ℕ) → o.num ≡ pos num → num ≤ pos_part (limit_of o)
unfolding limit_of
limit_bound o num h = ground arith

window-take {ℓ} :
    {A : Type ℓ} (o : Options) (num : ℕ) (hits : List A)
    → o.num ≡ pos num
    → take (pos_part (limit_of o)) (drop (pos_part o.offset) (take num hits))
      ≡ drop (pos_part o.offset) (take num hits)
window-take o num hits h =
    take_all (pos_part (limit_of o)) (drop (pos_part o.offset) (take num hits)) (
      omega (
        arith,
        limit_bound o num h,
        length-drop (pos_part o.offset) (take num hits),
        length-take num hits,
      ))

knn_split :
    (n f rest : String)
    → ("KNN " <> (n <> (" @" <> f))) <> rest ≡ "KNN " <> (n <> (" @" <> (f <> rest)))
knn_split n f rest =
    text_append_assoc "KNN " (n <> (" @" <> f)) rest
    ∙ ap (λ t. "KNN " <> t)
        (text_append_assoc n (" @" <> f) rest ∙ ap (λ t. n <> t) (text_append_assoc " @" f rest))

-- The command of a KNN query after `Paging` with an offset and a number names that number as its K. Of
-- the K nearest hits that the search then has, the window of its LIMIT shows those after the offset
-- alone, and so num less offset at most.
pub window-paging {ℓ} :
    {A : Type ℓ} (c : Conversions) (name : String) (q : VectorQuery) (offset num : ℕ)
    (hits : List A)
    → let command = build_search_args name (to_query c (set (paging (pos offset) (pos num)) q)) in
      (rest : String) × ((read_command command).query_string
        ≡ filter_string q.filter <> ("=>[" <> ("KNN " <> (show_int (pos num) <> (" @" <> rest)))))
      × (window (read_command command).options (take num hits) ≡ drop offset (take num hits))
      × (length (drop offset (take num hits)) ≤ num - offset)
unfolding to_query set query_string window
window-paging c name q offset num hits =
    let paged = set (paging (pos offset) (pos num)) q in
    let same = read_command-build_search_args name (to_query c paged) in
    (
      _,
      ap (λ m. m.query_string) same
          ∙ ap (λ t. filter_string q.filter <> ("=>[" <> t))
              (knn_split (show_int (pos num)) (q.field_name <> " $vector") _),
      ap (λ m. window m.options (take num hits)) same ∙ window-take paged.options num hits refl,
      omega (arith, length-drop offset (take num hits), length-take num hits),
    )
