-- ===== src/Cache/Vectorizer/Laws.antt =====
-- What `EmbedMany` of the cached vectorizer returns.
use redis_vl_golang.Base.{
  ℕ, suc, ◌≡◌, refl, ap, ◌∙◌, arith, String, false, Bool-cases, inl, inr, Option, none, some, List,
  [], ◌∷◌, ◌++◌, map, length, get_elem?, ◌==◌, Result, ok, err, if◌then◌else◌,
}
use redis_vl_golang.Base.Dict.{Dict}
use redis_vl_golang.Cache.Vectorizer.{
  Embedding, usable, is_miss, served, miss_idx, texts_at, put, scatter, to_cache, embed_many,
  after_lookup, fetched, embedded, written,
}

snoc-append {ℓ} :
    {A : Type ℓ} (xs : List A) (x : A) (ys : List A) → (xs ++ (x ∷ [])) ++ ys ≡ xs ++ (x ∷ ys)
snoc-append [] x ys = refl
snoc-append (z ∷ xs) x ys = ap (λ t. z ∷ t) (snoc-append xs x ys)

length-snoc {ℓ} : {A : Type ℓ} (xs : List A) (x : A) → length (xs ++ (x ∷ [])) ≡ suc (length xs)
length-snoc [] x = refl
length-snoc (z ∷ xs) x = ap suc (length-snoc xs x)

get-append {ℓ} :
    {A : Type ℓ} (xs : List A) (y : A) (ys : List A)
    → get_elem? (xs ++ (y ∷ ys)) (length xs) ≡ some y
get-append [] y ys = refl
get-append (x ∷ xs) y ys = get-append xs y ys

put-append {ℓ} :
    {A : Type ℓ} (xs : List A) (y v : A) (ys : List A)
    → put (xs ++ (y ∷ ys)) (length xs) v ≡ xs ++ (v ∷ ys)
unfolding put
put-append [] y v ys = refl
put-append (x ∷ xs) y v ys = ap (λ t. x ∷ t) (put-append xs y v ys)

-- The texts whose entries are misses, in their order.
pub missed : List String → List (Option Embedding) → List String
missed [] entries = []
missed (t ∷ texts) [] = []
missed (t ∷ texts) (e ∷ entries) =
    let rest = missed texts entries in if is_miss e then t ∷ rest else rest

-- Each text's embedding: that of the cache if there is one, and else that of the function.
pub merged : (String → Embedding) → List String → List (Option Embedding) → List Embedding
merged f [] entries = []
merged f (t ∷ texts) [] = []
merged f (t ∷ texts) (e ∷ entries) = (if is_miss e then f t else served e) ∷ merged f texts entries

texts_at_lem :
    (before texts : List String) (entries : List (Option Embedding))
    → length entries ≡ length texts
    → texts_at (before ++ texts) (miss_idx (length before) entries) ≡ some (missed texts entries)
unfolding texts_at miss_idx missed
texts_at_lem before [] [] h = refl
texts_at_lem before (t ∷ texts) [] h = absurd (omega arith)
texts_at_lem before [] (e ∷ entries) h = absurd (omega arith)
texts_at_lem before (t ∷ texts) (e ∷ entries) h =
    let rest = texts_at_lem (before ++ (t ∷ [])) texts entries (omega arith) in
    let later : texts_at (before ++ (t ∷ texts)) (miss_idx (suc (length before)) entries)
        ≡ some (missed texts entries) =
      rw (snoc-append before t texts, length-snoc before t) at rest in
    elim (Bool-cases (is_miss e)) [
      | inl m ↦ rw (m, get-append before t texts, later) refl
      | inr m ↦ rw (m, later) refl
    ]

scatter_lem :
    (f : String → Embedding) (before : List Embedding) (texts : List String)
    (entries : List (Option Embedding))
    → length entries ≡ length texts
    → scatter
        (before ++ map served entries)
        (miss_idx (length before) entries)
        (map f (missed texts entries))
      ≡ some (before ++ merged f texts entries)
unfolding scatter miss_idx missed merged
scatter_lem f before [] [] h = refl
scatter_lem f before (t ∷ texts) [] h = absurd (omega arith)
scatter_lem f before [] (e ∷ entries) h = absurd (omega arith)
scatter_lem f before (t ∷ texts) (e ∷ entries) h =
    let next : (v : Embedding)
        → scatter (before ++ (v ∷ map served entries)) (miss_idx (suc (length before)) entries)
            (map f (missed texts entries))
          ≡ some (before ++ (v ∷ merged f texts entries)) =
      λ v.
        rw
          (
            snoc-append before v (map served entries),
            snoc-append before v (merged f texts entries),
            length-snoc before v,
          )
          at (scatter_lem f (before ++ (v ∷ [])) texts entries (omega arith)) in
    elim (Bool-cases (is_miss e)) [
      | inl m ↦ rw (m, put-append before (served e) (f t) (map served entries), next (f t)) refl
      | inr m ↦ rw (m, next (served e)) refl
    ]

length-misses :
    (texts : List String) → length (map {B = Option Embedding} (λ _. none) texts) ≡ length texts
length-misses [] = refl
length-misses (t ∷ texts) = ap suc (length-misses texts)

length-usable {ℓ} :
    {E : Type ℓ} (texts : List String) (r : Result E (List (Option Embedding)))
    → length (usable texts r) ≡ length texts
unfolding usable
length-usable texts (err e) = length-misses texts
length-usable texts (ok entries) = elim (Bool-cases (length entries == length texts)) [
  | inl h ↦ rw h (ground arith)
  | inr h ↦ rw h (length-misses texts)
]

-- Where a text has an embedding in the cache, it is that of the function.
unfoldable pub Agrees : (String → Embedding) → List String → List (Option Embedding) → Type 0
Agrees f (t ∷ texts) (e ∷ entries) = (is_miss e ≡ false → served e ≡ f t) × Agrees f texts entries
Agrees f texts entries = Unit

merged-Agrees :
    (f : String → Embedding) (texts : List String) (entries : List (Option Embedding))
    → length entries ≡ length texts
    → Agrees f texts entries
    → merged f texts entries ≡ map f texts
unfolding merged Agrees
merged-Agrees f [] entries h a = refl
merged-Agrees f (t ∷ texts) [] h a = absurd (omega arith)
merged-Agrees f (t ∷ texts) (e ∷ entries) h (p, a) = elim (Bool-cases (is_miss e)) [
  | inl m ↦ rw m (ap (λ r. f t ∷ r) (merged-Agrees f texts entries (omega arith) a))
  | inr m ↦ rw (m, p m) (ap (λ r. f t ∷ r) (merged-Agrees f texts entries (omega arith) a))
]

module _ {ℓ} {E : Type ℓ} (inner_embed_many : List String → Result E (List Embedding))
    (f : String → Embedding)
    (inner_map : (texts : List String) → inner_embed_many texts ≡ ok (map f texts)) where
  after_lookup_lem :
      (out : List Embedding) (idxs : List ℕ) (texts miss : List String) (all : List Embedding)
      → texts_at texts idxs ≡ some miss
      → scatter out idxs (map f miss) ≡ some all
      → after_lookup inner_embed_many out idxs texts
        ≡ some (ok (all, to_cache miss (map f miss) []))
  unfolding texts_at scatter to_cache
  after_lookup_lem out [] texts [] all h k = ap (written inner_embed_many [] []) k
  after_lookup_lem out [] texts (m ∷ miss) all h k = cc
  after_lookup_lem out (idx ∷ idxs) texts miss all h k =
      ap (fetched inner_embed_many out (idx ∷ idxs)) h
      ∙ ap (embedded inner_embed_many out (idx ∷ idxs) miss) (inner_map miss)
      ∙ ap (written inner_embed_many miss (map f miss)) k

  -- Where the inner vectorizer embeds each text by one function, `EmbedMany` does not panic. It
  -- returns for each text, in order, the embedding that the cache has, and that of the function
  -- where the cache has none; a lookup that fails or has another length
  -- counts as a miss of every text. The embeddings of
  -- the misses are written to the cache.
  pub embed_many-merged :
      (mget : List String → Result E (List (Option Embedding))) (texts : List String)
      → embed_many inner_embed_many mget texts
        ≡ some (
            ok (
              merged f texts (usable texts (mget texts)),
              to_cache
                  (missed texts (usable texts (mget texts)))
                  (map f (missed texts (usable texts (mget texts))))
                  [],
            ))
  unfolding embed_many
  embed_many-merged mget texts =
      let entries = usable texts (mget texts) in
      let same = length-usable texts (mget texts) in
      after_lookup_lem (map served entries) (miss_idx 0 entries) texts (missed texts entries)
        (merged f texts entries) (texts_at_lem [] texts entries same)
        (scatter_lem f [] texts entries same)

  -- Where the cache holds what the inner vectorizer returns for a text, `EmbedMany` returns what the
  -- inner vectorizer returns for all texts.
  pub embed_many-Agrees :
      (mget : List String → Result E (List (Option Embedding))) (texts : List String)
      → Agrees f texts (usable texts (mget texts))
      → (writes : Dict Embedding) × (embed_many inner_embed_many mget texts
          ≡ some (ok (map f texts, writes)))
  embed_many-Agrees mget texts a = (
    _,
    embed_many-merged mget texts
        ∙ ap
            (λ all. some (
              ok (
                all,
                to_cache (missed texts (usable texts (mget texts)))
                    (map f (missed texts (usable texts (mget texts)))) [],
              )))
            (merged-Agrees f texts (usable texts (mget texts)) (length-usable texts (mget texts))
              a),
  )
