-- ===== src/Cache/Vectorizer.antt =====
-- extensions/cache/cached_vectorizer.go: a vectorizer with a cache of embeddings before it.
--
-- The cache's `Get` and `MGet` and the inner vectorizer are parameters. An embedding that is nil
-- is the empty list. An index out of range would panic: `none` is that panic.
pub mod Laws
use redis_vl_golang.Base.{
  ℕ, zero, suc, String, Bool, true, false, Option, none, some, List, [], ◌∷◌, map, length,
  get_elem?, ◌==◌, Result, ok, err, if◌then◌else◌,
}
use redis_vl_golang.Base.Float.{Float64}
use redis_vl_golang.Base.Dict.{Dict, insert}

abbrev pub Embedding : Type 0
Embedding = List Float64

-- What `MGet` returned, or a miss for each text where that is an error or of another length.
unfoldable pub usable {ℓ} :
    {E : Type ℓ} → List String → Result E (List (Option Embedding)) → List (Option Embedding)
usable texts (err e) = map (λ _. none) texts
usable texts (ok entries) =
    if length entries == length texts then entries else map (λ _. none) texts

-- `entry != nil && len(entry.Embedding) > 0`, for the first loop.
abbrev pub is_miss : Option Embedding → Bool
is_miss none = true
is_miss (some []) = true
is_miss (some (x ∷ xs)) = false

abbrev pub served : Option Embedding → Embedding
served none = []
served (some e) = e

unfoldable pub miss_idx : ℕ → List (Option Embedding) → List ℕ
miss_idx n [] = []
miss_idx n (entry ∷ entries) =
    let rest = miss_idx (suc n) entries in if is_miss entry then n ∷ rest else rest

abbrev pub cons_some {ℓ} : {A : Type ℓ} → Option A → Option (List A) → Option (List A)
cons_some (some x) (some xs) = some (x ∷ xs)
cons_some _ _ = none

-- `missTexts[n] = texts[idx]`, over the indices.
unfoldable pub texts_at : List String → List ℕ → Option (List String)
texts_at texts [] = some []
texts_at texts (idx ∷ idxs) = cons_some (get_elem? texts idx) (texts_at texts idxs)

-- `out[idx] = e`, for an index in range.
unfoldable pub put {ℓ} : {A : Type ℓ} → List A → ℕ → A → List A
put [] idx e = []
put (x ∷ out) zero e = e ∷ out
put (x ∷ out) (suc idx) e = x ∷ put out idx e

-- `out[idx] = embeddings[n]`, over the indices.
unfoldable pub scatter : List Embedding → List ℕ → List Embedding → Option (List Embedding)
unfolding put
scatter out [] embeddings = some out
scatter out (idx ∷ idxs) [] = none
scatter out (idx ∷ idxs) (e ∷ embeddings) = scatter (put out idx e) idxs embeddings

-- `toCache[missTexts[n]] = embeddings[n]`
unfoldable pub to_cache : List String → List Embedding → Dict Embedding → Dict Embedding
to_cache (t ∷ texts) (e ∷ embeddings) m = to_cache texts embeddings (insert t e m)
to_cache texts embeddings m = m

module _ {ℓ} {E : Type ℓ} (inner_embed_many : List String → Result E (List Embedding)) where
  -- The embeddings, and what is written to the cache.
  abbrev pub Outcome : Type ℓ
  Outcome = Option (Result E (List Embedding × Dict Embedding))

  abbrev pub written : List String → List Embedding → Option (List Embedding) → Outcome
  written missed embeddings none = none
  written missed embeddings (some out) = some (ok (out, to_cache missed embeddings []))

  abbrev pub embedded : List Embedding → List ℕ → List String → Result E (List Embedding) → Outcome
  embedded out idxs missed (err e) = some (err e)
  embedded out idxs missed (ok embeddings) = written missed embeddings (scatter out idxs embeddings)

  abbrev pub fetched : List Embedding → List ℕ → Option (List String) → Outcome
  fetched out idxs none = none
  fetched out idxs (some missed) = embedded out idxs missed (inner_embed_many missed)

  abbrev pub after_lookup : List Embedding → List ℕ → List String → Outcome
  after_lookup out [] texts = some (ok (out, []))
  after_lookup out (idx ∷ idxs) texts = fetched out (idx ∷ idxs) (texts_at texts (idx ∷ idxs))

  -- `EmbedMany`. In `out` a miss is the embedding of length 0.
  unfoldable pub embed_many :
      (List String → Result E (List (Option Embedding))) → List String → Outcome
  embed_many mget texts =
      let entries = usable texts (mget texts) in
      after_lookup (map served entries) (miss_idx 0 entries) texts

-- `Embed`, by what `Get` returned: the embedding, and what is written to the cache. An entry is
-- served here also if its embedding is empty.
abbrev pub kept {ℓ} :
    {E : Type ℓ} → String → Result E Embedding → Result E (Embedding × Dict Embedding)
kept text (err e) = err e
kept text (ok e) = ok (e, (text, e) ∷ [])

abbrev pub embed_after {ℓ} :
    {E : Type ℓ}
    → String
    → Result E Embedding
    → Result E (Option Embedding)
    → Result E (Embedding × Dict Embedding)
embed_after text inner (ok (some e)) = ok (e, [])
embed_after text inner (ok none) = kept text inner
embed_after text inner (err _) = kept text inner

unfoldable pub embed {ℓ} :
    {E : Type ℓ}
    → (String → Result E (Option Embedding))
    → (String → Result E Embedding)
    → String
    → Result E (Embedding × Dict Embedding)
embed get inner_embed text = embed_after text (inner_embed text) (get text)
