-- ===== src/Cache/Tests.antt =====
-- Runs of the cached vectorizer at concrete texts.
use redis_vl_golang.Base.{String, ◌≡◌, refl, Option, none, some, List, [], ◌∷◌, map, Result, ok}
use redis_vl_golang.Base.Float.{one_f, half_f}
use redis_vl_golang.Base.Dict.{Dict}
use redis_vl_golang.Cache.Vectorizer.{Embedding, usable, to_cache, embed_many}
use redis_vl_golang.Cache.Vectorizer.Laws.{
  missed, merged, Agrees, embed_many-merged, embed_many-Agrees,
}

abbrev constant : String → Embedding
constant text = half_f ∷ []

abbrev inner : List String → Result (Unit {0}) (List Embedding)
inner texts = ok (map constant texts)

abbrev texts : List String
texts = "a" ∷ "b" ∷ []

-- The cache has another embedding for the first text.
abbrev stale : List String → Result (Unit {0}) (List (Option Embedding))
stale asked = ok (some (one_f ∷ []) ∷ none ∷ [])

abbrev fresh : List String → Result (Unit {0}) (List (Option Embedding))
fresh asked = ok (some (half_f ∷ []) ∷ none ∷ [])

embed_many-merged_example :
    embed_many inner stale texts
    ≡ some (
        ok (
          merged constant texts (usable texts (stale texts)),
          to_cache
              (missed texts (usable texts (stale texts)))
              (map constant (missed texts (usable texts (stale texts))))
              [],
        ))
embed_many-merged_example = embed_many-merged inner constant (λ ts. refl) stale texts

fresh-Agrees : Agrees constant texts (usable texts (fresh texts))
unfolding Agrees usable
fresh-Agrees = (λ h. refl, (λ h. cc, tt))

embed_many-Agrees_example :
    (writes : Dict Embedding) × (embed_many inner fresh texts
      ≡ some (ok (map constant texts, writes)))
embed_many-Agrees_example = embed_many-Agrees inner constant (λ ts. refl) fresh texts fresh-Agrees
