-- ===== src/Cache/EntryTests.antt =====
-- Runs of the cache of embeddings against a server with one hash.
use redis_vl_golang.Base.{
  ℕ, String, ◌<>◌, ◌≡◌, refl, sym, ap, ◌∙◌, Option, none, some, List, [], ◌∷◌, ◌++◌, map, ok,
  Bool-cases, inl, inr, str_eq,
}
use redis_vl_golang.Base.Unary.{unary, tally, tally-unary}
use redis_vl_golang.Base.Int.{pos}
use redis_vl_golang.Base.Dict.{Dict, lookup}
use redis_vl_golang.Index.Value.{Value, text, Scalars}
use redis_vl_golang.Index.Value
use redis_vl_golang.Index.Server.{Server, Queued, queued_hset}
use redis_vl_golang.Cache.Embeddings.{EmbeddingsCache, Codec, key, set_fields}
use redis_vl_golang.Cache.Embeddings.Store.{expire, set_with_ttl, get}
use redis_vl_golang.Cache.Embeddings.Trips.{
  texts_of, or_else, IsMerged, entry_of, key-colon, get-set_with_ttl,
}

-- A codec for vectors of one number and for maps of one integer, which comes back as a float64, and a
-- server with one hash.
abbrev one_number : List ℕ → Option String
one_number (x ∷ []) = some (unary x)
one_number _ = none

abbrev one_entry : Dict Value → Option String
one_entry ((k, Value.int (pos n)) ∷ []) = some (unary n)
one_entry m = none

abbrev codec : Codec
codec = record {
  marshal_vector = one_number;
  unmarshal_vector = λ s. some (tally s ∷ []);
  marshal_map = one_entry;
  unmarshal_map = λ s. some (("likes", Value.float (tally s)) ∷ []);
  format_ts = unary;
  parse_float = λ s. some (tally s);
}

one_number_back :
    (xs : List ℕ) (raw : String) → one_number xs ≡ some raw → some (tally raw ∷ []) ≡ some xs
one_number_back (x ∷ []) raw h =
    let same : unary x ≡ raw = cc in
    ap (λ s. some (tally s ∷ [])) (sym same) ∙ ap (λ n. some (n ∷ [])) (tally-unary x)
one_number_back xs raw h = cc

abbrev hashes : EmbeddingsCache
hashes = record { name = "embeddings"; ttl = pos 60 }

abbrev first_text : Value → String
first_text (text s) = s
first_text v = ""

abbrev kept_fields : Dict Value → Dict String
kept_fields = map (λ (k, v). (k, first_text v))

abbrev logged : Queued → Dict String → Dict String
logged (queued_hset k fields) s = kept_fields fields ++ s
logged q s = s

abbrev one_hash : Server (Dict String)
one_hash = record {
  call = λ args s. (ok Value.nil, s);
  exec = λ batch s. ([], s);
  run = λ q s. (ok Value.nil, logged q s);
  hgetall = λ k s. (ok s, s);
  del = λ ks s. (ok 0, []);
  exists_keys = λ ks s. (ok 0, s);
}

abbrev scalars : Scalars
scalars = record {
  sprint = λ v. "";
  of_bytes = λ bs. "";
  format_float = λ x. "0.5";
  parse_float = λ s. some (tally s);
  parse_int = λ s. none;
  truncate = λ x. pos 0;
  of_int = λ n. 0;
}

abbrev stored : Dict Value
stored =
    ("entry_id", text "apple:model")
    ∷ ("content", text "apple")
    ∷ ("model_name", text "model")
    ∷ ("embedding", text "11")
    ∷ ("inserted_at", text "111")
    ∷ ("metadata", text "1111")
    ∷ []

-- What the key had before.
abbrev older : Dict String
older = ("metadata", "1") ∷ ("note", "x") ∷ []

abbrev named_key : String
named_key = "embeddings:apple:model"

abbrev liked : Dict Value
liked = ("likes", Value.int (pos 4)) ∷ []

abbrev liked_back : Dict Value
liked_back = ("likes", Value.float 4) ∷ []

lookup-append :
    (f : String) (a b : Dict String)
    → lookup f (a ++ b) ≡ or_else (λ s. s) codec hashes scalars (lookup f a) (lookup f b)
unfolding lookup
lookup-append f [] b = refl
lookup-append f ((k, v) ∷ a) b = elim (Bool-cases (str_eq k f)) [
  | inl e ↦ rw e refl
  | inr e ↦ rw e (lookup-append f a b)
]

older-IsMerged : IsMerged (λ s. s) codec hashes scalars stored older (kept_fields stored ++ older)
unfolding texts_of Value.to_string
older-IsMerged f = lookup-append f (kept_fields stored) older

get-set_with_ttl_example :
    (set_with_ttl
        (λ s. s)
        codec
        hashes
        one_hash
        "apple"
        "model"
        (2 ∷ [])
        (some liked)
        (pos 0)
        3
        older
      ≡ (ok named_key, kept_fields stored ++ older))
    × (get (λ s. s) codec hashes one_hash "apple" "model" (kept_fields stored ++ older) ≡ (
      ok (some (entry_of (λ s. s) codec hashes scalars "apple" "model" (2 ∷ []) liked_back 3)),
      kept_fields stored ++ older,
    ))
unfolding set_fields expire key redis_vl_golang.Cache.Embeddings.entry_id unary Value.to_string
    texts_of
get-set_with_ttl_example =
    get-set_with_ttl (λ s. s) codec hashes scalars one_hash "apple" "model" (2 ∷ []) (some liked)
      (pos 0) 3 stored liked_back Value.nil older (kept_fields stored ++ older) older
      (kept_fields stored ++ older) (kept_fields stored ++ older) (ap some (tally-unary 3))
      (λ raw h. one_number_back (2 ∷ []) raw h)
      (ap (λ n. some (("likes", Value.float n) ∷ [])) (tally-unary 4)) refl refl refl refl
      older-IsMerged

key-colon_example :
    key (λ s. s) codec hashes ("llama" <> (":" <> "3")) "8b"
    ≡ key (λ s. s) codec hashes "llama" ("3" <> (":" <> "8b"))
key-colon_example = key-colon (λ s. s) codec hashes "llama" "3" "8b"
