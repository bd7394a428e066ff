-- ===== src/Cache/Embeddings/Trips.antt =====
-- An embedding that is set and got back, and the keys that two of them share.
use package.text.Mathlib.TextLemmas.{append_assoc as text_append_assoc}
use redis_vl_golang.Base.{
  String, ◌<>◌, ◌≡◌, refl, sym, ap, ◌∙◌, Option, none, some, Option-cases, inl, inr, List, [], ◌∷◌,
  ◌++◌, Result-cases, ok,
}
use redis_vl_golang.Base.Int.{ℤ, pos}
use redis_vl_golang.Base.Float.{Float64}
use redis_vl_golang.Base.Dict.{Dict, lookup}
use redis_vl_golang.Index.Value.{Value, text, Scalars, to_string}
use redis_vl_golang.Index.Server.{Server, queued_hset}
use redis_vl_golang.Cache.Embeddings.{
  EmbeddingEntry, EmbeddingsCache, Codec, entry_id, key, base_fields, metadata_json,
  metadata_fields, with_metadata, fields_for, set_fields, parse_embedding_entry,
}
use redis_vl_golang.Cache.Embeddings.Store.{
  expire, set_with_ttl, write_fields, after_hset, get, get_by_key, got, found,
}

-- The fields of a hash, as the server keeps and returns them.
unfoldable pub texts_of : Scalars → Dict Value → Dict String
texts_of sc [] = []
texts_of sc ((k, v) ∷ m) = (k, to_string sc v) ∷ texts_of sc m

module _ (hash : String → String) (j : Codec) (c : EmbeddingsCache) where
  -- The text of an entry and the name of its model are joined by a colon that neither escapes: where
  -- one of them has a colon, another text with another model has the same key.
  pub key-colon :
      (a b model : String)
      → key hash j c (a <> (":" <> b)) model ≡ key hash j c a (b <> (":" <> model))
  unfolding key entry_id
  key-colon a b model =
      ap (λ t. c.name <> (":" <> hash t))
        (text_append_assoc a (":" <> b) (":" <> model)
          ∙ ap (λ t. a <> t) (text_append_assoc ":" b (":" <> model)))

  module _ (sc : Scalars) where
    abbrev pub or_else : Option String → Option String → Option String
    or_else (some s) o = some s
    or_else none o = o

    -- The text of the metadata at the key: the one written, or, where none is given, the one that was
    -- there before, since HSET leaves the fields that it is not given.
    abbrev pub metadata_text : Option (Dict Value) → Dict String → Option String
    metadata_text none old = lookup "metadata" old
    metadata_text (some m) old = j.marshal_map m

    -- The metadata of a text, as JSON reads it; none where there is no text.
    abbrev pub from_json : Option String → Option (Dict Value)
    from_json none = some []
    from_json (some raw) = j.unmarshal_map raw

    -- The entry that is to be got back.
    abbrev pub entry_of : String → String → List Float64 → Dict Value → Float64 → EmbeddingEntry
    entry_of content model embedding back at = record {
      entry_id = entry_id hash j c content model;
      content = content;
      model_name = model;
      embedding = embedding;
      inserted_at = at;
      metadata = back;
    }

    -- The hash at a key after HSET of fields over the old hash.
    abbrev pub IsMerged : Dict Value → Dict String → Dict String → Type 0
    IsMerged fields old m =
        (f : String) → lookup f m ≡ or_else (lookup f (texts_of sc fields)) (lookup f old)

    -- The fields that are read of a hash, and what they give.
    parse_lem :
        (content model json : String) (embedding : List Float64) (at : Float64)
        (meta : Option String) (back : Dict Value) (m : Dict String)
        → j.parse_float (j.format_ts at) ≡ some at
        → j.unmarshal_vector json ≡ some embedding
        → from_json meta ≡ some back
        → lookup "entry_id" m ≡ some (entry_id hash j c content model)
        → lookup "content" m ≡ some content
        → lookup "model_name" m ≡ some model
        → lookup "embedding" m ≡ some json
        → lookup "inserted_at" m ≡ some (j.format_ts at)
        → lookup "metadata" m ≡ meta
        → parse_embedding_entry hash j c m ≡ ok (entry_of content model embedding back at)
    unfolding parse_embedding_entry
    parse_lem content model json embedding at none back m times vec meta i t n e a k =
        let same : [] ≡ back = cc in
        rw (i, t, n, e, a, k, vec, times)
          (ap (λ b. ok (entry_of content model embedding b at)) same)
    parse_lem content model json embedding at (some raw) back m times vec meta i t n e a k =
        rw (i, t, n, e, a, k, vec, times, meta) refl

    -- The fields that are written, by whether there is metadata.
    fields_lem :
        (content model : String) (embedding : List Float64) (meta : Option (Dict Value))
        (at : Float64) (fields : Dict Value)
        → set_fields hash j c content model embedding meta at ≡ ok fields
        → (json : String) × (extra : Dict Value) × (j.marshal_vector embedding ≡ some json)
          × (metadata_fields hash j c meta ≡ ok extra)
          × (fields ≡ base_fields hash j c content model json at ++ extra)
    unfolding set_fields
    fields_lem content model embedding meta at fields h =
        elim (Option-cases (j.marshal_vector embedding)) [
          | inl refused ↦ cc (h, ap (fields_for hash j c content model meta at) refused)
          | inr (json, made) ↦ elim (Result-cases (metadata_fields hash j c meta)) [
            | inl (e, bad) ↦ cc (
              h,
              ap (fields_for hash j c content model meta at) made,
              ap (with_metadata hash j c (base_fields hash j c content model json at)) bad,
            )
            | inr (extra, good) ↦
                let whole : ok (base_fields hash j c content model json at ++ extra) ≡ ok fields =
                  sym (
                    ap (fields_for hash j c content model meta at) made
                    ∙ ap (with_metadata hash j c (base_fields hash j c content model json at)) good)
                  ∙ h in
                (json, extra, made, good, cc)
          ]
        ]

    -- The field of the metadata in the hash.
    metadata_lem :
        (meta : Option (Dict Value)) (extra : Dict Value) (old : Dict String)
        → metadata_fields hash j c meta ≡ ok extra
        → or_else (lookup "metadata" (texts_of sc extra)) (lookup "metadata" old)
          ≡ metadata_text meta old
    unfolding texts_of lookup to_string
    metadata_lem none extra old h =
        let same : [] ≡ extra = cc in
        ap (λ x. or_else (lookup "metadata" (texts_of sc x)) (lookup "metadata" old)) (sym same)
    metadata_lem (some m) extra old h = elim (Option-cases (j.marshal_map m)) [
      | inl refused ↦ cc (h, ap (metadata_json hash j c) refused)
      | inr (raw, made) ↦
          let written = ap (metadata_json hash j c) made in
          let same : ("metadata", text raw) ∷ [] ≡ extra = cc in
          ap (λ x. or_else (lookup "metadata" (texts_of sc x)) (lookup "metadata" old)) (sym same)
          ∙ sym made
    ]

    parse-merged :
        (content model : String) (embedding : List Float64) (meta : Option (Dict Value))
        (at : Float64) (fields back : Dict Value) (old m : Dict String)
        → j.parse_float (j.format_ts at) ≡ some at
        → ((raw : String)
            → j.marshal_vector embedding ≡ some raw
            → j.unmarshal_vector raw ≡ some embedding)
        → from_json (metadata_text meta old) ≡ some back
        → set_fields hash j c content model embedding meta at ≡ ok fields
        → IsMerged fields old m
        → (lookup "entry_id" m ≡ some (entry_id hash j c content model))
          × (parse_embedding_entry hash j c m ≡ ok (entry_of content model embedding back at))
    unfolding texts_of lookup to_string
    parse-merged content model embedding meta at fields back old m times vec meta_back h merged =
        let (json, extra, made, given, same) =
          fields_lem content model embedding meta at fields h in
        let at_field = λ (f : String).
          merged f ∙ ap (λ x. or_else (lookup f (texts_of sc x)) (lookup f old)) same in
        (
          at_field "entry_id",
          parse_lem content model json embedding at (metadata_text meta old) back m times
              (vec json made) meta_back (at_field "entry_id") (at_field "content")
              (at_field "model_name") (at_field "embedding") (at_field "inserted_at")
              (at_field "metadata" ∙ metadata_lem meta extra old given),
        )

    got_parsed {ℓ} :
        {S : Type ℓ} (server : Server S) (k id : String) (m : Dict String) (s : S)
        (entry : EmbeddingEntry)
        → lookup "entry_id" m ≡ some id
        → parse_embedding_entry hash j c m ≡ ok entry
        → got hash j c server k (ok m, s) ≡ (ok (some entry), expire hash j c server k (pos 0) s)
    unfolding lookup
    got_parsed server k id [] s entry e h = cc
    got_parsed server k id (f ∷ rest) s entry e h =
        ap (λ r. (found hash j c server r, expire hash j c server k (pos 0) s)) h

    -- Where JSON can write the entry and read back the vector that it has written, the text of the time
    -- can be read back, and the server merges the fields of HSET into the hash that the key had before,
    -- an embedding that is set is got back for the same text and model, with its time. Its metadata are
    -- what JSON reads of the text that it has written of them or, where no metadata are given, of the
    -- text that the key had before, provided that it can read that text.
    pub get-set_with_ttl {ℓ} :
        {S : Type ℓ} (server : Server S) (content model : String) (embedding : List Float64)
        (meta : Option (Dict Value)) (ttl : ℤ) (at : Float64) (fields back : Dict Value)
        (answer : Value) (old m : Dict String) (s s1 s2 : S)
        → j.parse_float (j.format_ts at) ≡ some at
        → ((raw : String)
            → j.marshal_vector embedding ≡ some raw
            → j.unmarshal_vector raw ≡ some embedding)
        → from_json (metadata_text meta old) ≡ some back
        → set_fields hash j c content model embedding meta at ≡ ok fields
        → server.hgetall (key hash j c content model) s ≡ (ok old, s)
        → server.run (queued_hset (key hash j c content model) fields) s ≡ (ok answer, s1)
        → server.hgetall
            (key hash j c content model)
            (expire hash j c server (key hash j c content model) ttl s1)
          ≡ (ok m, s2)
        → IsMerged fields old m
        → (set_with_ttl hash j c server content model embedding meta ttl at s ≡ (
          ok (key hash j c content model),
          expire hash j c server (key hash j c content model) ttl s1,
        ))
          × (get hash j c server content model
                (expire hash j c server (key hash j c content model) ttl s1)
              ≡ (
                ok (some (entry_of content model embedding back at)),
                expire hash j c server (key hash j c content model) (pos 0) s2,
              ))
    unfolding set_with_ttl get get_by_key
    get-set_with_ttl server content model embedding meta ttl at fields back answer old m s s1 s2
          times vec meta_back h before sent after merged =
        let k = key hash j c content model in
        let (id, parsed) =
          parse-merged content model embedding meta at fields back old m times vec meta_back h
            merged in
        (
          ap (λ fs. write_fields hash j c server k ttl fs s) h
              ∙ ap (after_hset hash j c server k ttl) sent,
          ap (got hash j c server k) after
              ∙ got_parsed server k (entry_id hash j c content model) m s2
                  (entry_of content model embedding back at) id parsed,
        )
