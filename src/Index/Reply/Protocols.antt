-- ===== src/Index/Reply/Protocols.antt =====
-- The forms in which go-redis gives the hits of a search, and what the parsers make of them: the flat
-- list of RESP2, and the map of RESP3, whose Go type is `map[any]any` or `map[string]any`.
use redis_vl_golang.Base.{
  String, ◌≡◌, refl, ap, ◌∙◌, Bool, true, false, none, List, [], ◌∷◌, ◌++◌, ok, if◌then◌else◌,
}
use redis_vl_golang.Base.Int.{ℤ}
use redis_vl_golang.Base.Dict.{Dict, insert, lookup}
use redis_vl_golang.Query.Options.{Options}
use redis_vl_golang.Index.Value.{
  Value, text, int64, array, named, keyed, of_list, to_list, dict_fields, dict_pairs, text_keys,
  fields_dict, Scalars, to_string, as_map, to_int64, to_float64,
}
use redis_vl_golang.Index.Reply.Keyed.{texts, put_texts, put_all-texts, put_all-text_keys}
use redis_vl_golang.Index.Reply.{
  Document, SearchResult, or_zero, put_pairs, documents, resp2, resp3, results, parse_search_reply,
  prepend,
}

-- A hit: its key, its score as the server writes it, the names and values of its fields.
pub record Hit : Type 0 where
  pub key : String
  pub score : Value
  pub fields : List (String × String)

abbrev when {ℓ} : {A : Type ℓ} → Bool → List A → List A
when test xs = if test then xs else []

unfoldable pub flat : List (String × String) → List Value
flat [] = []
flat ((k, v) ∷ fs) = text k ∷ text v ∷ flat fs

-- The elements of a hit in the flat list, and those of all hits before the rest.
flat_hits : Bool → Bool → List Hit → List Value
unfolding flat
flat_hits ws nc [] = []
flat_hits true true (h ∷ hs) = text h.key ∷ h.score ∷ flat_hits true true hs
flat_hits true false (h ∷ hs) =
    text h.key ∷ h.score ∷ array (of_list (flat h.fields)) ∷ flat_hits true false hs
flat_hits false true (h ∷ hs) = text h.key ∷ flat_hits false true hs
flat_hits false false (h ∷ hs) =
    text h.key ∷ array (of_list (flat h.fields)) ∷ flat_hits false false hs

-- The Go type of the maps of a reply.
pub data MapType : Type 0 where
  string_keys any_keys : MapType

unfoldable pub mapping : MapType → Dict Value → Value
mapping string_keys m = named (dict_fields m)
mapping any_keys m = keyed (dict_pairs m)

-- A hit of the map form.
map_hit : MapType → Bool → Bool → Hit → Value
unfolding texts mapping
map_hit g ws nc h = mapping g (
    (("id", text h.key) ∷ [])
    ++ (when ws (("score", h.score) ∷ [])
        ++ (if nc then [] else ("extra_attributes", mapping g (texts h.fields)) ∷ [])))

map_hits : MapType → Bool → Bool → List Hit → List Value
unfolding map_hit
map_hits g ws nc [] = []
map_hits g ws nc (h ∷ hs) = map_hit g ws nc h ∷ map_hits g ws nc hs

unfoldable pub list_reply : Options → ℤ → List Hit → Value
unfolding flat_hits
list_reply o total hits = array (of_list (int64 total ∷ flat_hits o.with_scores o.no_content hits))

unfoldable pub map_reply : MapType → Options → ℤ → List Hit → Value
unfolding map_hits mapping
map_reply g o total hits = mapping g (
    ("total_results", int64 total)
    ∷ ("results", array (of_list (map_hits g o.with_scores o.no_content hits)))
    ∷ [])

pub to_list-of_list : (vs : List Value) → to_list (of_list vs) ≡ vs
to_list-of_list [] = refl
to_list-of_list (v ∷ vs) = ap (λ t. v ∷ t) (to_list-of_list vs)

pub fields_dict-dict_fields : (m : Dict Value) → fields_dict (dict_fields m) ≡ m
fields_dict-dict_fields [] = refl
fields_dict-dict_fields ((k, v) ∷ m) = ap (λ t. (k, v) ∷ t) (fields_dict-dict_fields m)

module _ (c : Scalars) where
  pub put_pairs-flat :
      (fs : List (String × String)) (out : Dict String)
      → put_pairs c (flat fs) out ≡ put_texts fs out
  unfolding put_pairs flat put_texts to_string
  put_pairs-flat [] out = refl
  put_pairs-flat ((k, v) ∷ fs) out = put_pairs-flat fs (insert k v out)

  -- The document that a hit is, with what the options have the server send.
  unfoldable pub hit_document : Bool → Bool → Hit → Document
  hit_document ws nc h = record {
    id = h.key;
    score = or_zero c (if ws then to_float64 c h.score else none);
    fields = if nc then [] else put_texts h.fields [];
  }

  unfoldable pub hit_documents : Bool → Bool → List Hit → List Document
  unfolding hit_document
  hit_documents ws nc [] = []
  hit_documents ws nc (h ∷ hs) = hit_document ws nc h ∷ hit_documents ws nc hs

  documents-flat_hits :
      (ws nc : Bool) (hs : List Hit)
      → documents c ws nc (flat_hits ws nc hs) ≡ ok (hit_documents ws nc hs)
  unfolding documents flat_hits hit_documents hit_document to_string to_float64 put_pairs
  documents-flat_hits ws nc [] = refl
  documents-flat_hits true true (h ∷ hs) = rw (documents-flat_hits true true hs) refl
  documents-flat_hits false true (h ∷ hs) = rw (documents-flat_hits false true hs) refl
  documents-flat_hits true false (h ∷ hs) =
      rw
        (
          to_list-of_list (flat h.fields),
          documents-flat_hits true false hs,
          put_pairs-flat h.fields [],
        )
        refl
  documents-flat_hits false false (h ∷ hs) =
      rw
        (
          to_list-of_list (flat h.fields),
          documents-flat_hits false false hs,
          put_pairs-flat h.fields [],
        )
        refl

  result-map_hit :
      (g : MapType) (ws nc : Bool) (h : Hit) (docs : List Document)
      → prepend c (as_map c (map_hit g ws nc h)) docs ≡ hit_document ws nc h ∷ docs
  unfolding map_hit mapping as_map hit_document lookup to_string to_float64 text_keys insert
  result-map_hit string_keys true true h docs = refl
  result-map_hit string_keys false true h docs = refl
  result-map_hit any_keys true true h docs = refl
  result-map_hit any_keys false true h docs = refl
  result-map_hit string_keys true false h docs =
      rw (fields_dict-dict_fields (texts h.fields), put_all-texts c h.fields []) refl
  result-map_hit string_keys false false h docs =
      rw (fields_dict-dict_fields (texts h.fields), put_all-texts c h.fields []) refl
  result-map_hit any_keys true false h docs = rw (put_all-text_keys c h.fields) refl
  result-map_hit any_keys false false h docs = rw (put_all-text_keys c h.fields) refl

  results-map_hits :
      (g : MapType) (ws nc : Bool) (hs : List Hit)
      → results c (map_hits g ws nc hs) ≡ hit_documents ws nc hs
  unfolding results map_hits hit_documents
  results-map_hits g ws nc [] = refl
  results-map_hits g ws nc (h ∷ hs) =
      result-map_hit g ws nc h (results c (map_hits g ws nc hs))
      ∙ ap (λ t. hit_document ws nc h ∷ t) (results-map_hits g ws nc hs)

  results-map_reply :
      (g : MapType) (o : Options) (total : ℤ) (hits : List Hit)
      → parse_search_reply c (map_reply g o total hits) o
        ≡ ok record { total = total; docs = hit_documents o.with_scores o.no_content hits }
  unfolding parse_search_reply map_reply mapping as_map text_keys insert resp3 lookup to_int64
      to_string
  results-map_reply string_keys o total hits =
      rw
        (
          to_list-of_list (map_hits string_keys o.with_scores o.no_content hits),
          results-map_hits string_keys o.with_scores o.no_content hits,
        )
        refl
  results-map_reply any_keys o total hits =
      rw
        (
          to_list-of_list (map_hits any_keys o.with_scores o.no_content hits),
          results-map_hits any_keys o.with_scores o.no_content hits,
        )
        refl

  -- Whether the hits come as the flat list of RESP2 or as the map of RESP3, and whether the maps of
  -- that reply are of the Go type map[any]any or map[string]any, the parser returns the total and one
  -- document for each hit, in order, with its score and its fields if the options ask for them.
  pub parse_search_reply_protocols :
      (g : MapType) (o : Options) (total : ℤ) (hits : List Hit)
      → let parsed : SearchResult = record {
        total = total;
        docs = hit_documents o.with_scores o.no_content hits;
      } in
        (parse_search_reply c (list_reply o total hits) o ≡ ok parsed)
        × (parse_search_reply c (map_reply g o total hits) o ≡ ok parsed)
  unfolding parse_search_reply list_reply as_map resp2 to_int64
  parse_search_reply_protocols g o total hits = (
    rw
        (
          to_list-of_list (flat_hits o.with_scores o.no_content hits),
          documents-flat_hits o.with_scores o.no_content hits,
        )
        refl,
    results-map_reply g o total hits,
  )
