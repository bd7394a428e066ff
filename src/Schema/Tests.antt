-- ===== src/Schema/Tests.antt =====
-- Runs of the schema's operations at a concrete schema.
use redis_vl_golang.Base.{
  ◌≡◌, ◌↔◌, refl, arith, true, none, some, [], ◌∷◌, ◌++◌, map, has, to_lower, to_upper, has_prefix,
  Result, ok, err,
}
use redis_vl_golang.Base.Int.{pos, leb_ℤ}
use redis_vl_golang.Base.Dict.{lookup, insert}
use redis_vl_golang.Schema.Attrs.{
  SchemaError, VectorAttrs, validate, svs_error, reduce_error, datatypes, metrics, algorithms,
  is_svs, or_text,
}
use redis_vl_golang.Schema.Attrs.Laws.{IsReady, ReduceFits, validate-none_iff}
use redis_vl_golang.Schema.Field.{Field, new_text_field, new_tag_field, new_numeric_field}
use redis_vl_golang.Base.{false}
use redis_vl_golang.Schema.Attrs.{BaseAttrs, TagAttrs, NumericAttrs, GeoAttrs}
use redis_vl_golang.Schema.Index.{
  IndexInfo, IndexSchema, new_index_schema, apply_defaults, add_fields, add_field, remove_field,
  stored, field_names, fields_of,
}
use redis_vl_golang.Schema.Index.Fields.{IsConsistent}
use redis_vl_golang.Schema.Index.Laws.{
  add_field-fields_of, new_index_schema-IsConsistent, remove_field-fields_of, without,
}
use redis_vl_golang.Schema.Advisor.{recommend_compression, none_set, recommend_compression-IsReady}

abbrev cosine : VectorAttrs
cosine = record (none_set (pos 768) "Float16") {
  compression = "LeanVec4x8";
  reduce = some (pos 384);
}

validate-none_iff_example : ((validate cosine).1 ≡ none) ↔ (
    (leb_ℤ (pos 768) (pos 0) ≡ false)
    × (has datatypes (or_text (to_lower "Float16") "float32") ≡ true)
    × (has metrics (to_upper (or_text cosine.distance_metric "COSINE")) ≡ true)
    × (has algorithms (to_upper cosine.algorithm) ≡ true)
    × (is_svs (to_upper cosine.algorithm) ≡ true
        → (has ("float16" ∷ "float32" ∷ []) (or_text (to_lower "Float16") "float32") ≡ true)
          × ReduceFits cosine (some (pos 384))))
validate-none_iff_example = validate-none_iff cosine

cosine_passes : (validate cosine).1 ≡ none
unfolding validate svs_error has to_lower to_upper reduce_error has_prefix
cosine_passes = refl

empty_known : has ("" ∷ "float16" ∷ "float32" ∷ []) "" ≡ true
unfolding has
empty_known = refl

recommend_compression-IsReady_example :
    (v : VectorAttrs) × (recommend_compression (pos 1536) "memory" "" ≡ ok v)
    × IsReady v
    × (v.dims ≡ pos 1536)
    × ReduceFits v v.reduce
recommend_compression-IsReady_example =
    recommend_compression-IsReady 1536 "memory" "" (omega arith) empty_known

abbrev music_info : IndexInfo
music_info = record {
  name = "music";
  prefixes = [];
  key_separator = "";
  storage_type = "json";
  stopwords = none;
}

abbrev title : Field
title = new_text_field "title" none

abbrev genre : Field
genre = new_tag_field "genre" none

abbrev year : Field
year = new_numeric_field "year" none

abbrev or_empty : Result SchemaError IndexSchema → IndexSchema
or_empty (ok s) = s
or_empty (err e) = record { index = music_info; version = ""; fields = []; field_order = [] }

abbrev music : IndexSchema
music = or_empty (new_index_schema music_info (title ∷ genre ∷ []))

music_made : new_index_schema music_info (title ∷ genre ∷ []) ≡ ok music
unfolding new_index_schema apply_defaults add_fields add_field stored lookup insert has
    new_text_field new_tag_field
music_made = refl

new_index_schema-IsConsistent_example : IsConsistent music
new_index_schema-IsConsistent_example =
    new_index_schema-IsConsistent music_info (title ∷ genre ∷ []) {s = music} music_made

music-IsConsistent : IsConsistent music
music-IsConsistent =
    new_index_schema-IsConsistent music_info (title ∷ genre ∷ []) {s = music} music_made

abbrev dated : IndexSchema
dated = or_empty (add_field music year)

dated_made : add_field music year ≡ ok dated
unfolding new_index_schema apply_defaults add_fields add_field stored lookup insert has
    new_text_field new_tag_field new_numeric_field
dated_made = refl

add_field-fields_of_example :
    IsConsistent dated
    × (f' : Field) × (stored music year ≡ ok f')
    × (fields_of dated ≡ fields_of music ++ (some f' ∷ []))
add_field-fields_of_example = add_field-fields_of music dated year music-IsConsistent dated_made

remove_field-fields_of_example :
    IsConsistent (remove_field music "title")
    × (field_names (remove_field music "title") ≡ without "title" (field_names music))
    × (fields_of (remove_field music "title")
        ≡ map (λ n. lookup n music.fields) (without "title" (field_names music)))
remove_field-fields_of_example = remove_field-fields_of music "title" music-IsConsistent

abbrev plain : BaseAttrs
plain = record { sortable = true; index_missing = false; no_index = true }

abbrev sorted_number : NumericAttrs
sorted_number = record { base = plain; unf = true }

abbrev place : GeoAttrs
place = record { base = plain }

abbrev label : TagAttrs
label = record {
  base = plain;
  separator = "";
  case_sensitive = true;
  with_suffix_trie = false;
  index_empty = true;
}

abbrev small_world : VectorAttrs
small_world = record (none_set (pos 3) "float32") { algorithm = "HNSW"; m = some (pos 24) }
