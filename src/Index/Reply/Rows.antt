-- ===== src/Index/Reply/Rows.antt =====
-- The forms of the rows of an aggregation, and what the parser makes of them.
use redis_vl_golang.Base.{String, ◌≡◌, refl, List, [], ◌∷◌, map, ok}
use redis_vl_golang.Base.Int.{ℤ}
use redis_vl_golang.Base.Dict.{Dict, lookup, insert, erase}
use redis_vl_golang.Index.Value.{
  Value, int64, array, of_list, Scalars, to_string, as_map, text_keys,
}
use redis_vl_golang.Index.Reply.{list_rows, map_rows, parse_aggregate_rows}
use redis_vl_golang.Index.Reply.Keyed.{texts, put_texts, put_all-texts, put_all-text_keys}
use redis_vl_golang.Index.Reply.Protocols.{
  flat, put_pairs-flat, to_list-of_list, fields_dict-dict_fields, MapType, string_keys, any_keys,
  mapping,
}

abbrev pub Row : Type 0
Row = List (String × String)

flat_rows : List Row → List Value
flat_rows [] = []
flat_rows (r ∷ rs) = array (of_list (flat r)) ∷ flat_rows rs

nested_rows : MapType → List Row → List Value
unfolding mapping
nested_rows g [] = []
nested_rows g (r ∷ rs) =
    mapping g (("extra_attributes", mapping g (texts r)) ∷ []) ∷ nested_rows g rs

unfoldable pub list_table : ℤ → List Row → Value
unfolding flat_rows
list_table total rows = array (of_list (int64 total ∷ flat_rows rows))

unfoldable pub map_table : MapType → List Row → Value
unfolding nested_rows mapping
map_table g rows = mapping g (("results", array (of_list (nested_rows g rows))) ∷ [])

module _ (c : Scalars) where
  pub row_dict : Row → Dict String
  row_dict r = erase "__score" (put_texts r [])

  list_rows-flat_rows : (rows : List Row) → list_rows c (flat_rows rows) ≡ map row_dict rows
  unfolding list_rows flat_rows row_dict
  list_rows-flat_rows [] = refl
  list_rows-flat_rows (r ∷ rs) =
      rw (to_list-of_list (flat r), put_pairs-flat c r [], list_rows-flat_rows rs) refl

  map_rows-nested_rows :
      (g : MapType) (rows : List Row) → map_rows c (nested_rows g rows) ≡ map row_dict rows
  unfolding map_rows nested_rows row_dict mapping as_map text_keys insert lookup to_string
  map_rows-nested_rows g [] = refl
  map_rows-nested_rows string_keys (r ∷ rs) =
      rw
        (
          fields_dict-dict_fields (texts r),
          put_all-texts c r [],
          map_rows-nested_rows string_keys rs,
        )
        refl
  map_rows-nested_rows any_keys (r ∷ rs) =
      rw (put_all-text_keys c r, map_rows-nested_rows any_keys rs) refl

  aggregate-map_table :
      (g : MapType) (rows : List Row)
      → parse_aggregate_rows c (map_table g rows) ≡ ok (map row_dict rows)
  unfolding parse_aggregate_rows map_table mapping as_map text_keys insert lookup to_string
  aggregate-map_table string_keys rows =
      rw (to_list-of_list (nested_rows string_keys rows), map_rows-nested_rows string_keys rows)
        refl
  aggregate-map_table any_keys rows =
      rw (to_list-of_list (nested_rows any_keys rows), map_rows-nested_rows any_keys rows) refl

  -- Whether the rows come as the flat list of RESP2 or as the map of RESP3, and whether the maps of
  -- that reply are of the Go type map[any]any or map[string]any, the parser returns one map for each
  -- row, in order, without the internal score.
  pub parse_aggregate_rows_protocols :
      (g : MapType) (total : ℤ) (rows : List Row)
      → (parse_aggregate_rows c (list_table total rows) ≡ ok (map row_dict rows))
        × (parse_aggregate_rows c (map_table g rows) ≡ ok (map row_dict rows))
  unfolding parse_aggregate_rows list_table as_map
  parse_aggregate_rows_protocols g total rows = (
    rw (to_list-of_list (flat_rows rows), list_rows-flat_rows rows) refl,
    aggregate-map_table g rows,
  )
