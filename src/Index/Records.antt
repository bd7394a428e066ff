-- ===== src/Index/Records.antt =====
-- validate.go: the test of a record against the schema of its index.
--
-- `want` is a product of Go's `int`s; it is taken not to overflow.
use redis_vl_golang.Base.{
  ℕ, String, Bool, true, false, Option, none, some, List, [], ◌∷◌, length, str_eq, Result, ok, err,
  if◌then◌else◌,
}
use redis_vl_golang.Base.Int.{pos, ◌*ℤ◌, eq_ℤ}
use redis_vl_golang.Base.Dict.{Dict, lookup}
use redis_vl_golang.Vectors.Buffer.{VectorError, size}
use redis_vl_golang.Schema.Attrs.{VectorAttrs}
use redis_vl_golang.Schema.Field.{Field}
use redis_vl_golang.Schema.Index.{IndexSchema, is_json, fields_of}
use redis_vl_golang.Index.Value.{
  Value, nil, text, number, int, int64, float, bytes, singles, floats, tags, array, to_list,
  Scalars,
}
use redis_vl_golang.Index.Server.{
  RecordError, IndexError, nil_field, record_error, not_numeric, not_string, not_tags, not_floats,
  not_bytes, wrong_dims, wrong_bytes, bad_type,
}

abbrev pub is_some {ℓ} : {A : Type ℓ} → Option A → Bool
is_some none = false
is_some (some a) = true

unfoldable pub is_numeric_value : Scalars → Value → Bool
is_numeric_value c (int n) = true
is_numeric_value c (int64 n) = true
is_numeric_value c (number s) = true
is_numeric_value c (float x) = true
is_numeric_value c (text s) = is_some (c.parse_float s)
is_numeric_value c v = false

unfoldable pub all_numeric : Scalars → List Value → Bool
all_numeric c [] = true
all_numeric c (v ∷ vs) = if is_numeric_value c v then all_numeric c vs else false

unfoldable pub float_slice_len : Scalars → Value → Option ℕ
float_slice_len c (floats xs) = some (length xs)
float_slice_len c (singles ws) = some (length ws)
float_slice_len c (array vs) =
    if all_numeric c (to_list vs) then some (length (to_list vs)) else none
float_slice_len c v = none

abbrev check_dims : VectorAttrs → Value → Option ℕ → Option RecordError
check_dims a v none = some (not_floats v)
check_dims a v (some n) = if eq_ℤ (pos n) a.dims then none else some (wrong_dims a.dims n)

abbrev check_size : VectorAttrs → ℕ → Result VectorError ℕ → Option RecordError
check_size a given (err e) = some (bad_type a.datatype)
check_size a given (ok elem_size) =
    let want = a.dims *ℤ pos elem_size in
    if eq_ℤ (pos given) want then none else some (wrong_bytes want given)

abbrev check_blob : VectorAttrs → Value → Option RecordError
check_blob a (bytes bs) = check_size a (length bs) (size a.datatype)
check_blob a v = some (not_bytes v)

unfoldable pub validate_vector_value :
    Scalars → Option VectorAttrs → Value → Bool → Option RecordError
validate_vector_value c none v json = none
validate_vector_value c (some a) v true = check_dims a v (float_slice_len c v)
validate_vector_value c (some a) v false = check_blob a v

abbrev is_string : Value → Bool
is_string (text s) = true
is_string v = false

abbrev is_tags : Value → Bool
is_tags (text s) = true
is_tags (tags names) = true
is_tags (array vs) = true
is_tags v = false

abbrev unless : Bool → RecordError → Option RecordError
unless true e = none
unless false e = some e

-- The switch on the type of a field, for a value that is there.
unfoldable pub validate_value : Scalars → Bool → Field → Value → Option RecordError
validate_value c json f v =
    if str_eq f.type "vector"
    then validate_vector_value c f.vector v json
    else if str_eq f.type "numeric"
    then unless (is_numeric_value c v) (not_numeric v)
    else if str_eq f.type "text"
    then unless (is_string v) (not_string v)
    else if str_eq f.type "geo"
    then unless (is_string v) (not_string v)
    else if str_eq f.type "tag"
    then unless (is_tags v) (not_tags v)
    else none

abbrev validate_present : Scalars → Bool → Field → Option Value → Option RecordError
validate_present c json f none = none
validate_present c json f (some nil) = none
validate_present c json f (some v) = validate_value c json f v

abbrev in_field : ℕ → String → Option RecordError → Option IndexError → Option IndexError
in_field idx name none next = next
in_field idx name (some e) next = some (record_error idx name e)

-- A field that is not there would be dereferenced.
unfoldable pub validate_fields :
    Scalars → Bool → ℕ → List (Option Field) → Dict Value → Option IndexError
validate_fields c json idx [] obj = none
validate_fields c json idx (none ∷ fields) obj = some nil_field
validate_fields c json idx (some f ∷ fields) obj =
    in_field idx f.name (validate_present c json f (lookup f.name obj))
      (validate_fields c json idx fields obj)

-- `validateRecord`, with the index of the record that `Load` adds to its error.
unfoldable pub validate_record : Scalars → IndexSchema → ℕ → Dict Value → Option IndexError
validate_record c i idx obj = validate_fields c (is_json i) idx (fields_of i) obj
