-- ===== src/Schema/Index.antt =====
-- schema/schema.go: `IndexInfo`, `IndexSchema` and the operations on its fields.
pub mod Fields
pub mod Laws
use redis_vl_golang.Base.{
  String, ◌<>◌, str_eq, Bool, true, false, not, ◌&&◌, Option, none, some, List, [], ◌∷◌, ◌++◌, map,
  has, Result, ok, err, ◌>>=◌, ◌>>◌, fail_if, if◌then◌else◌,
}
use redis_vl_golang.Base.Dict.{Dict, lookup, insert, erase}
use redis_vl_golang.Command.{Arg}
use redis_vl_golang.Schema.Attrs.{
  SchemaError, in_vector_field, field_name_required, duplicate_name, index_name_required,
  invalid_storage, no_fields, validate, VectorAttrs,
}
use redis_vl_golang.Schema.Field.{Field, redis_args}

pub record IndexInfo : Type 0 where
  pub name : String
  pub prefixes : List String
  pub key_separator : String
  pub storage_type : String
  pub stopwords : Option (List String)

abbrev default_prefixes : List String → List String
default_prefixes [] = "rvl" ∷ []
default_prefixes (p ∷ ps) = p ∷ ps

unfoldable pub apply_defaults : IndexInfo → Result SchemaError IndexInfo
apply_defaults i =
    let storage = if str_eq i.storage_type "" then "hash" else i.storage_type in
    if str_eq i.name ""
    then err index_name_required
    else if has ("hash" ∷ "json" ∷ []) storage
    then ok (record i {
      prefixes = default_prefixes i.prefixes;
      key_separator = if str_eq i.key_separator "" then ":" else i.key_separator;
      storage_type = storage;
    })
    else err (invalid_storage storage)

-- A stored `*Field` is its value: no operation below shares it.
pub record IndexSchema : Type 0 where
  pub index : IndexInfo
  pub version : String
  pub fields : Dict Field
  pub field_order : List String

unfoldable pub is_json : IndexSchema → Bool
is_json s = str_eq s.index.storage_type "json"

abbrev path_of : IndexSchema → Field → String
path_of s f = if is_json s then (if str_eq f.path "" then "$." <> f.name else f.path) else ""

-- `f.Vector.Validate()`, for a vector field with attributes.
abbrev checked_vector : Field → Result SchemaError (Option VectorAttrs)
checked_vector f =
    if str_eq f.type "vector"
    then (elim f.vector [
      | none ↦ ok none
      | some a ↦ elim (validate a).1 [
        | some e ↦ err (in_vector_field f.name e)
        | none ↦ ok (some (validate a).0)
      ]
    ])
    else ok f.vector

-- The field as `AddField` stores it.
unfoldable pub stored : IndexSchema → Field → Result SchemaError Field
stored s f = do vector ← checked_vector f; ok (record f { path = path_of s f; vector = vector })

abbrev is_some {ℓ} : {A : Type ℓ} → Option A → Bool
is_some none = false
is_some (some a) = true

unfoldable pub add_field : IndexSchema → Field → Result SchemaError IndexSchema
unfolding stored
add_field s f = do
  fail_if (str_eq f.name "") field_name_required
  fail_if (is_some (lookup f.name s.fields)) (duplicate_name f.name)
  f' ← stored s f
  ok (record s { fields = insert f.name f' s.fields; field_order = s.field_order ++ (f.name ∷ []) })

unfoldable pub add_fields : IndexSchema → List Field → Result SchemaError IndexSchema
add_fields s [] = ok s
add_fields s (f ∷ fields) = do s' ← add_field s f; add_fields s' fields

unfoldable pub new_index_schema : IndexInfo → List Field → Result SchemaError IndexSchema
unfolding add_fields
new_index_schema info fields = do
  index ← apply_defaults info
  add_fields (record { index = index; version = "0.1.0"; fields = []; field_order = [] }) fields

-- The loop of `RemoveField`: the first occurrence goes.
unfoldable pub remove_first : String → List String → List String
remove_first name [] = []
remove_first name (n ∷ order) = if str_eq n name then order else n ∷ remove_first name order

unfoldable pub remove_field : IndexSchema → String → IndexSchema
remove_field s name =
    if is_some (lookup name s.fields)
    then record s { fields = erase name s.fields; field_order = remove_first name s.field_order }
    else s

-- `Field`, `FieldNames` and `Fields`; a nil pointer is `none`.
unfoldable pub field : IndexSchema → String → Option Field
field s name = lookup name s.fields

unfoldable pub field_names : IndexSchema → List String
field_names s = s.field_order

unfoldable pub fields_of : IndexSchema → List (Option Field)
fields_of s = map (λ n. lookup n s.fields) s.field_order

-- The loop of `SchemaArgs`. A nil field would be dereferenced: `none` is that panic.
args_of : Dict Field → List String → Option (Result SchemaError (List Arg))
args_of fields [] = some (ok [])
args_of fields (name ∷ order) = elim (lookup name fields) [
  | none ↦ none
  | some f ↦ elim (redis_args f) [
    | err e ↦ some (err e)
    | ok fa ↦ elim (args_of fields order) [
      | none ↦ none
      | some (err e) ↦ some (err e)
      | some (ok args) ↦ some (ok (fa ++ args))
    ]
  ]
]

unfoldable pub schema_args : IndexSchema → Option (Result SchemaError (List Arg))
unfolding args_of
schema_args s = elim s.field_order [
  | [] ↦ some (err no_fields)
  | n ∷ order ↦ args_of s.fields s.field_order
]
