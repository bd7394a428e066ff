-- ===== src/Index/Value.antt =====
-- utils.go: the values of a reply and of a record (`any`), and their conversions.
--
-- `number` is a value of a numeric type other than int, int64 and float64, and `other` one of a type
-- that no switch of the sources names, as `fmt.Sprint` shows it; `singles` is a `[]float32`, by bit
-- pattern, and `array` a `[]any`. Lists and maps are shown by the parameter `sprint`. The conversions of `strconv` between text
-- and numbers, and those of Go between int64 and float64, are parameters as well.
use redis_vl_golang.Base.{ℕ, String, Bool, true, false, Option, none, some, List, [], ◌∷◌, show_int}
use redis_vl_golang.Base.Int.{ℤ}
use redis_vl_golang.Base.Float.{Float64}
use redis_vl_golang.Base.Dict.{Dict, insert}

mutual
  pub data Value : Type 0 where
    nil : Value
    text number other : String → Value
    bytes singles : List ℕ → Value
    floats : List Float64 → Value
    tags : List String → Value
    int int64 : ℤ → Value
    float : Float64 → Value
    bool : Bool → Value
    array : Values → Value
    named : Fields → Value
    keyed : Pairs → Value

  pub data Values : Type 0 where
    no_value : Values
    value : Value → Values → Values

  pub data Fields : Type 0 where
    no_field : Fields
    field : String → Value → Fields → Fields

  pub data Pairs : Type 0 where
    no_pair : Pairs
    pair : Value → Value → Pairs → Pairs

abbrev pub to_list : Values → List Value
to_list no_value = []
to_list (value v vs) = v ∷ to_list vs

abbrev pub of_list : List Value → Values
of_list [] = no_value
of_list (v ∷ vs) = value v (of_list vs)

-- A `map[string]any` as a dictionary.
abbrev pub fields_dict : Fields → Dict Value
fields_dict no_field = []
fields_dict (field k v fs) = (k, v) ∷ fields_dict fs

abbrev pub dict_fields : Dict Value → Fields
dict_fields [] = no_field
dict_fields ((k, v) ∷ m) = field k v (dict_fields m)

-- A `map[any]any` whose keys are texts.
abbrev pub dict_pairs : Dict Value → Pairs
dict_pairs [] = no_pair
dict_pairs ((k, v) ∷ m) = pair (text k) v (dict_pairs m)

pub record Scalars : Type 0 where
  pub sprint : Value → String
  pub of_bytes : List ℕ → String
  pub format_float : Float64 → String
  pub parse_float : String → Option Float64
  pub parse_int : String → Option ℤ
  pub truncate : Float64 → ℤ
  pub of_int : ℤ → Float64

module _ (c : Scalars) where
  unfoldable pub to_string : Value → String
  to_string (text s) = s
  to_string (bytes bs) = c.of_bytes bs
  to_string (int64 n) = show_int n
  to_string (float x) = c.format_float x
  to_string (bool true) = "true"
  to_string (bool false) = "false"
  to_string nil = ""
  to_string (int n) = show_int n
  to_string (number s) = s
  to_string (other s) = s
  to_string (singles ws) = c.sprint (singles ws)
  to_string (floats xs) = c.sprint (floats xs)
  to_string (tags names) = c.sprint (tags names)
  to_string (array vs) = c.sprint (array vs)
  to_string (named fs) = c.sprint (named fs)
  to_string (keyed ps) = c.sprint (keyed ps)

  -- The loop over a `map[any]any`: a later key of the same text takes the place of an earlier one.
  unfoldable pub text_keys : Pairs → Dict Value → Dict Value
  unfolding to_string
  text_keys no_pair out = out
  text_keys (pair k v ps) out = text_keys ps (insert (to_string k) v out)

  unfoldable pub as_map : Value → Option (Dict Value)
  unfolding text_keys
  as_map (named fs) = some (fields_dict fs)
  as_map (keyed ps) = some (text_keys ps [])
  as_map v = none

  unfoldable pub to_int64 : Value → Option ℤ
  to_int64 (int64 n) = some n
  to_int64 (int n) = some n
  to_int64 (float x) = some (c.truncate x)
  to_int64 (text s) = c.parse_int s
  to_int64 v = none

  unfoldable pub to_float64 : Value → Option Float64
  to_float64 (float x) = some x
  to_float64 (int64 n) = some (c.of_int n)
  to_float64 (text s) = c.parse_float s
  to_float64 v = none
