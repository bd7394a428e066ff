-- ===== src/Vectors/Buffer.antt =====
-- vectors/vectors.go: data types, `ToBuffer` and `FromBuffer`.
--
-- A float64 is its bit pattern, a byte a number below 256. Go's conversions between float64 and the
-- narrower types are a parameter.
pub mod Laws
use redis_vl_golang.Base.{
  ℕ, zero, suc, ◌+◌, ◌*◌, ◌/◌, ◌%◌, ◌^◌, String, str_eq, Bool, List, [], ◌∷◌, ◌++◌, map, length,
  take, drop, to_lower, has, Result, ok, err, ◌>>=◌, ◌==◌, if◌then◌else◌,
}
use redis_vl_golang.Base.Float.{Float64}
use redis_vl_golang.Vectors.Half.{
  float32_to_bfloat16, bfloat16_to_float32, float32_to_float16, float16_to_float32,
}

pub data VectorError : Type 0 where
  invalid_data_type : String → VectorError
  unsupported_data_type : String → VectorError
  buffer_length : ℕ → ℕ → VectorError

abbrev pub data_types : List String
data_types = "bfloat16" ∷ "float16" ∷ "float32" ∷ "float64" ∷ "int8" ∷ "uint8" ∷ []

unfoldable pub parse : String → Result VectorError String
parse dtype =
    let dt = to_lower dtype in if has data_types dt then ok dt else err (invalid_data_type dtype)

-- The map of `Size`, with Go's zero for a missing key.
unfoldable pub size_of : String → ℕ
size_of dt =
    if str_eq dt "float32"
    then 4
    else if str_eq dt "float64"
    then 8
    else if str_eq dt "float16"
    then 2
    else if str_eq dt "bfloat16"
    then 2
    else if str_eq dt "int8"
    then 1
    else if str_eq dt "uint8"
    then 1
    else 0

unfoldable pub size : String → Result VectorError ℕ
unfolding parse size_of
size dtype = do dt ← parse dtype; ok (size_of dt)

-- `binary.LittleEndian.PutUint…` and its inverse, for words of k bytes.
put_word : ℕ → ℕ → List ℕ
put_word zero w = []
put_word (suc k) w = (w % 256) ∷ put_word k (w / 256)

get_word : List ℕ → ℕ
get_word [] = 0
get_word (b ∷ bs) = b + 256 * get_word bs

-- float32(v), float64 of a float32, and the conversions to and from one byte, by bit pattern.
pub record Conversions : Type 0 where
  pub narrow : Float64 → ℕ
  pub widen : ℕ → Float64
  pub to_int8 : Float64 → ℕ
  pub from_int8 : ℕ → Float64
  pub to_uint8 : Float64 → ℕ
  pub from_uint8 : ℕ → Float64

module _ (c : Conversions) where
  -- One value in the case of a data type, and the case's width.
  unfoldable pub encode : String → Float64 → List ℕ
  unfolding put_word
  encode dt v =
      if str_eq dt "float32"
      then put_word 4 (c.narrow v)
      else if str_eq dt "float64"
      then put_word 8 v
      else if str_eq dt "float16"
      then put_word 2 (float32_to_float16 (c.narrow v))
      else if str_eq dt "bfloat16"
      then put_word 2 (float32_to_bfloat16 (c.narrow v))
      else if str_eq dt "int8"
      then put_word 1 (c.to_int8 v)
      else put_word 1 (c.to_uint8 v)

  pub encode_all : String → List Float64 → List ℕ
  encode_all dt [] = []
  encode_all dt (v ∷ values) = encode dt v ++ encode_all dt values

  unfoldable pub to_buffer : List Float64 → String → Result VectorError (List ℕ)
  unfolding encode_all parse
  to_buffer values dtype = do
    dt ← parse dtype
    if has data_types dt then ok (encode_all dt values) else err (unsupported_data_type dtype)

  unfoldable pub decode : String → List ℕ → Float64
  unfolding get_word
  decode dt chunk =
      if str_eq dt "float32"
      then c.widen (get_word (take 4 chunk))
      else if str_eq dt "float64"
      then get_word (take 8 chunk)
      else if str_eq dt "float16"
      then c.widen (float16_to_float32 (get_word (take 2 chunk)))
      else if str_eq dt "bfloat16"
      then c.widen (bfloat16_to_float32 (get_word (take 2 chunk)))
      else if str_eq dt "int8"
      then c.from_int8 (get_word (take 1 chunk))
      else c.from_uint8 (get_word (take 1 chunk))

  -- The loop of `FromBuffer`, n rounds: each drops the element that it has read.
  decode_all : String → ℕ → ℕ → List ℕ → List Float64
  decode_all dt width zero buf = []
  decode_all dt width (suc n) buf = decode dt buf ∷ decode_all dt width n (drop width buf)

  unfoldable pub from_buffer : List ℕ → String → Result VectorError (List Float64)
  unfolding decode_all parse size_of
  from_buffer buf dtype = do
    dt ← parse dtype
    let width = size_of dt
    if length buf % width == 0
        then ok (decode_all dt width (length buf / width) buf)
        else err (buffer_length (length buf) width)
