-- ===== src/Vectors/Buffer/Laws.antt =====
-- The length of a buffer, and reading back what was written.
use native.Mathlib.Nat.{pow-suc, div-add-mod, mod-lt, mod-eq_of_lt, add-mul-mod_self_left}
use native.Mathlib.Nat.{mul-mod_left, mul-div_left}
use redis_vl_golang.Base.{
  ℕ, zero, suc, ◌+◌, ◌*◌, ◌/◌, ◌%◌, ◌^◌, ◌<◌, ◌≡◌, ◌≢◌, refl, ap, ◌∙◌, arith, String, true, false,
  List, [], ◌∷◌, ◌++◌, map, length, length-append, take, drop, to_lower, has, ok, err, ◌==◌,
  if◌then◌else◌,
}
use redis_vl_golang.Base.Float.{Float64}
use redis_vl_golang.Vectors.Buffer.{
  invalid_data_type, buffer_length, data_types, parse, size_of, put_word, get_word, Conversions,
  encode, encode_all, to_buffer, decode, decode_all, from_buffer,
}

length-put_word : (k w : ℕ) → length (put_word k w) ≡ k
unfolding put_word
length-put_word zero w = refl
length-put_word (suc k) w = ap suc (length-put_word k (w / 256))

pow-pos : (k : ℕ) → 0 < 256 ^ k
pow-pos zero = omega arith
pow-pos (suc k) = omega (arith, pow-suc 256 k, pow-pos k)

-- The lowest byte and the others of a remainder.
mod_split : (w m : ℕ) → 0 < m → w % (m * 256) ≡ w % 256 + 256 * (w / 256 % m)
mod_split w m h =
    let low = w % 256 + 256 * (w / 256 % m) in
    let whole : w ≡ low + m * 256 * (w / 256 / m) = omega (arith, div-add-mod (w / 256) m) in
    ap (λ t. t % (m * 256)) whole
    ∙ add-mul-mod_self_left low (m * 256) (w / 256 / m)
    ∙ mod-eq_of_lt (omega (arith, mod-lt (w / 256) h))

-- A word is read back modulo its width, whatever follows it.
get_word-put_word :
    (k w : ℕ) (rest : List ℕ) → get_word (take k (put_word k w ++ rest)) ≡ w % 256 ^ k
unfolding put_word get_word
get_word-put_word zero w rest = omega arith
get_word-put_word (suc k) w rest =
    rw (pow-suc 256 k, mod_split w (256 ^ k) (pow-pos k))
      (omega (arith, get_word-put_word k (w / 256) rest))

drop-append : {A : Type 0} (n : ℕ) (xs ys : List A) → length xs ≡ n → drop n (xs ++ ys) ≡ ys
drop-append zero [] ys h = refl
drop-append (suc n) [] ys h = absurd (omega arith)
drop-append zero (x ∷ xs) ys h = absurd (omega arith)
drop-append (suc n) (x ∷ xs) ys h = drop-append n xs ys (omega arith)

module _ (c : Conversions) where
  length-encode :
      (dt : String) (v : Float64) → has data_types dt ≡ true → length (encode c dt v) ≡ size_of dt
  unfolding encode size_of has
  length-encode dt v h = ground arith

  decode-append :
      (dt : String) (v : Float64) (rest : List ℕ)
      → decode c dt (encode c dt v ++ rest) ≡ decode c dt (encode c dt v)
  unfolding encode decode
  decode-append dt v rest = ground arith

  decode_all-encode_all :
      (dt : String) (values : List Float64)
      → has data_types dt ≡ true
      → decode_all c dt (size_of dt) (length values) (encode_all c dt values)
        ≡ map (λ v. decode c dt (encode c dt v)) values
  unfolding decode_all encode_all
  decode_all-encode_all dt [] h = refl
  decode_all-encode_all dt (v ∷ values) h = rw (
    decode-append dt v (encode_all c dt values),
    drop-append (size_of dt) (encode c dt v) (encode_all c dt values) (length-encode dt v h),
    decode_all-encode_all dt values h,
  )

  length-encode_all :
      (dt : String) (values : List Float64)
      → has data_types dt ≡ true
      → length (encode_all c dt values) ≡ length values * size_of dt
  unfolding encode_all
  length-encode_all dt [] h = omega arith
  length-encode_all dt (v ∷ values) h =
      rw (length-append (encode c dt v) (encode_all c dt values))
        (omega (arith, length-encode dt v h, length-encode_all dt values h))

size_of-pos : (dt : String) → has data_types dt ≡ true → 0 < size_of dt
unfolding size_of has
size_of-pos dt h = ground arith

parse-has : (dtype dt : String) → parse dtype ≡ ok dt → has data_types dt ≡ true
unfolding parse
parse-has dtype dt h = ground arith

module _ (c : Conversions) where
  from_buffer_all :
      (dt : String) (values : List Float64)
      → has data_types dt ≡ true
      → (if length (encode_all c dt values) % size_of dt == 0
          then ok (
              decode_all c dt
                (size_of dt)
                (length (encode_all c dt values) / size_of dt)
                (encode_all c dt values))
          else err (buffer_length (length (encode_all c dt values)) (size_of dt)))
        ≡ ok (map (λ v. decode c dt (encode c dt v)) values)
  from_buffer_all dt values known =
      rw
        (
          length-encode_all c dt values known,
          mul-mod_left (length values) (size_of dt),
          mul-div_left (length values) (size_of-pos dt known),
        )
        (rw (decode_all-encode_all c dt values known))

  -- Whatever the conversions are: for a known data type the buffer has the type's width for each
  -- value, and reading it back yields for each value what its own bytes decode to, in order.
  pub from_buffer-to_buffer :
      (dtype dt : String) (values : List Float64)
      → parse dtype ≡ ok dt
      → (buf : List ℕ) × (to_buffer c values dtype ≡ ok buf)
        × (length buf ≡ length values * size_of dt)
        × (from_buffer c buf dtype ≡ ok (map (λ v. decode c dt (encode c dt v)) values))
  unfolding to_buffer from_buffer
  from_buffer-to_buffer dtype dt values h =
      let known = parse-has dtype dt h in
      (
        encode_all c dt values,
        rw (h, known),
        length-encode_all c dt values known,
        rw h (from_buffer_all dt values known),
      )

  -- An unknown data type is refused by both ways, and a buffer that is no whole number of elements
  -- by the way back.
  from_buffer-unknown :
      (dtype : String) (buf : List ℕ) (values : List Float64)
      → has data_types (to_lower dtype) ≡ false
      → (to_buffer c values dtype ≡ err (invalid_data_type dtype))
        × (from_buffer c buf dtype ≡ err (invalid_data_type dtype))
  unfolding to_buffer from_buffer
  from_buffer-unknown dtype buf values h = (rw h, rw h)

  from_buffer_partial :
      (dtype dt : String) (buf : List ℕ)
      → parse dtype ≡ ok dt
      → length buf % size_of dt ≢ 0
      → from_buffer c buf dtype ≡ err (buffer_length (length buf) (size_of dt))
  unfolding from_buffer
  from_buffer_partial dtype dt buf h n = rw h (ground arith)

  -- A value's bytes decode to the value for float64.
  decode-encode_float64 : (v : Float64) → v < 2 ^ 64 → decode c "float64" (encode c "float64" v) ≡ v
  unfolding decode encode put_word
  decode-encode_float64 v h = get_word-put_word 8 v [] ∙ mod-eq_of_lt h
