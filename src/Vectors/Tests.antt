-- ===== src/Vectors/Tests.antt =====
-- Runs of the conversions and of the vector buffers at concrete inputs.
use redis_vl_golang.Base.{
  ℕ, ◌+◌, ◌*◌, ◌/◌, ◌%◌, ◌^◌, ◌≤◌, ◌≡◌, refl, arith, false, List, [], ◌∷◌, map, length, ok,
  to_lower, has,
}
use redis_vl_golang.Base.Float.{Float64, one_f, half_f, two_f}
use redis_vl_golang.Vectors.Half.{
  float32_to_bfloat16, bfloat16_to_float32, float32_to_float16, float16_to_float32,
}
use redis_vl_golang.Vectors.Half.Bfloat.{float32_to_bfloat16_nearest}
use redis_vl_golang.Vectors.Half.Normal.{float32_to_float16_nearest}
use redis_vl_golang.Vectors.Half.Exact.{float32_to_float16-float16_to_float32}
use redis_vl_golang.Vectors.Buffer.{
  Conversions, parse, size_of, to_buffer, from_buffer, encode, decode,
}
use redis_vl_golang.Vectors.Buffer.Laws.{from_buffer-to_buffer}

-- 1.5 and its neighbours in the narrower formats.
float32_to_float16-float16_to_float32_example :
    float32_to_float16 (float16_to_float32 0x3e00) ≡ 0x3e00
float32_to_float16-float16_to_float32_example =
    float32_to_float16-float16_to_float32 0x3e00 (omega arith) (omega arith)

float32_to_float16_nearest_example :
    (float32_to_float16 0x3fc0_1000 / 2 ^ 15 ≡ 0x3fc0_1000 / 2 ^ 31)
    × (float32_to_float16 0x3fc0_1000 % 2 ^ 15 * 2 ^ 13 + 112 * 2 ^ 23
        ≤ 0x3fc0_1000 % 2 ^ 31 + 2 ^ 12)
    × (0x3fc0_1000 % 2 ^ 31
        ≤ float32_to_float16 0x3fc0_1000 % 2 ^ 15 * 2 ^ 13 + 112 * 2 ^ 23 + 2 ^ 12)
    × (0x3fc0_1000 % 2 ^ 13 ≡ 2 ^ 12 → float32_to_float16 0x3fc0_1000 % 2 ≡ 0)
float32_to_float16_nearest_example =
    float32_to_float16_nearest 0x3fc0_1000 (omega arith) (omega arith) (omega arith)

float32_to_bfloat16_nearest_example :
    (bfloat16_to_float32 (float32_to_bfloat16 0x3fc0_8000) ≤ 0x3fc0_8000 + 2 ^ 15)
    × (0x3fc0_8000 ≤ bfloat16_to_float32 (float32_to_bfloat16 0x3fc0_8000) + 2 ^ 15)
    × (0x3fc0_8000 % 2 ^ 16 ≡ 2 ^ 15 → float32_to_bfloat16 0x3fc0_8000 % 2 ≡ 0)
    × (float32_to_bfloat16 0x3fc0_8000 / 2 ^ 15 ≡ 0x3fc0_8000 / 2 ^ 31)
    × (float32_to_bfloat16 0x3fc0_8000 % 2 ^ 15 ≤ 0x7f80)
float32_to_bfloat16_nearest_example =
    float32_to_bfloat16_nearest 0x3fc0_8000 (omega arith) (omega arith)

-- Conversions that keep what a narrower format has room for.
abbrev cut_off : Conversions
cut_off = record {
  narrow = λ v. v / 2 ^ 32;
  widen = λ w. w * 2 ^ 32;
  to_int8 = λ v. v % 2 ^ 8;
  from_int8 = λ b. b;
  to_uint8 = λ v. v % 2 ^ 8;
  from_uint8 = λ b. b;
}

abbrev three : List Float64
three = one_f ∷ half_f ∷ two_f ∷ []

parse_upper : parse "FLOAT32" ≡ ok "float32"
unfolding parse to_lower has
parse_upper = refl

from_buffer-to_buffer_example :
    (buf : List ℕ) × (to_buffer cut_off three "FLOAT32" ≡ ok buf)
    × (length buf ≡ length three * size_of "float32")
    × (from_buffer cut_off buf "FLOAT32"
        ≡ ok (map (λ v. decode cut_off "float32" (encode cut_off "float32" v)) three))
from_buffer-to_buffer_example = from_buffer-to_buffer cut_off "FLOAT32" "float32" three parse_upper

no_float8 :
    has ("bfloat16" ∷ "float16" ∷ "float32" ∷ "float64" ∷ "int8" ∷ "uint8" ∷ []) (to_lower "float8")
    ≡ false
unfolding to_lower has
no_float8 = refl
