-- ===== src/Vectors/Half/Bfloat.antt =====
-- bfloat16: rounding to nearest even, and the way back (`Float32ToBFloat16`, `BFloat16ToFloat32`).
use redis_vl_golang.Base.{ℕ, ◌+◌, ◌/◌, ◌%◌, ◌^◌, ◌≤◌, ◌<◌, ◌≡◌, arith}
use redis_vl_golang.Vectors.Half.{float32_to_bfloat16, bfloat16_to_float32}

-- The result of a float32 that is no NaN, read as a float32, is at most half a unit in the last
-- place away, is even in a tie, keeps the sign, and is no NaN.
pub float32_to_bfloat16_nearest :
    (b : ℕ)
    → b < 2 ^ 32
    → b % 2 ^ 31 ≤ 0x7f80_0000
    → (bfloat16_to_float32 (float32_to_bfloat16 b) ≤ b + 2 ^ 15)
      × (b ≤ bfloat16_to_float32 (float32_to_bfloat16 b) + 2 ^ 15)
      × (b % 2 ^ 16 ≡ 2 ^ 15 → float32_to_bfloat16 b % 2 ≡ 0)
      × (float32_to_bfloat16 b / 2 ^ 15 ≡ b / 2 ^ 31)
      × (float32_to_bfloat16 b % 2 ^ 15 ≤ 0x7f80)
unfolding float32_to_bfloat16 bfloat16_to_float32
float32_to_bfloat16_nearest b h n =
    (ground arith, ground arith, ground arith, ground arith, ground arith)

-- Every bfloat16 that is no NaN survives the way to float32 and back.
float32_to_bfloat16-bfloat16_to_float32 :
    (u : ℕ) → u < 2 ^ 16 → u % 2 ^ 15 ≤ 0x7f80 → float32_to_bfloat16 (bfloat16_to_float32 u) ≡ u
unfolding float32_to_bfloat16 bfloat16_to_float32
float32_to_bfloat16-bfloat16_to_float32 u h n = ground arith
