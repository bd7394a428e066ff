-- ===== src/Vectors/Half.antt =====
-- vectors/vectors.go: the conversions between float32 and the two 16-bit formats.
--
-- A float32 is its bit pattern, below 2 ^ 32, which `math.Float32bits` and `math.Float32frombits`
-- pass through; a half or a bfloat16 is a number below 2 ^ 16. A shift or a mask of ones is written
-- as a quotient or a remainder by a power of two, and sums on uint32 wrap.
pub mod Bfloat
pub mod Normal
pub mod Exact
use Prim.Native.Nat.{bit_or}
use redis_vl_golang.Base.{
  ℕ, zero, suc, ◌+◌, ◌-◌, ◌*◌, ◌/◌, ◌%◌, ◌^◌, Bool, ◌&&◌, ◌||◌, not, ltb, leb, ◌==◌, if◌then◌else◌,
}

unfoldable pub float32_to_bfloat16 : ℕ → ℕ
float32_to_bfloat16 b =
    if ltb 0x7f80_0000 (b % 2 ^ 31)
    then bit_or (b / 2 ^ 16) 0x40
    else (b + (0x7fff + b / 2 ^ 16 % 2)) % 2 ^ 32 / 2 ^ 16

unfoldable pub bfloat16_to_float32 : ℕ → ℕ
bfloat16_to_float32 u = u * 2 ^ 16

-- The exponent and the mantissa of the result for a value in the range of normal halves; `exp` is
-- the biased half exponent, `mant` has 23 bits.
round_normal : ℕ → ℕ → ℕ → ℕ
round_normal sign exp mant =
    let half_mant = mant / 2 ^ 13 in
    if mant / 2 ^ 12 % 2 == 1 && (not (mant % 2 ^ 12 == 0) || half_mant % 2 == 1)
    then if half_mant + 1 == 0x400
      then if leb 0x1f (exp + 1)
        then bit_or sign 0x7c00
        else bit_or (bit_or sign ((exp + 1) * 2 ^ 10)) 0
      else bit_or (bit_or sign (exp * 2 ^ 10)) (half_mant + 1)
    else bit_or (bit_or sign (exp * 2 ^ 10)) half_mant

-- The result for a subnormal half, shifted right by `shift`, at least 14.
round_subnormal : ℕ → ℕ → ℕ → ℕ
round_subnormal sign shift mant =
    let m = bit_or mant 0x80_0000 in
    let half_mant = m / 2 ^ shift in
    let round_mask = 2 ^ (shift - 1) in
    bit_or sign (
      if m / round_mask % 2 == 1 && (not (m % round_mask == 0) || half_mant % 2 == 1)
      then half_mant + 1
      else half_mant)

-- The exponent `exp` of the source is exp32 - 112; its tests are made on exp32.
unfoldable pub float32_to_float16 : ℕ → ℕ
unfolding round_normal round_subnormal
float32_to_float16 b =
    let sign = b / 2 ^ 31 % 2 * 2 ^ 15 in
    let exp32 = b / 2 ^ 23 % 2 ^ 8 in
    let mant = b % 2 ^ 23 in
    if exp32 == 0xff
    then if mant == 0 then bit_or sign 0x7c00 else bit_or sign 0x7e00
    else if leb 143 exp32
    then bit_or sign 0x7c00
    else if leb exp32 112
    then if ltb exp32 102 then sign else round_subnormal sign (126 - exp32) mant
    else round_normal sign (exp32 - 112) mant

-- The loop that normalizes a subnormal mantissa; each round adds one to `e`.
normalize : ℕ → ℕ → ℕ → ℕ → ℕ
normalize zero sign mant e = 0
normalize (suc fuel) sign mant e =
    let rest = normalize fuel sign (mant * 2 % 2 ^ 32) (e + 1) in
    if mant / 2 ^ 10 % 2 == 0
    then rest
    else bit_or (bit_or sign ((113 + 2 ^ 32 - e) % 2 ^ 32 * 2 ^ 23 % 2 ^ 32))
        (mant % 2 ^ 10 * 2 ^ 13)

-- A nonzero mantissa below 2 ^ 10 is normal after ten rounds at most.
unfoldable pub float16_to_float32 : ℕ → ℕ
unfolding normalize
float16_to_float32 h =
    let sign = h / 2 ^ 15 % 2 * 2 ^ 31 in
    let exp = h / 2 ^ 10 % 2 ^ 5 in
    let mant = h % 2 ^ 10 in
    let subnormal = normalize 11 sign mant 0 in
    if exp == 0
    then if mant == 0 then sign else subnormal
    else if exp == 0x1f
    then bit_or (bit_or sign 0x7f80_0000) (mant * 2 ^ 13)
    else bit_or (bit_or sign ((exp + 112) * 2 ^ 23)) (mant * 2 ^ 13)
