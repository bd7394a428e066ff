-- ===== src/Vectors/Half/Exact.antt =====
-- Every half is exactly a float32: the way there and back (`Float16ToFloat32`, `Float32ToFloat16`).
use Prim.Native.Nat.{bit_or}
use redis_vl_golang.Base.{
  ℕ, zero, suc, ◌+◌, ◌*◌, ◌/◌, ◌%◌, ◌^◌, ◌≤◌, ◌<◌, ◌≡◌, refl, ap, ◌∙◌, arith, Bool, true, ◌&&◌,
  ◌==◌, ==_iff, Bool-cases, inl, inr,
}
use redis_vl_golang.Base.Bits.{bit_or-add}
use redis_vl_golang.Vectors.Half.{float16_to_float32, float32_to_float16}
use redis_vl_golang.Vectors.Half.Normal.{float32_to_float16_normal}

single_fields :
    (s e m : ℕ)
    → e < 256
    → m < 2 ^ 23
    → bit_or (bit_or (s * 2 ^ 31) (e * 2 ^ 23)) m ≡ s * 2 ^ 31 + e * 2 ^ 23 + m
single_fields s e m he hm =
    let joined : s * 2 ^ 31 + e * 2 ^ 23 ≡ (s * 256 + e) * 2 ^ 23 = omega arith in
    ap (λ t. bit_or t m) (bit_or-add 31 s (e * 2 ^ 23) (omega arith) ∙ joined)
    ∙ bit_or-add 23 (s * 256 + e) m (omega arith)
    ∙ omega arith

float16_to_float32_normal :
    (h : ℕ)
    → 0 < h / 2 ^ 10 % 2 ^ 5
    → h / 2 ^ 10 % 2 ^ 5 < 31
    → float16_to_float32 h
      ≡ h / 2 ^ 15 % 2 * 2 ^ 31 + (h / 2 ^ 10 % 2 ^ 5 + 112) * 2 ^ 23 + h % 2 ^ 10 * 2 ^ 13
unfolding float16_to_float32
float16_to_float32_normal h lo hi =
    ground (arith, single_fields (h / 2 ^ 15 % 2) (h / 2 ^ 10 % 2 ^ 5 + 112) (h % 2 ^ 10 * 2 ^ 13))

float32_to_float16_of_fields :
    (s e m : ℕ)
    → s < 2
    → 0 < e
    → e < 31
    → m < 1024
    → float32_to_float16 (s * 2 ^ 31 + (e + 112) * 2 ^ 23 + m * 2 ^ 13)
      ≡ s * 2 ^ 15 + e * 2 ^ 10 + m
float32_to_float16_of_fields s e m hs lo hi hm =
    rw
      (float32_to_float16_normal (s * 2 ^ 31 + (e + 112) * 2 ^ 23 + m * 2 ^ 13) (omega arith)
        (omega arith))
      (ground arith)

-- The halves of exponent 0, sign and mantissa interleaved.
abbrev tiny : ℕ → ℕ
tiny x = x % 2 * 2 ^ 15 + x / 2

abbrev returns : ℕ → Bool
returns h = float32_to_float16 (float16_to_float32 h) == h

-- The test holds of the numbers below the bound, by running it on each.
tested : (ℕ → Bool) → ℕ → Bool
tested test zero = true
tested test (suc bound) = tested test bound && test bound

tested_lem : (test : ℕ → Bool) (bound x : ℕ) → x < bound → tested test bound ≡ true → test x ≡ true
unfolding tested
tested_lem test zero x h passed = absurd (omega arith)
tested_lem test (suc bound) x h passed = ground (arith, tested_lem test bound x)

tiny_table : tested (λ x. returns (tiny x)) 2048 ≡ true
unfolding tested float32_to_float16 float16_to_float32
tiny_table = refl

infinite_table : tested (λ s. returns (s * 2 ^ 15 + 0x7c00)) 2 ≡ true
unfolding tested float32_to_float16 float16_to_float32
infinite_table = refl

tiny_returns :
    (h : ℕ) → h < 2 ^ 16 → h / 2 ^ 10 % 2 ^ 5 ≡ 0 → float32_to_float16 (float16_to_float32 h) ≡ h
tiny_returns h lt e =
    let x : ℕ = h / 2 ^ 15 + h % 2 ^ 10 * 2 in
    let same : tiny x ≡ h = omega arith in
    rw same at ((==_iff _ _).0 (tested_lem (λ x. returns (tiny x)) 2048 x (omega arith) tiny_table))

infinite_returns :
    (h : ℕ) → h < 2 ^ 16 → h % 2 ^ 15 ≡ 0x7c00 → float32_to_float16 (float16_to_float32 h) ≡ h
infinite_returns h lt e =
    let same : h / 2 ^ 15 * 2 ^ 15 + 0x7c00 ≡ h = omega arith in
    rw same at (
      (==_iff _ _).0 (
        tested_lem (λ s. returns (s * 2 ^ 15 + 0x7c00)) 2 (h / 2 ^ 15) (omega arith)
          infinite_table))

-- Every half that is no NaN (subnormals, zeros and infinities included) survives the way to
-- float32 and back.
pub float32_to_float16-float16_to_float32 :
    (h : ℕ) → h < 2 ^ 16 → h % 2 ^ 15 ≤ 0x7c00 → float32_to_float16 (float16_to_float32 h) ≡ h
float32_to_float16-float16_to_float32 h lt n = elim (Bool-cases (h / 2 ^ 10 % 2 ^ 5 == 0)) [
  | inl e ↦ tiny_returns h lt (ground arith)
  | inr small ↦ elim (Bool-cases (h / 2 ^ 10 % 2 ^ 5 == 31)) [
    | inl e ↦ infinite_returns h lt (ground arith)
    | inr big ↦ rw (float16_to_float32_normal h (ground arith) (ground arith)) (
        float32_to_float16_of_fields (h / 2 ^ 15 % 2) (h / 2 ^ 10 % 2 ^ 5) (h % 2 ^ 10)
          (omega arith) (ground arith) (ground arith) (omega arith)
        ∙ omega arith)
  ]
]
