-- ===== src/Vectors/Half/Normal.antt =====
-- float32 to half precision in the range of the normal halves: rounding to nearest even
-- (`Float32ToFloat16`).
use Prim.Native.Nat.{bit_or}
use redis_vl_golang.Base.{
  ℕ, ◌+◌, ◌-◌, ◌*◌, ◌/◌, ◌%◌, ◌^◌, ◌≤◌, ◌<◌, ◌≡◌, ap, ◌∙◌, arith, Bool, ◌&&◌, ◌||◌, not, leb, ◌==◌,
  if◌then◌else◌, Bool-cases, inl, inr,
}
use redis_vl_golang.Base.Bits.{bit_or-add}
use redis_vl_golang.Vectors.Half.{round_normal, float32_to_float16}

-- The sign, the exponent and the mantissa of a half side by side.
pub half_fields :
    (s e m : ℕ)
    → e < 32
    → m < 1024
    → bit_or (bit_or (s * 2 ^ 15) (e * 2 ^ 10)) m ≡ s * 2 ^ 15 + e * 2 ^ 10 + m
half_fields s e m he hm =
    let joined : s * 2 ^ 15 + e * 2 ^ 10 ≡ (s * 32 + e) * 2 ^ 10 = omega arith in
    ap (λ t. bit_or t m) (bit_or-add 15 s (e * 2 ^ 10) (omega arith) ∙ joined)
    ∙ bit_or-add 10 (s * 32 + e) m (omega arith)
    ∙ omega arith

-- Whether the mantissa is rounded up to ten bits.
abbrev pub rounds_up : ℕ → Bool
rounds_up mant = mant / 2 ^ 12 % 2 == 1 && (not (mant % 2 ^ 12 == 0) || mant / 2 ^ 13 % 2 == 1)

abbrev pub bump : Bool → ℕ
bump b = if b then 1 else 0

-- An overflow of the mantissa goes over into the exponent, and from there into infinity.
round_normal_lem :
    (s exp mant : ℕ)
    → exp < 31
    → mant < 2 ^ 23
    → round_normal (s * 2 ^ 15) exp mant
      ≡ s * 2 ^ 15 + exp * 2 ^ 10 + mant / 2 ^ 13 + bump (rounds_up mant)
unfolding round_normal
round_normal_lem s exp mant he hm = elim (Bool-cases (rounds_up mant)) [
  | inr down ↦ rw down (half_fields s exp (mant / 2 ^ 13) (omega arith) (omega arith) ∙ omega arith)
  | inl up ↦ rw up (elim (Bool-cases (mant / 2 ^ 13 + 1 == 0x400)) [
    | inr fits ↦
        rw fits (half_fields s exp (mant / 2 ^ 13 + 1) (omega arith) (ground arith) ∙ omega arith)
    | inl over ↦ rw over (elim (Bool-cases (leb 0x1f (exp + 1))) [
      | inl infinite ↦ rw infinite (bit_or-add 15 s 0x7c00 (omega arith) ∙ ground arith)
      | inr finite ↦
          rw finite (half_fields s (exp + 1) 0 (ground arith) (omega arith) ∙ ground arith)
    ])
  ])
]

sign_bit : (b : ℕ) → b < 2 ^ 32 → b / 2 ^ 31 % 2 ≡ b / 2 ^ 31
sign_bit b h = omega arith

pub float32_to_float16_normal :
    (b : ℕ)
    → 113 ≤ b / 2 ^ 23 % 2 ^ 8
    → b / 2 ^ 23 % 2 ^ 8 ≤ 142
    → float32_to_float16 b
      ≡ b / 2 ^ 31 % 2 * 2 ^ 15
        + (b / 2 ^ 23 % 2 ^ 8 - 112) * 2 ^ 10
        + b % 2 ^ 23 / 2 ^ 13
        + bump (rounds_up (b % 2 ^ 23))
unfolding float32_to_float16
float32_to_float16_normal b lo hi =
    ground (arith, round_normal_lem (b / 2 ^ 31 % 2) (b / 2 ^ 23 % 2 ^ 8 - 112) (b % 2 ^ 23))

-- In the range of the normal halves the result keeps the sign, is at most half a unit in the last
-- place away from the float32 (a rounding up to infinity included, which stands where the next
-- binade would begin), and is even in a tie.
pub float32_to_float16_nearest :
    (b : ℕ)
    → b < 2 ^ 32
    → 113 ≤ b / 2 ^ 23 % 2 ^ 8
    → b / 2 ^ 23 % 2 ^ 8 ≤ 142
    → (float32_to_float16 b / 2 ^ 15 ≡ b / 2 ^ 31)
      × (float32_to_float16 b % 2 ^ 15 * 2 ^ 13 + 112 * 2 ^ 23 ≤ b % 2 ^ 31 + 2 ^ 12)
      × (b % 2 ^ 31 ≤ float32_to_float16 b % 2 ^ 15 * 2 ^ 13 + 112 * 2 ^ 23 + 2 ^ 12)
      × (b % 2 ^ 13 ≡ 2 ^ 12 → float32_to_float16 b % 2 ≡ 0)
float32_to_float16_nearest b h lo hi =
    rw (float32_to_float16_normal b lo hi) (ground arith, ground arith, ground arith, ground arith)
