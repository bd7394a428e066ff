-- ===== src/Base/Bits.antt =====
-- Bitwise or of numbers that share no digit, for words built from fields.
use Prim.Native.Nat.{
  ℕ, zero, suc, ◌+◌, ◌*◌, ◌/◌, ◌^◌, ◌≤◌, ◌<◌, max, bit_or, digits, bit_or-bitwise,
}
use mathlib.Core.Path.{◌≡◌, refl, ap, ◌∙◌}
use native.Mathlib.Omega.{arith}
use native.Mathlib.Nat.{pow-suc}

half_multiple : (k m w : ℕ) → w ≡ m * 2 ^ suc k → w ≡ m * 2 ^ k * 2
half_multiple k m w e = omega (arith, e, ap (λ t. m * t) (pow-suc 2 k))

-- Where the upper number is a multiple of 2 ^ k and the lower one is below, the digits add up.
digits_lem :
    (fuel k m w low : ℕ)
    → w ≡ m * 2 ^ k
    → w ≤ fuel
    → low < 2 ^ k
    → digits (λ d. d) max fuel w low ≡ w + low
digits_lem zero k m w low e p q = omega (arith, p)
digits_lem (suc fuel) k m zero low e p q = omega arith
digits_lem (suc fuel) zero m (suc w) low e p q =
    let bottom : low ≡ 0 = omega (arith, q) in
    let above =
      digits_lem fuel 0 (suc w / 2) (suc w / 2) (low / 2) (omega arith) (omega arith)
        (omega arith) in
    omega (arith, above, bottom)
digits_lem (suc fuel) (suc k) m (suc w) low e p q =
    let even = half_multiple k m (suc w) e in
    let above =
      digits_lem fuel k m (suc w / 2) (low / 2) (omega (arith, even)) (omega arith)
        (omega (arith, q, pow-suc 2 k)) in
    omega (arith, above, even)

-- A number below 2 ^ k under a multiple of 2 ^ k: the fields of a word.
pub bit_or-add : (k m x : ℕ) → x < 2 ^ k → bit_or (m * 2 ^ k) x ≡ m * 2 ^ k + x
bit_or-add k m x h =
    bit_or-bitwise (m * 2 ^ k) x ∙ digits_lem (m * 2 ^ k) k m (m * 2 ^ k) x refl (omega arith) h
