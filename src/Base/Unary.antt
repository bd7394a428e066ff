-- ===== src/Base/Unary.antt =====
-- Numbers as texts of that length: a format that can be read back, for runs at concrete inputs.
use Prim.Native.Nat.{ℕ, zero, suc}
use Prim.Native.String.{String}
use mathlib.Core.Path.{◌≡◌, refl, ap}
use mathlib.Core.Logic.{◌≢◌}
use native.Mathlib.Omega.{arith}

unfoldable pub unary : ℕ → String
unary zero = ""
unary (suc n) = String.◌∷◌ "1" (unary n)

pub tally : String → ℕ
tally String.[] = 0
tally (String.◌∷◌ c s) = suc (tally s)

pub tally-unary : (n : ℕ) → tally (unary n) ≡ n
unfolding tally unary
tally-unary zero = refl
tally-unary (suc n) = ap suc (tally-unary n)

pub unary-suc : (n : ℕ) → unary (suc n) ≢ ""
unfolding tally unary
unary-suc n h = omega (arith, ap tally h)
