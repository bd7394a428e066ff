-- ===== src/Base/Float.antt =====
-- float64 as its IEEE 754 bit pattern, a number below 2 ^ 64: the comparisons that the sources make
-- and the constants that they name. Arithmetic and formatting of floats are parameters where they
-- are used.
use Prim.Native.Nat.{ℕ, ◌/◌, ◌%◌, ◌^◌}
use mathlib.Core.Path.{◌≡◌, refl}
use mathlib.Core.Bool.{Bool, true, false, not, ◌&&◌, ◌||◌}
use redis_vl_golang.Base.Tests.{ltb, ◌==◌, if◌then◌else◌}

abbrev pub Float64 : Type 0
Float64 = ℕ

-- The sign bit, and the other 63.
is_neg : Float64 → Bool
is_neg x = x / 2 ^ 63 == 1

mag : Float64 → ℕ
mag x = x % 2 ^ 63

unfoldable pub is_nan : Float64 → Bool
unfolding mag
is_nan x = ltb 0x7ff0_0000_0000_0000 (mag x)

-- `==`, `<` and `<=`: a NaN is in no relation, and -0 is 0.
unfoldable pub eq : Float64 → Float64 → Bool
unfolding mag is_nan
eq x y = not (is_nan x) && not (is_nan y) && (x == y || (mag x == 0 && mag y == 0))

unfoldable pub lt : Float64 → Float64 → Bool
unfolding mag is_neg is_nan
lt x y =
    not (is_nan x)
    && not (is_nan y)
    && (if is_neg x
        then (if is_neg y then ltb (mag y) (mag x) else not (mag x == 0 && mag y == 0))
        else if is_neg y
        then false
        else ltb (mag x) (mag y))

unfoldable pub le : Float64 → Float64 → Bool
unfolding lt eq
le x y = lt x y || eq x y

abbrev pub zero_f : Float64
zero_f = 0

abbrev pub one_f : Float64
one_f = 0x3ff0_0000_0000_0000

abbrev pub two_f : Float64
two_f = 0x4000_0000_0000_0000

-- 0.5, 0.2, 0.1 and 0.01
abbrev pub half_f : Float64
half_f = 0x3fe0_0000_0000_0000

abbrev pub fifth_f : Float64
fifth_f = 0x3fc9_9999_9999_999a

abbrev pub tenth_f : Float64
tenth_f = 0x3fb9_9999_9999_999a

abbrev pub hundredth_f : Float64
hundredth_f = 0x3f84_7ae1_47ae_147b

float_tests :
    (lt fifth_f half_f ≡ true)
    × (lt half_f fifth_f ≡ false)
    × (eq zero_f (2 ^ 63) ≡ true)
    × (eq 0x7ff8_0000_0000_0000 0x7ff8_0000_0000_0000 ≡ false)
    × (le two_f two_f ≡ true)
unfolding lt eq le
float_tests = (refl, refl, refl, refl, refl)
