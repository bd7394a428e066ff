-- ===== src/Base/Text.antt =====
-- Text: what the sources use of Go's `strings`, `sort` and of the verb %d.
--
-- A text is walked by code point. `to_lower` and `to_upper` map the ASCII letters and the four
-- other code points whose image is an ASCII letter (U+0130 and U+212A downwards, U+0131 and U+017F
-- upwards); every other code point stays. A comparison of a mapped text with an ASCII constant, the
-- use that the sources make of one, is then the comparison that Go makes.
use Prim.Native.Nat.{ℕ, zero, suc, ◌+◌, ◌/◌, ◌%◌, Ordering}
use Prim.Native.Char.{Char, code}
use Prim.Native.String.{String, compare}
use Prim.Native.String
use mathlib.Core.Path.{◌≡◌, refl, sym, subst, ap, ◌∙◌}
use mathlib.Core.Logic.{inl, inr}
use mathlib.Core.Bool.{Bool, true, false, ◌&&◌, ◌||◌}
use mathlib.Core.List.{List, [], ◌∷◌}
use native.Mathlib.Omega.{arith}
use text.Mathlib.Text.{◌==◌ as str_eq}
use text.Mathlib.TextEquality.{eq_iff as str_eq_iff}
use redis_vl_golang.Base.Tests.{◌==◌, leb, if◌then◌else◌, Bool-cases}
use redis_vl_golang.Base.Lists.{All, length}
use redis_vl_golang.Base.Int.{ℤ, pos, negsuc}

-- The character of `to` that stands where `from` has c, or c.
abbrev translate_char : String → String → Char → Char
translate_char String.[] to c = c
translate_char (String.◌∷◌ f from) String.[] c = c
translate_char (String.◌∷◌ f from) (String.◌∷◌ t to) c =
    if code c == code f then t else translate_char from to c

translate : String → String → String → String
translate from to String.[] = ""
translate from to (String.◌∷◌ c s) = String.◌∷◌ (translate_char from to c) (translate from to s)

-- `strings.ToLower`
unfoldable pub to_lower : String → String
unfolding translate
to_lower = translate "ABCDEFGHIJKLMNOPQRSTUVWXYZİK" "abcdefghijklmnopqrstuvwxyzik"

-- `strings.ToUpper`
unfoldable pub to_upper : String → String
unfolding translate
to_upper = translate "abcdefghijklmnopqrstuvwxyzıſ" "ABCDEFGHIJKLMNOPQRSTUVWXYZIS"

-- `strings.Join`
unfoldable pub join : String → List String → String
join sep [] = ""
join sep (x ∷ []) = x
join sep (x ∷ xs) = String.◌++◌ x (String.◌++◌ sep (join sep xs))

-- Whether a character is one of those of the text, as a regular expression's class has it.
unfoldable pub char_in : String → Char → Bool
char_in String.[] c = false
char_in (String.◌∷◌ d s) c = code c == code d || char_in s c

-- `unicode.IsSpace`, and `strings.TrimSpace(s) == ""`
unfoldable pub is_space : Char → Bool
is_space c =
    (leb 9 (code c) && leb (code c) 13)
    || code c == 32
    || code c == 0x85
    || code c == 0xa0
    || code c == 0x1680
    || (leb 0x2000 (code c) && leb (code c) 0x200a)
    || code c == 0x2028
    || code c == 0x2029
    || code c == 0x202f
    || code c == 0x205f
    || code c == 0x3000

unfoldable pub is_blank : String → Bool
unfolding is_space
is_blank String.[] = true
is_blank (String.◌∷◌ c s) = is_space c && is_blank s

-- `strings.HasPrefix`
unfoldable pub has_prefix : String → String → Bool
has_prefix s String.[] = true
has_prefix String.[] (String.◌∷◌ d p) = false
has_prefix (String.◌∷◌ c s) (String.◌∷◌ d p) = code c == code d && has_prefix s p

-- `%d`. A number has at most as many digits as the fuel, the number itself and one more, allows.
digit : ℕ → Char
digit zero = "0"
digit (suc zero) = "1"
digit (suc (suc zero)) = "2"
digit (suc (suc (suc zero))) = "3"
digit (suc (suc (suc (suc zero)))) = "4"
digit (suc (suc (suc (suc (suc zero))))) = "5"
digit (suc (suc (suc (suc (suc (suc zero)))))) = "6"
digit (suc (suc (suc (suc (suc (suc (suc zero))))))) = "7"
digit (suc (suc (suc (suc (suc (suc (suc (suc zero)))))))) = "8"
digit (suc (suc (suc (suc (suc (suc (suc (suc (suc n))))))))) = "9"

decimal_from : ℕ → ℕ → String → String
decimal_from zero n s = s
decimal_from (suc fuel) n s =
    let s' = String.◌∷◌ (digit (n % 10)) s in
    let rest = decimal_from fuel (n / 10) s' in if n / 10 == 0 then s' else rest

unfoldable pub decimal : ℕ → String
unfolding decimal_from digit
decimal n = decimal_from (n + 1) n ""

unfoldable pub show_int : ℤ → String
unfolding decimal
show_int (pos n) = decimal n
show_int (negsuc n) = String.◌∷◌ "-" (decimal (suc n))

-- A slice of strings has the element (a Go map used as a set, too).
unfoldable pub has : List String → String → Bool
has [] s = false
has (x ∷ xs) s = str_eq s x || has xs s

-- What holds of each element holds of a text that the slice has.
pub has-All {ℓ} :
    (P : String → Type ℓ) (xs : List String) (s : String) → All P xs → has xs s ≡ true → P s
unfolding has
has-All P [] s a h = cc
has-All P (x ∷ xs) s (p, a) h = elim (Bool-cases (str_eq s x)) [
  | inl e ↦ subst P (sym ((str_eq_iff s x).0 e)) p
  | inr e ↦ has-All P xs s a (rw e at h)
]

-- `sort.Strings`: its result is the sorted list, whatever the algorithm; here by insertion.
str_le : String → String → Bool
str_le s t = elim (compare s t) [ Ordering.gt ↦ false | _ ↦ true ]

insert_sorted : String → List String → List String
insert_sorted x [] = x ∷ []
insert_sorted x (y ∷ ys) =
    let rest = insert_sorted x ys in if str_le x y then x ∷ y ∷ ys else y ∷ rest

unfoldable pub sort_strings : List String → List String
unfolding insert_sorted str_le
sort_strings [] = []
sort_strings (x ∷ xs) = insert_sorted x (sort_strings xs)

length-insert_sorted :
    (x : String) (xs : List String) → length (insert_sorted x xs) ≡ suc (length xs)
unfolding insert_sorted
length-insert_sorted x [] = refl
length-insert_sorted x (y ∷ ys) = elim (Bool-cases (str_le x y)) [
  | inl e ↦ rw e refl
  | inr e ↦ rw e (ap suc (length-insert_sorted x ys))
]

pub length-sort_strings : (xs : List String) → length (sort_strings xs) ≡ length xs
unfolding sort_strings
length-sort_strings [] = refl
length-sort_strings (x ∷ xs) =
    length-insert_sorted x (sort_strings xs) ∙ ap suc (length-sort_strings xs)

has-insert_sorted :
    (x : String) (xs : List String) (s : String)
    → has (insert_sorted x xs) s ≡ (str_eq s x || has xs s)
unfolding insert_sorted has
has-insert_sorted x [] s = refl
has-insert_sorted x (y ∷ ys) s = elim (Bool-cases (str_le x y)) [
  | inl e ↦ rw e refl
  | inr e ↦ rw e (ground (arith, has-insert_sorted x ys s))
]

pub has-sort_strings : (xs : List String) (s : String) → has (sort_strings xs) s ≡ has xs s
unfolding sort_strings has
has-sort_strings [] s = refl
has-sort_strings (x ∷ xs) s =
    has-insert_sorted x (sort_strings xs) s ∙ ap (λ b. str_eq s x || b) (has-sort_strings xs s)

text_tests :
    (to_lower "KM-é9" ≡ "km-é9")
    × (to_upper "hnsw" ≡ "HNSW")
    × (decimal 0 ≡ "0")
    × (decimal 1905 ≡ "1905")
    × (show_int (negsuc 11) ≡ "-12")
    × (join "|" ("a" ∷ "b" ∷ "c" ∷ []) ≡ "a|b|c")
    × (sort_strings ("b" ∷ "a" ∷ "ab" ∷ []) ≡ "a" ∷ "ab" ∷ "b" ∷ [])
    × (has_prefix "LeanVec4x8" "LeanVec" ≡ true)
unfolding to_lower to_upper decimal show_int join sort_strings has_prefix
text_tests = (refl, refl, refl, refl, refl, refl, refl, refl)
