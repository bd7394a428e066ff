-- ===== src/Index/Ids.antt =====
-- utils.go: the identifiers of documents.
--
-- The clock, the random bytes and the SHA-256 digest in hexadecimal are parameters.
use redis_vl_golang.Base.{
  ℕ, zero, suc, ◌+◌, ◌-◌, ◌*◌, ◌/◌, ◌%◌, ◌^◌, String, ◌<>◌, true, false, Option, none, some, List,
  [], ◌∷◌, ◌++◌, ltb, get_elem?, sort_strings, show_int, if◌then◌else◌,
}
use redis_vl_golang.Base.Dict.{Dict, lookup, keys}
use redis_vl_golang.Index.Value.{Value, text, int, int64, bool, Scalars}

-- `fmt.Sprint`
unfoldable pub sprint : Scalars → Value → String
sprint c (text s) = s
sprint c (int n) = show_int n
sprint c (int64 n) = show_int n
sprint c (bool true) = "true"
sprint c (bool false) = "false"
sprint c v = c.sprint v

abbrev pub shown : Scalars → Option Value → String
shown c none = "<nil>"
shown c (some v) = sprint c v

-- The loop of `Hashify` over the sorted names of the extras.
unfoldable pub with_extras : Scalars → Dict Value → List String → String → String
unfolding sprint
with_extras c extras [] content = content
with_extras c extras (k ∷ ks) content =
    with_extras c extras ks (content <> (" " <> (k <> shown c (lookup k extras))))

unfoldable pub hashify : (String → String) → Scalars → String → Dict Value → String
unfolding with_extras
hashify digest c content extras = digest (with_extras c extras (sort_strings (keys extras)) content)

abbrev crockford : List String
crockford =
    "0" ∷ "1" ∷ "2" ∷ "3" ∷ "4" ∷ "5" ∷ "6" ∷ "7" ∷ "8" ∷ "9" ∷ "A" ∷ "B" ∷ "C" ∷ "D" ∷ "E" ∷ "F"
    ∷ "G" ∷ "H" ∷ "J" ∷ "K" ∷ "M" ∷ "N" ∷ "P" ∷ "Q" ∷ "R" ∷ "S" ∷ "T" ∷ "V" ∷ "W" ∷ "X" ∷ "Y" ∷ "Z"
    ∷ []

-- The digits of base 32 of the lowest 5 n bits, the highest first.
unfoldable pub time_digits : ℕ → ℕ → List ℕ
time_digits zero t = []
time_digits (suc n) t = time_digits n (t / 32) ++ (t % 32 ∷ [])

-- The inner loop over the bits that have gathered: a byte gives at most two digits.
abbrev two_digits : ℕ → ℕ → List ℕ × ℕ
two_digits acc bits =
    if ltb bits 5
    then ([], bits)
    else if ltb (bits - 5) 5
    then (acc / 2 ^ (bits - 5) % 32 ∷ [], bits - 5)
    else (acc / 2 ^ (bits - 5) % 32 ∷ acc / 2 ^ (bits - 10) % 32 ∷ [], bits - 10)

unfoldable pub random_digits : ℕ → ℕ → List ℕ → List ℕ
random_digits acc bits [] = []
random_digits acc bits (b ∷ buf) =
    let acc' = (acc * 256 + b) % 2 ^ 64 in
    let (digits, left) = two_digits acc' (bits + 8) in digits ++ random_digits acc' left buf

abbrev pub or_empty : Option String → String
or_empty none = ""
or_empty (some s) = s

unfoldable pub spell : List ℕ → String
spell [] = ""
spell (d ∷ digits) = or_empty (get_elem? crockford d) <> spell digits

-- `NewULID`, at a time in milliseconds, with ten random bytes.
unfoldable pub new_ulid : ℕ → List ℕ → String
unfolding spell time_digits random_digits
new_ulid millis buf = spell (time_digits 10 (millis % 2 ^ 48) ++ random_digits 0 0 buf)
