-- ===== src/Filter/Escape.antt =====
-- filter/escaper.go
pub mod Laws
use Prim.Native.String.{String, [], ◌∷◌}
use redis_vl_golang.Base.{Bool, char_in, if◌then◌else◌}

-- The characters that a match of `escapedChars` can be.
abbrev pub escaped_chars : String
escaped_chars = ",.<>{}[]\\\"':;!@#$%^&*()-+=~/ ?"

abbrev pub escaped_chars_no_wildcard : String
escaped_chars_no_wildcard = ",.<>{}[]\\\"':;!@#$%^&()-+=~/ "

-- `re.ReplaceAllStringFunc` for an expression that matches one character of the class.
unfoldable pub escape_with : String → String → String
escape_with class [] = []
escape_with class (c ∷ s) =
    let rest = c ∷ escape_with class s in if char_in class c then "\\" ∷ rest else rest

unfoldable pub escape_token : String → Bool → String
escape_token value preserve_wildcards =
    escape_with (if preserve_wildcards then escaped_chars_no_wildcard else escaped_chars) value
