-- ===== src/Filter/Escape/Laws.antt =====
-- What escaping keeps and what it rules out (filter/escaper.go).
use Prim.Native.String.{String, [], ◌∷◌}
use Prim.Native.Char.{Char, code}
use redis_vl_golang.Base.{
  ◌≡◌, refl, ap, ◌≢◌, ◌∙◌, Bool, true, false, Bool-cases, inl, inr, ◌==◌, arith, char_in, sym,
  if◌then◌else◌,
}
use redis_vl_golang.Filter.Escape.{
  escape_with, escape_token, escaped_chars, escaped_chars_no_wildcard,
}

-- How a reader of the query takes a backslash: the next character stands for itself.
unfoldable pub unescape : String → String
unescape [] = []
unescape (c ∷ []) = c ∷ []
unescape (c ∷ d ∷ s) =
    let quoted = d ∷ unescape s in
    let plain = c ∷ unescape (d ∷ s) in if code c == b'\\' then quoted else plain

unescape-cons : (c : Char) (s : String) → code c ≢ b'\\' → unescape (c ∷ s) ≡ c ∷ unescape s
unfolding unescape
unescape-cons c [] h = refl
unescape-cons c (d ∷ s) h = ground arith

char_in-false :
    (class : String) (c d : Char)
    → char_in class d ≡ true
    → char_in class c ≡ false
    → code c ≢ code d
unfolding char_in
char_in-false [] c d h k e = cc
char_in-false (a ∷ class) c d h k e = ground (arith, char_in-false class c d)

unescape-escape_with :
    (class : String) → char_in class "\\" ≡ true → (s : String) → unescape (escape_with class s) ≡ s
unfolding escape_with unescape
unescape-escape_with class h [] = refl
unescape-escape_with class h (c ∷ s) = elim (Bool-cases (char_in class c)) [
  | inl special ↦ rw special (ap (λ t. c ∷ t) (unescape-escape_with class h s))
  | inr plain ↦ rw plain (
      unescape-cons c (escape_with class s) (char_in-false class c "\\" h plain)
      ∙ ap (λ t. c ∷ t) (unescape-escape_with class h s))
]

-- Reading the escaped token gives back the value, with and without wildcards preserved.
pub unescape-escape_token :
    (value : String) (preserve_wildcards : Bool)
    → unescape (escape_token value preserve_wildcards) ≡ value
unfolding escape_token char_in
unescape-escape_token value true = unescape-escape_with _ refl value
unescape-escape_token value false = unescape-escape_with _ refl value

-- Read from the left, every character of the class has a backslash before it that no backslash
-- quotes, and no such backslash stands at the end. The flag says that one was just read.
abbrev pub IsQuoted : String → Bool → String → Type 0
IsQuoted class quoted [] = quoted ≡ false
IsQuoted class true (c ∷ s) = IsQuoted class false s
IsQuoted class false (c ∷ s) = elim (code c == b'\\') [
  | true ↦ IsQuoted class true s
  | false ↦ (char_in class c ≡ false) × IsQuoted class false s
]

IsQuoted-plain :
    (class : String) (c : Char) (s : String)
    → code c ≢ b'\\'
    → char_in class c ≡ false
    → IsQuoted class false s
    → IsQuoted class false (c ∷ s)
IsQuoted-plain class c s h plain q = elim (Bool-cases (code c == b'\\')) [
  | inl e ↦ absurd (h (ground arith))
  | inr e ↦ rw (e, IsQuoted) (plain, q)
]

escape_with-IsQuoted :
    (class : String)
    → char_in class "\\" ≡ true
    → (s : String) → IsQuoted class false (escape_with class s)
unfolding escape_with
escape_with-IsQuoted class h [] = refl
escape_with-IsQuoted class h (c ∷ s) = elim (Bool-cases (char_in class c)) [
  | inl special ↦ rw special (escape_with-IsQuoted class h s)
  | inr plain ↦ rw plain (
      IsQuoted-plain class c (escape_with class s) (char_in-false class c "\\" h plain) plain
        (escape_with-IsQuoted class h s))
]

-- An escaped token holds no special character that is not quoted, and ends no quotation early;
-- where wildcards are preserved, * and ? are not among the special ones.
pub escape_token-IsQuoted :
    (value : String) (preserve_wildcards : Bool)
    → IsQuoted
        (if preserve_wildcards then escaped_chars_no_wildcard else escaped_chars)
        false
        (escape_token value preserve_wildcards)
unfolding escape_token char_in
escape_token-IsQuoted value true = escape_with-IsQuoted _ refl value
escape_token-IsQuoted value false = escape_with-IsQuoted _ refl value

-- Only the empty value has an empty token.
pub escape_token-ne-nil :
    (value : String) (preserve_wildcards : Bool)
    → value ≢ ""
    → escape_token value preserve_wildcards ≢ ""
unfolding unescape
escape_token-ne-nil value preserve_wildcards h e =
    h (sym (unescape-escape_token value preserve_wildcards) ∙ ap unescape e)
