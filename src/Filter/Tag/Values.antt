-- ===== src/Filter/Tag/Values.antt =====
-- The list of values of a tag filter, and how its reader splits it (`TagField.formatValues`).
use Prim.Native.String.{String, [], ◌∷◌}
use Prim.Native.Char.{Char, code}
use mathlib.Core.Path.{ap₂}
use mathlib.Core.List.{List, [], ◌∷◌}
use text.Mathlib.TextLemmas.{cons-append, nil-append, append-nil, cons-ne-nil}
use redis_vl_golang.Base.{
  ◌≡◌, refl, sym, ap, ◌∙◌, ◌≢◌, ◌<>◌, Bool, true, false, inl, inr, Bool-cases, ◌==◌, arith, str_eq,
  str_eq_iff, join, char_in, map, All, if◌then◌else◌,
}
use redis_vl_golang.Filter.Escape.{escape_with, escape_token, escaped_chars}
use redis_vl_golang.Filter.Escape.Laws.{unescape, unescape-escape_token}
use redis_vl_golang.Filter.Tag.{TagField, escape_values, format_values, eq, ne}

-- The parts of a split text: the first, and the others.
abbrev Parts : Type 0
Parts = String × List String

abbrev glue : String → Parts → Parts
glue p (x, xs) = (p <> x, xs)

abbrev push : Char → Parts → Parts
push c (x, xs) = (c ∷ x, xs)

abbrev next : Parts → Parts
next (x, xs) = ("", x ∷ xs)

-- The parts between the bars that no backslash quotes. The flag says that one was just read.
pub split : Bool → String → String × List String
split quoted [] = ("", [])
split true (c ∷ s) = push c (split false s)
split false (c ∷ s) =
    let opened = push c (split true s) in
    let closed = next (split false s) in
    let longer = push c (split false s) in
    if code c == b'\\' then opened else if code c == b'|' then closed else longer

-- The values that a reader of the formatted list takes.
abbrev read_parts : Parts → List String
read_parts (x, xs) = unescape x ∷ map unescape xs

pub read_values : String → List String
unfolding split
read_values s = read_parts (split false s)

abbrev pub NoBar : String → Type 0
NoBar [] = Unit
NoBar (c ∷ s) = (code c ≢ b'|') × NoBar s

push-glue : (c : Char) (e : String) (parts : Parts) → push c (glue e parts) ≡ glue (c ∷ e) parts
push-glue c e (x, xs) = rw cons-append

char_in-quote : (c : Char) → char_in escaped_chars c ≡ false → (code c == b'\\') ≡ false
unfolding char_in
char_in-quote c h = ground arith

split-quoted :
    (c : Char) (s : String) → split false ("\\" ∷ c ∷ s) ≡ push "\\" (push c (split false s))
unfolding split
split-quoted c s = refl

split-plain :
    (c : Char) (s : String)
    → (code c == b'\\') ≡ false
    → code c ≢ b'|'
    → split false (c ∷ s) ≡ push c (split false s)
unfolding split
split-plain c s h k = ground arith

split-glue :
    (v t : String)
    → NoBar v
    → split false (escape_with escaped_chars v <> t)
      ≡ glue (escape_with escaped_chars v) (split false t)
unfolding escape_with
split-glue [] t h = rw nil-append (rw nil-append)
split-glue (c ∷ v) t (p, h) =
    let e = escape_with escaped_chars v in
    let ih = ap (push c) (split-glue v t h) ∙ push-glue c e (split false t) in
    elim (Bool-cases (char_in escaped_chars c)) [
      | inl special ↦ rw special (
          ap (split false) (cons-append "\\" (c ∷ e) t ∙ ap (λ s. "\\" ∷ s) (cons-append c e t))
          ∙ split-quoted c (e <> t)
          ∙ ap (push "\\") ih
          ∙ push-glue "\\" (c ∷ e) (split false t))
      | inr plain ↦ rw plain (
          ap (split false) (cons-append c e t)
          ∙ split-plain c (e <> t) (char_in-quote c plain) p
          ∙ ih)
    ]

split-escape :
    (v : String)
    → NoBar v
    → split false (escape_with escaped_chars v) ≡ (escape_with escaped_chars v, [])
unfolding split
split-escape v h =
    let e = escape_with escaped_chars v in
    ap (split false) {x = e} {y = e <> ""} (sym (append-nil e))
    ∙ split-glue v "" h
    ∙ ap {B = Parts} (λ s. (s, [])) {x = e <> ""} {y = e} (append-nil e)

split-bar : (t : String) → split false ("|" <> t) ≡ next (split false t)
unfolding split
split-bar t =
    ap (split false) {x = "|" <> t} (cons-append "|" "" t)
    ∙ ap (λ s. next (split false s)) {x = "" <> t} {y = t} (nil-append t)

unescape-escape : (v : String) → unescape (escape_with escaped_chars v) ≡ v
unfolding escape_token
unescape-escape v = unescape-escape_token v false

read_values-join :
    (v : String) (values : List String)
    → All NoBar (v ∷ values)
    → read_values (join "|" (map (escape_with escaped_chars) (v ∷ values))) ≡ v ∷ values
unfolding read_values join
read_values-join v [] (p, _) =
    ap read_parts (split-escape v p) ∙ ap (λ x. x ∷ []) (unescape-escape v)
read_values-join v (w ∷ values) (p, h) =
    let e = escape_with escaped_chars v in
    let rest = join "|" (map (escape_with escaped_chars) (w ∷ values)) in
    ap read_parts (split-glue v ("|" <> rest) p ∙ ap (glue e) (split-bar rest))
    ∙ ap₂ (λ x xs. x ∷ xs) (ap unescape (append-nil e) ∙ unescape-escape v)
        (read_values-join w values h)

abbrev pub drop_empty : List String → List String
drop_empty [] = []
drop_empty (v ∷ values) = let rest = drop_empty values in if str_eq v "" then rest else v ∷ rest

escape_values-map :
    (values : List String)
    → escape_values values false ≡ map (escape_with escaped_chars) (drop_empty values)
unfolding escape_values escape_token
escape_values-map [] = refl
escape_values-map (v ∷ values) = ground (arith, escape_values-map values)

All-drop_empty : (values : List String) → All NoBar values → All NoBar (drop_empty values)
All-drop_empty [] h = tt
All-drop_empty (v ∷ values) (p, h) = ground (arith, All-drop_empty values h)

read_values_any :
    (kept : List String)
    → All NoBar kept
    → kept ≢ []
    → read_values (join "|" (map (escape_with escaped_chars) kept)) ≡ kept
read_values_any [] h n = absurd (n refl)
read_values_any (v ∷ kept) h n = read_values-join v kept h

-- Where no value holds a bar, a reader of the formatted list gets the values that are not empty,
-- in their order.
pub read_values-format_values :
    (values : List String)
    → All NoBar values
    → drop_empty values ≢ []
    → read_values (format_values values false) ≡ drop_empty values
unfolding format_values
read_values-format_values values h n =
    rw escape_values-map (read_values_any (drop_empty values) (All-drop_empty values h) n)

escape_with-append :
    (class a b : String) → escape_with class (a <> b) ≡ escape_with class a <> escape_with class b
unfolding escape_with
escape_with-append class [] b = rw nil-append (rw nil-append)
escape_with-append class (c ∷ a) b = elim (Bool-cases (char_in class c)) [
  | inl special ↦ simp (cons-append, special, escape_with-append class a b)
  | inr plain ↦ simp (cons-append, plain, escape_with-append class a b)
]

not_empty : (s : String) → s ≢ "" → str_eq s "" ≡ false
not_empty s h = elim (Bool-cases (str_eq s "")) [
  | inl e ↦ absurd (h ((str_eq_iff s "").0 e))
  | inr e ↦ e
]

append-ne-nil : (a s : String) → a ≢ "" → a <> s ≢ ""
append-ne-nil [] s h e = h refl
append-ne-nil (c ∷ a) s h e = cons-ne-nil c (a <> s) (sym (cons-append c a s) ∙ e)

escape_with-bar :
    (b : String) → escape_with escaped_chars ("|" <> b) ≡ "|" <> escape_with escaped_chars b
unfolding escape_with char_in
escape_with-bar b = escape_with-append escaped_chars "|" b

format_values-bar :
    (a b : String)
    → a ≢ ""
    → b ≢ ""
    → format_values ((a <> ("|" <> b)) ∷ []) false ≡ format_values (a ∷ b ∷ []) false
unfolding format_values escape_values escape_token join
format_values-bar a b p q =
    rw (not_empty _ (append-ne-nil a ("|" <> b) p), not_empty a p, not_empty b q)
      (escape_with-append escaped_chars a ("|" <> b)
        ∙ ap (λ s. escape_with escaped_chars a <> s) (escape_with-bar b))

-- A bar is not escaped: one value that holds a bar gives the filter of two values, for equality
-- and for inequality alike.
pub eq-bar :
    (t : TagField) (a b : String)
    → a ≢ ""
    → b ≢ ""
    → (eq t ((a <> ("|" <> b)) ∷ []) ≡ eq t (a ∷ b ∷ []))
      × (ne t ((a <> ("|" <> b)) ∷ []) ≡ ne t (a ∷ b ∷ []))
unfolding eq ne
eq-bar t a b p q = (rw (format_values-bar a b p q), rw (format_values-bar a b p q))
