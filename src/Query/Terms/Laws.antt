-- ===== src/Query/Terms/Laws.antt =====
-- The fields of a text and the terms of a full-text query.
use Prim.Native.Char.{Char}
use text.Mathlib.TextLemmas.{cons-append, nil-append}
use redis_vl_golang.Base.{
  String, ◌<>◌, str_eq, str_eq_iff, ◌≡◌, ◌≢◌, refl, sym, ap, ◌∙◌, Bool, true, false, Bool-cases,
  inl, inr, List, [], ◌∷◌, has, All, ◌⊎◌,
}
use redis_vl_golang.Base.Float.{Float64}
use redis_vl_golang.Base.Dict.{Dict}
use redis_vl_golang.Filter.Escape.{escaped_chars}
use redis_vl_golang.Filter.Escape.Laws.{IsQuoted, unescape}
use redis_vl_golang.Query.Options.{Floats}
use redis_vl_golang.Query.Terms.{
  is_space, keep, without_quotes, trim_commas, trim_space, first_field, fields, reject, weighted,
}

pub glue : List String → String
glue [] = ""
glue (x ∷ xs) = x <> glue xs

-- No character of the text is one that the test accepts.
abbrev pub IsFree : (Char → Bool) → String → Type 0
IsFree p String.[] = Unit
IsFree p (String.◌∷◌ c s) = (p c ≡ false) × IsFree p s

glue-keep : (s : String) (fs : List String) → glue (keep s fs) ≡ s <> glue fs
unfolding glue
glue-keep s fs = elim (Bool-cases (str_eq s "")) [
  | inl e ↦ rw (e, (str_eq_iff s "").0 e) (sym (nil-append (glue fs)))
  | inr e ↦ rw e refl
]

first_field-glue : (s : String) → (first_field s).0 <> glue (first_field s).1 ≡ reject is_space s
unfolding first_field reject glue
first_field-glue String.[] = refl
first_field-glue (String.◌∷◌ c s) = elim (Bool-cases (is_space c)) [
  | inl e ↦ rw e (
      nil-append (glue (keep (first_field s).0 (first_field s).1))
      ∙ glue-keep (first_field s).0 (first_field s).1
      ∙ first_field-glue s)
  | inr e ↦ rw e (
      cons-append c (first_field s).0 (glue (first_field s).1)
      ∙ ap (λ t. String.◌∷◌ c t) (first_field-glue s))
]

abbrev Good : String → Type 0
Good f = (f ≢ "") × IsFree is_space f

keep-Good : (s : String) (fs : List String) → IsFree is_space s → All Good fs → All Good (keep s fs)
keep-Good s fs h k = elim (Bool-cases (str_eq s "")) [
  | inl e ↦ rw e k
  | inr e ↦ rw e ((λ z. cc (e, (str_eq_iff s "").1 z), h), k)
]

first_field-Good : (s : String) → IsFree is_space (first_field s).0 × All Good (first_field s).1
unfolding first_field
first_field-Good String.[] = (tt, tt)
first_field-Good (String.◌∷◌ c s) =
    let (h, k) = first_field-Good s in
    elim (Bool-cases (is_space c)) [
      | inl e ↦ rw e (tt, keep-Good (first_field s).0 (first_field s).1 h k)
      | inr e ↦ rw e ((e, h), k)
    ]

-- The fields of a text are not empty and hold no white space, and put together they are the text
-- without its white space.
pub fields_lem :
    (s : String)
    → All (λ f. (f ≢ "") × IsFree is_space f) (fields s) × (glue (fields s) ≡ reject is_space s)
unfolding fields
fields_lem s =
    let (h, k) = first_field-Good s in
    (
      keep-Good (first_field s).0 (first_field s).1 h k,
      glue-keep (first_field s).0 (first_field s).1 ∙ first_field-glue s,
    )

module _ (f : Floats) (lower : String → String) (stopwords : List String)
    (weights : Dict Float64) where
  -- A token without the white space, the commas and the curly quotes around it, in lower case.
  abbrev pub cleaned : String → String
  cleaned token = lower (without_quotes (trim_commas (trim_space token)))

  -- Every special character of the text is quoted, and without the quoting it is the cleaned token.
  abbrev pub IsEscaped : String → String → Type 0
  IsEscaped token t = IsQuoted escaped_chars false t × (unescape t ≡ cleaned token)

  -- The terms are the escaped forms of the tokens, one for each and in order, with their weights; the
  -- tokens whose escaped form is empty or a stop word are left out, and no others.
  pub data IsSelection : List String → List String → Type 0 where
    done : IsSelection [] []
    left_out :
        {tokens selected : List String} (token t : String)
        → IsEscaped token t
        → (t ≡ "") ⊎ (has stopwords t ≡ true)
        → IsSelection tokens selected
        → IsSelection (token ∷ tokens) selected
    taken :
        {tokens selected : List String} (token t : String)
        → IsEscaped token t
        → t ≢ ""
        → has stopwords t ≡ false
        → IsSelection tokens selected
        → IsSelection (token ∷ tokens) (weighted f lower weights t ∷ selected)
