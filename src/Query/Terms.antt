-- ===== src/Query/Terms.antt =====
-- query/text.go: the full-text query and its terms.
--
-- `strings.ToLower` maps every code point that has a lower case; it is the parameter `lower`. A map
-- used as a set is the list of its keys.
pub mod Laws
use Prim.Native.Char.{Char, code}
use Prim.Native.String
use redis_vl_golang.Base.{
  ℕ, ◌+◌, ◌<◌, String, ◌<>◌, str_eq, Bool, true, false, not, ◌&&◌, ◌||◌, Option, none, some, List,
  [], ◌∷◌, ◌++◌, has, has_prefix, join, sort_strings, ltb, leb, ◌==◌, length, map, if◌then◌else◌,
}
use redis_vl_golang.Base.Int.{ℤ, pos}
use redis_vl_golang.Base.Float.{Float64, one_f, eq}
use redis_vl_golang.Base.Dict.{Dict, lookup, insert, keys}
use redis_vl_golang.Command.{Arg}
use redis_vl_golang.Filter.Escape.{escape_token}
use redis_vl_golang.Filter.Expression.{Expression, FilterError, nil, err_of}
use redis_vl_golang.Query.Options.{SortBy, Options, Query, Floats, no_options, filter_string}

-- `unicode.IsSpace`
pub is_space : Char → Bool
is_space c =
    let n = code c in
    (leb 9 n && leb n 13)
    || n == 32
    || n == 0x85
    || n == 0xa0
    || n == 0x1680
    || (leb 0x2000 n && leb n 0x200a)
    || n == 0x2028
    || n == 0x2029
    || n == 0x202f
    || n == 0x205f
    || n == 0x3000

-- A field is put before the others if it is not empty.
abbrev keep : String → List String → List String
keep s fields = if str_eq s "" then fields else s ∷ fields

-- The field that the text begins with, and the fields after it.
first_field : String → String × List String
unfolding is_space
first_field String.[] = ("", [])
first_field (String.◌∷◌ c s) =
    let rest = first_field s in
    if is_space c then ("", keep rest.0 rest.1) else (String.◌∷◌ c rest.0, rest.1)

-- `strings.Fields`
unfoldable pub fields : String → List String
unfolding first_field
fields s = keep (first_field s).0 (first_field s).1

-- The characters that the test does not drop.
pub reject : (Char → Bool) → String → String
reject p String.[] = ""
reject p (String.◌∷◌ c s) = let rest = reject p s in if p c then rest else String.◌∷◌ c rest

trim_left : (Char → Bool) → String → String
trim_left p String.[] = ""
trim_left p (String.◌∷◌ c s) = let rest = trim_left p s in if p c then rest else String.◌∷◌ c s

trim_right : (Char → Bool) → String → String
trim_right p String.[] = ""
trim_right p (String.◌∷◌ c s) =
    let rest = trim_right p s in if str_eq rest "" && p c then "" else String.◌∷◌ c rest

-- `strings.TrimSpace`
pub trim_space : String → String
unfolding is_space trim_left trim_right
trim_space s = trim_right is_space (trim_left is_space s)

-- `strings.Trim(s, ",")`
unfoldable pub trim_commas : String → String
unfolding trim_left trim_right
trim_commas s = trim_right (λ c. code c == 44) (trim_left (λ c. code c == 44) s)

-- Without the left and the right curly quote.
unfoldable pub without_quotes : String → String
unfolding reject
without_quotes = reject (λ c. code c == 0x201c || code c == 0x201d)

module _ (f : Floats) (lower : String → String) where
  unfoldable pub term_of : String → String
  unfolding without_quotes trim_commas trim_space
  term_of token = escape_token (lower (without_quotes (trim_commas (trim_space token)))) false

  unfoldable pub weighted : Dict Float64 → String → String
  weighted text_weights t = elim (lookup t text_weights) [
    | none ↦ t
    | some w ↦ t <> ("=>{$weight:" <> (f.format_float w <> "}"))
  ]

  -- The loop over the fields of the text.
  unfoldable pub terms : List String → Dict Float64 → List String → List String
  unfolding term_of weighted
  terms stopwords text_weights [] = []
  terms stopwords text_weights (token ∷ tokens) =
      let t = term_of token in
      let rest = terms stopwords text_weights tokens in
      if str_eq t "" || has stopwords t then rest else weighted text_weights t ∷ rest

  unfoldable pub tokenize_and_escape : String → List String → Dict Float64 → String
  unfolding terms fields
  tokenize_and_escape user_query stopwords text_weights =
      join " | " (terms stopwords text_weights (fields user_query))

  unfoldable pub full_text_query_string :
      String → String → Expression → List String → Dict Float64 → String
  unfolding tokenize_and_escape
  full_text_query_string text text_field_name fe stopwords text_weights =
      let q =
        "(~@"
        <> (text_field_name
            <> (":(" <> (tokenize_and_escape text stopwords text_weights <> ")"))) in
      let fs = filter_string fe in
      if not (str_eq fs "") && not (str_eq fs "*") then q <> (" AND " <> (fs <> ")")) else q <> ")"

pub record TextQuery : Type 0 where
  pub options : Options
  pub text : String
  pub field_weights : Dict Float64
  pub text_weights : Dict Float64
  pub stopwords : List String
  pub filter : Expression
  pub params : Dict Arg

unfoldable pub english_stopwords : List String
english_stopwords =
    "i" ∷ "me" ∷ "my" ∷ "myself" ∷ "we" ∷ "our" ∷ "ours" ∷ "ourselves" ∷ "you" ∷ "your" ∷ "yours"
    ∷ "yourself" ∷ "yourselves" ∷ "he" ∷ "him" ∷ "his" ∷ "himself" ∷ "she" ∷ "her" ∷ "hers"
    ∷ "herself" ∷ "it" ∷ "its" ∷ "itself" ∷ "they" ∷ "them" ∷ "their" ∷ "theirs" ∷ "themselves"
    ∷ "what" ∷ "which" ∷ "who" ∷ "whom" ∷ "this" ∷ "that" ∷ "these" ∷ "those" ∷ "am" ∷ "is" ∷ "are"
    ∷ "was" ∷ "were" ∷ "be" ∷ "been" ∷ "being" ∷ "have" ∷ "has" ∷ "had" ∷ "having" ∷ "do" ∷ "does"
    ∷ "did" ∷ "doing" ∷ "a" ∷ "an" ∷ "the" ∷ "and" ∷ "but" ∷ "if" ∷ "or" ∷ "because" ∷ "as"
    ∷ "until" ∷ "while" ∷ "of" ∷ "at" ∷ "by" ∷ "for" ∷ "with" ∷ "about" ∷ "against" ∷ "between"
    ∷ "into" ∷ "through" ∷ "during" ∷ "before" ∷ "after" ∷ "above" ∷ "below" ∷ "to" ∷ "from" ∷ "up"
    ∷ "down" ∷ "in" ∷ "out" ∷ "on" ∷ "off" ∷ "over" ∷ "under" ∷ "again" ∷ "further" ∷ "then"
    ∷ "once" ∷ "here" ∷ "there" ∷ "when" ∷ "where" ∷ "why" ∷ "how" ∷ "all" ∷ "any" ∷ "both" ∷ "each"
    ∷ "few" ∷ "more" ∷ "most" ∷ "other" ∷ "some" ∷ "such" ∷ "no" ∷ "nor" ∷ "not" ∷ "only" ∷ "own"
    ∷ "same" ∷ "so" ∷ "than" ∷ "too" ∷ "very" ∷ "s" ∷ "t" ∷ "can" ∷ "will" ∷ "just" ∷ "don"
    ∷ "should" ∷ "now" ∷ "d" ∷ "ll" ∷ "m" ∷ "o" ∷ "re" ∷ "ve" ∷ "y" ∷ "ain" ∷ "aren" ∷ "couldn"
    ∷ "didn" ∷ "doesn" ∷ "hadn" ∷ "hasn" ∷ "haven" ∷ "isn" ∷ "ma" ∷ "mightn" ∷ "mustn" ∷ "needn"
    ∷ "shan" ∷ "shouldn" ∷ "wasn" ∷ "weren" ∷ "won" ∷ "wouldn" ∷ []

unfoldable pub new_text_query : String → String → TextQuery
new_text_query text text_field_name = record {
  options = record no_options {
    num = pos 10;
    dialect = pos 2;
    scorer = "BM25STD";
    with_scores = true;
  };
  text = text;
  field_weights = (text_field_name, one_f) ∷ [];
  text_weights = [];
  stopwords = english_stopwords;
  filter = nil;
  params = [];
}

-- The methods that set fields, with their arguments. `TextWeights` keeps each word in lower case,
-- without the white space around it.
pub data TextSetter : Type 0 where
  field_weights : Dict Float64 → TextSetter
  text_weights : Dict Float64 → TextSetter
  scorer : String → TextSetter
  stopwords : List String → TextSetter
  filter : Expression → TextSetter
  return_fields : List String → TextSetter
  num_results : ℤ → TextSetter
  sort_by_field : String → Bool → TextSetter
  dialect : ℤ → TextSetter
  in_order no_return_score : TextSetter
  with_params : Dict Arg → TextSetter

module _ (f : Floats) (lower : String → String) where
  lowered_weights : Dict Float64 → Dict Float64 → Dict Float64
  unfolding trim_space
  lowered_weights [] out = out
  lowered_weights ((word, w) ∷ weights) out =
      lowered_weights weights (insert (lower (trim_space word)) w out)

  unfoldable pub set_text : TextSetter → TextQuery → TextQuery
  unfolding lowered_weights
  set_text (field_weights ws) q = record q { field_weights = ws }
  set_text (text_weights ws) q = record q { text_weights = lowered_weights ws [] }
  set_text (scorer s) q = record q { options = record q.options { scorer = s } }
  set_text (stopwords words) q = record q { stopwords = words }
  set_text (filter e) q = record q { filter = e }
  set_text (return_fields fs) q = record q { options = record q.options { return_fields = fs } }
  set_text (num_results n) q = record q { options = record q.options { num = n } }
  set_text (sort_by_field name asc) q = record q {
    options = record q.options { sort_by = some record { field = name; asc = asc } };
  }
  set_text (dialect d) q = record q { options = record q.options { dialect = d } }
  set_text in_order q = record q { options = record q.options { in_order = true } }
  set_text no_return_score q = record q { options = record q.options { with_scores = false } }
  set_text (with_params ps) q = record q { params = ps }

  -- `q.fieldWeights[f]`; the loop asks only for keys that the map has.
  field_weight : Dict Float64 → String → Float64
  field_weight weights name = elim (lookup name weights) [ some w ↦ w | none ↦ 0 ]

  unfoldable pub field_query : String → Dict Float64 → String → String
  unfolding field_weight
  field_query escaped weights name =
      let w = field_weight weights name in
      if eq w one_f
      then "@" <> (name <> (":(" <> (escaped <> ")")))
      else "@"
        <> (name <> (":(" <> (escaped <> (") => { $weight: " <> (f.format_float w <> " }")))))

  unfoldable pub text_clause : List String → String
  text_clause (x ∷ []) = x
  text_clause xs = "(" <> (join " | " xs <> ")")

  unfoldable pub text_query_string : TextQuery → String
  unfolding field_query text_clause tokenize_and_escape
  text_query_string q =
      let escaped = tokenize_and_escape f lower q.text q.stopwords q.text_weights in
      let text =
        text_clause
          (map (field_query escaped q.field_weights) (sort_strings (keys q.field_weights))) in
      let fe = filter_string q.filter in
      if not (str_eq fe "") && not (str_eq fe "*") then text <> (" AND " <> fe) else text

  unfoldable pub to_text_query : TextQuery → Query
  unfolding text_query_string
  to_text_query q = record {
    query_string = text_query_string q;
    params = q.params;
    options = q.options;
  }

-- `Err`
unfoldable pub text_err : TextQuery → Option FilterError
text_err q = err_of q.filter
