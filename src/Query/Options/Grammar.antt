-- ===== src/Query/Options/Grammar.antt =====
-- A reader of the command FT.SEARCH, by the grammar of its options.
pub mod Laws
use redis_vl_golang.Base.{
  ℕ, zero, suc, ◌+◌, ◌*◌, ◌<◌, ◌≡◌, refl, ap, ◌∙◌, arith, String, str_eq, str_eq_iff, Bool, true,
  false, not, Option, none, some, List, [], ◌∷◌, ◌++◌, map, length, length-append, take, drop,
  get_elem?, ltb, ◌==◌, if◌then◌else◌, sort_strings,
}
use redis_vl_golang.Base.Int.{ℤ, pos}
use redis_vl_golang.Base.Dict.{Dict, lookup, keys}
use redis_vl_golang.Command.{Arg, str, int, strs}
use redis_vl_golang.Query.Options.{
  SortBy, Options, Query, switch, scorer_args, return_args, sort_args, param, pairs, param_args,
  limit_of, dialect_of, build_search_args,
}

-- The place of a keyword in the order in which the options stand; 0 for other texts.
rank : String → ℕ
rank s =
    if str_eq s "NOCONTENT"
    then 1
    else if str_eq s "SCORER"
    then 2
    else if str_eq s "WITHSCORES"
    then 3
    else if str_eq s "INORDER"
    then 4
    else if str_eq s "RETURN"
    then 5
    else if str_eq s "SORTBY"
    then 6
    else if str_eq s "LIMIT"
    then 7
    else if str_eq s "PARAMS"
    then 8
    else if str_eq s "DIALECT"
    then 9
    else 0

head_rank : List Arg → ℕ
unfolding rank
head_rank (str s ∷ args) = rank s
head_rank args = 0

pub text_of : Arg → String
text_of (str s) = s
text_of a = ""

pub int_of : Arg → ℤ
int_of (int n) = n
int_of a = pos 0

count_of : Arg → ℕ
count_of (int (pos n)) = n
count_of a = 0

pub nth_arg : ℕ → List Arg → Arg
nth_arg i args = elim (get_elem? args i) [ some a ↦ a | none ↦ str "" ]

pub read_switch : ℕ → List Arg → Bool × List Arg
unfolding head_rank
read_switch i args = if head_rank args == i then (true, drop 1 args) else (false, args)

pub read_scorer : List Arg → String × List Arg
unfolding head_rank text_of nth_arg
read_scorer args =
    if head_rank args == 2 then (text_of (nth_arg 1 args), drop 2 args) else ("", args)

pub read_return : List Arg → List String × List Arg
unfolding head_rank text_of nth_arg count_of
read_return args =
    let n = count_of (nth_arg 1 args) in
    if head_rank args == 5
    then (map text_of (take n (drop 2 args)), drop n (drop 2 args))
    else ([], args)

pub read_sort : List Arg → Option SortBy × List Arg
unfolding head_rank text_of nth_arg
read_sort args =
    if head_rank args == 6
    then (
      some record {
        field = text_of (nth_arg 1 args);
        asc = str_eq (text_of (nth_arg 2 args)) "ASC";
      },
      drop 3 args,
    )
    else (none, args)

read_pairs : List Arg → Dict Arg
unfolding text_of
read_pairs (k ∷ v ∷ args) = (text_of k, v) ∷ read_pairs args
read_pairs args = []

pub read_params : List Arg → Dict Arg × List Arg
unfolding head_rank count_of nth_arg read_pairs
read_params args =
    let n = count_of (nth_arg 1 args) in
    if head_rank args == 8
    then (read_pairs (take n (drop 2 args)), drop n (drop 2 args))
    else ([], args)

-- The index, the query, the options and the parameters of a command.
pub record Command : Type 0 where
  pub index_name : String
  pub query_string : String
  pub options : Options
  pub params : Dict Arg

unfoldable pub read_command : List Arg → Command
read_command args =
    let no_content = read_switch 1 (drop 3 args) in
    let scorer = read_scorer no_content.1 in
    let with_scores = read_switch 3 scorer.1 in
    let in_order = read_switch 4 with_scores.1 in
    let returned = read_return in_order.1 in
    let sort = read_sort returned.1 in
    let params = read_params (drop 3 sort.1) in
    record {
      index_name = text_of (nth_arg 1 args);
      query_string = text_of (nth_arg 2 args);
      options = record {
        return_fields = returned.0;
        no_content = no_content.0;
        sort_by = sort.0;
        offset = int_of (nth_arg 1 sort.1);
        num = int_of (nth_arg 2 sort.1);
        dialect = int_of (nth_arg 1 params.1);
        in_order = in_order.0;
        scorer = scorer.0;
        with_scores = with_scores.0;
      };
      params = params.0;
    }
