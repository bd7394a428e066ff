-- ===== src/Query/Options.antt =====
-- query/query.go: `Options`, the interface `Query`, `BuildSearchArgs`, and the conversions between
-- distances and scores.
--
-- A `Query` is what its three methods return. The arithmetic of float64 and `strconv.FormatFloat`
-- are the parameter `Floats`.
pub mod Grammar
use redis_vl_golang.Base.{
  ℕ, ◌*◌, String, str_eq, Bool, true, false, not, ◌&&◌, Option, none, some, List, [], ◌∷◌, ◌++◌,
  map, length, ltb, if◌then◌else◌, sort_strings,
}
use redis_vl_golang.Base.Int.{ℤ, pos, eq_ℤ}
use redis_vl_golang.Base.Float.{Float64, one_f, two_f}
use redis_vl_golang.Base.Dict.{Dict, lookup, keys}
use redis_vl_golang.Command.{Arg, str, int, strs}
use redis_vl_golang.Filter.Expression.{Expression, nil, render}

pub record SortBy : Type 0 where
  pub field : String
  pub asc : Bool

pub record Options : Type 0 where
  pub return_fields : List String
  pub no_content : Bool
  pub sort_by : Option SortBy
  pub offset : ℤ
  pub num : ℤ
  pub dialect : ℤ
  pub in_order : Bool
  pub scorer : String
  pub with_scores : Bool

pub record Query : Type 0 where
  pub query_string : String
  pub params : Dict Arg
  pub options : Options

abbrev pub no_options : Options
no_options = record {
  return_fields = [];
  no_content = false;
  sort_by = none;
  offset = pos 0;
  num = pos 0;
  dialect = pos 0;
  in_order = false;
  scorer = "";
  with_scores = false;
}

unfoldable pub is_count : Options → Bool
is_count o = o.no_content && eq_ℤ o.num (pos 0) && eq_ℤ o.offset (pos 0)

abbrev pub switch : Bool → String → List Arg
switch test key = if test then str key ∷ [] else []

unfoldable pub scorer_args : String → List Arg
scorer_args scorer = if not (str_eq scorer "") then str "SCORER" ∷ str scorer ∷ [] else []

unfoldable pub return_args : List String → List Arg
return_args fields =
    if ltb 0 (length fields) then str "RETURN" ∷ int (pos (length fields)) ∷ strs fields else []

unfoldable pub sort_args : Option SortBy → List Arg
sort_args none = []
sort_args (some s) = str "SORTBY" ∷ str s.field ∷ str (if not s.asc then "DESC" else "ASC") ∷ []

-- `params[k]`, whose zero is the nil interface; go-redis writes that as the empty text. The loop
-- asks only for keys that the map has.
unfoldable pub param : Dict Arg → String → Arg
param params k = elim (lookup k params) [ some v ↦ v | none ↦ str "" ]

pub pairs : Dict Arg → List String → List Arg
pairs params [] = []
pairs params (k ∷ ks) = str k ∷ param params k ∷ pairs params ks

unfoldable pub param_args : Dict Arg → List Arg
unfolding pairs
param_args params =
    if ltb 0 (length params)
    then str "PARAMS" ∷ int (pos (length params * 2)) ∷ pairs params (sort_strings (keys params))
    else []

unfoldable pub limit_of : Options → ℤ
limit_of o = if eq_ℤ o.num (pos 0) && not (is_count o) then pos 10 else o.num

unfoldable pub dialect_of : Options → ℤ
dialect_of o = if eq_ℤ o.dialect (pos 0) then pos 2 else o.dialect

unfoldable pub build_search_args : String → Query → List Arg
build_search_args index_name q =
    let o = q.options in
    (str "FT.SEARCH" ∷ str index_name ∷ str q.query_string ∷ [])
    ++ (switch o.no_content "NOCONTENT"
        ++ (scorer_args o.scorer
            ++ (switch o.with_scores "WITHSCORES"
                ++ (switch o.in_order "INORDER"
                    ++ (return_args o.return_fields
                        ++ (sort_args o.sort_by
                            ++ ((str "LIMIT" ∷ int o.offset ∷ int (limit_of o) ∷ [])
                                ++ (param_args q.params
                                    ++ (str "DIALECT" ∷ int (dialect_of o) ∷ [])))))))))

-- `nil` stands for the nil pointer, which `String` renders as "*" as well.
unfoldable pub filter_string : Expression → String
filter_string f = render f

abbrev pub distance_id : String
distance_id = "vector_distance"

pub record Floats : Type 0 where
  pub add : Float64 → Float64 → Float64
  pub sub : Float64 → Float64 → Float64
  pub mul : Float64 → Float64 → Float64
  pub div : Float64 → Float64 → Float64
  pub format_float : Float64 → String

module _ (f : Floats) where
  unfoldable pub norm_cosine_distance : Float64 → Float64
  norm_cosine_distance d = f.div (f.sub two_f d) two_f

  unfoldable pub denorm_cosine_distance : Float64 → Float64
  denorm_cosine_distance s = f.sub two_f (f.mul two_f s)

  unfoldable pub norm_l2_distance : Float64 → Float64
  norm_l2_distance d = f.div one_f (f.add one_f d)
