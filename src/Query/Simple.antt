-- ===== src/Query/Simple.antt =====
-- query/simple.go: the queries by a filter alone, and those that count.
pub mod Laws
use redis_vl_golang.Base.{String, Bool, true, false, Option, List, [], ◌∷◌, none, some}
use redis_vl_golang.Base.Int.{ℤ, pos}
use redis_vl_golang.Base.Dict.{Dict}
use redis_vl_golang.Command.{Arg}
use redis_vl_golang.Filter.Expression.{Expression, FilterError, err_of}
use redis_vl_golang.Query.Options.{SortBy, Options, Query, no_options, filter_string}

-- A filter query and a count query have the same fields. A nil map of parameters has no entry.
pub record SimpleQuery : Type 0 where
  pub options : Options
  pub filter : Expression
  pub params : Dict Arg

unfoldable pub new_filter_query : Expression → SimpleQuery
new_filter_query f = record {
  options = record no_options { num = pos 10; dialect = pos 2 };
  filter = f;
  params = [];
}

unfoldable pub new_count_query : Expression → SimpleQuery
new_count_query f = record {
  options = record no_options { no_content = true; dialect = pos 2 };
  filter = f;
  params = [];
}

-- The methods that set fields of a filter query, with their arguments.
pub data FilterSetter : Type 0 where
  return_fields : List String → FilterSetter
  num_results : ℤ → FilterSetter
  paging : ℤ → ℤ → FilterSetter
  sort_by_field : String → Bool → FilterSetter
  dialect : ℤ → FilterSetter
  in_order : FilterSetter
  with_params : Dict Arg → FilterSetter
  set_filter : Expression → FilterSetter

unfoldable pub set_simple : FilterSetter → SimpleQuery → SimpleQuery
set_simple (return_fields fs) q = record q { options = record q.options { return_fields = fs } }
set_simple (num_results n) q = record q { options = record q.options { num = n } }
set_simple (paging offset num) q = record q {
  options = record q.options { offset = offset; num = num };
}
set_simple (sort_by_field f asc) q = record q {
  options = record q.options { sort_by = some record { field = f; asc = asc } };
}
set_simple (dialect d) q = record q { options = record q.options { dialect = d } }
set_simple in_order q = record q { options = record q.options { in_order = true } }
set_simple (with_params ps) q = record q { params = ps }
set_simple (set_filter f) q = record q { filter = f }

unfoldable pub set_simple_all : List FilterSetter → SimpleQuery → SimpleQuery
unfolding set_simple
set_simple_all [] q = q
set_simple_all (s ∷ ss) q = set_simple_all ss (set_simple s q)

-- The methods of a count query that set fields.
pub data CountSetter : Type 0 where
  count_dialect : ℤ → CountSetter
  count_params : Dict Arg → CountSetter

unfoldable pub set_count : CountSetter → SimpleQuery → SimpleQuery
set_count (count_dialect d) q = record q { options = record q.options { dialect = d } }
set_count (count_params ps) q = record q { params = ps }

unfoldable pub set_count_all : List CountSetter → SimpleQuery → SimpleQuery
unfolding set_count
set_count_all [] q = q
set_count_all (s ∷ ss) q = set_count_all ss (set_count s q)

-- `Err`
unfoldable pub simple_err : SimpleQuery → Option FilterError
simple_err q = err_of q.filter

unfoldable pub to_simple_query : SimpleQuery → Query
to_simple_query q = record {
  query_string = filter_string q.filter;
  params = q.params;
  options = q.options;
}
