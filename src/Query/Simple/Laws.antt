-- ===== src/Query/Simple/Laws.antt =====
-- The limits of the commands for filter and count queries.
use redis_vl_golang.Base.{◌≡◌, refl, arith, true, false, List, [], ◌∷◌, if◌then◌else◌}
use redis_vl_golang.Base.Int.{pos, eq_ℤ}
use redis_vl_golang.Filter.Expression.{Expression}
use redis_vl_golang.Query.Options.{Options, limit_of, is_count}
use redis_vl_golang.Query.Simple.{
  SimpleQuery, CountSetter, count_dialect, count_params, set_count, set_count_all, new_count_query,
  FilterSetter, set_simple, return_fields, num_results, paging, sort_by_field, dialect, in_order,
  with_params, set_filter, set_simple_all, new_filter_query,
}

count_stays :
    (ss : List CountSetter) (q : SimpleQuery)
    → is_count q.options ≡ true
    → is_count (set_count_all ss q).options ≡ true
unfolding set_count_all set_count is_count
count_stays [] q h = h
count_stays (count_dialect d ∷ ss) q h = count_stays ss (set_count (count_dialect d) q) h
count_stays (count_params p ∷ ss) q h = count_stays ss (set_count (count_params p) q) h

count_limit : (o : Options) → is_count o ≡ true → limit_of o ≡ pos 0
unfolding limit_of is_count
count_limit o h = ground arith

new_count : (f : Expression) → is_count (new_count_query f).options ≡ true
unfolding new_count_query is_count
new_count f = refl

-- A count query asks for no document, whatever its methods have set.
limit_of-set_count_all :
    (f : Expression) (ss : List CountSetter)
    → limit_of (set_count_all ss (new_count_query f)).options ≡ pos 0
limit_of-set_count_all f ss =
    count_limit (set_count_all ss (new_count_query f)).options
      (count_stays ss (new_count_query f) (new_count f))

content_stays :
    (ss : List FilterSetter) (q : SimpleQuery)
    → q.options.no_content ≡ false
    → (set_simple_all ss q).options.no_content ≡ false
unfolding set_simple_all set_simple
content_stays [] q h = h
content_stays (return_fields fs ∷ ss) q h = content_stays ss (set_simple (return_fields fs) q) h
content_stays (num_results n ∷ ss) q h = content_stays ss (set_simple (num_results n) q) h
content_stays (paging o n ∷ ss) q h = content_stays ss (set_simple (paging o n) q) h
content_stays (sort_by_field f asc ∷ ss) q h =
    content_stays ss (set_simple (sort_by_field f asc) q) h
content_stays (dialect d ∷ ss) q h = content_stays ss (set_simple (dialect d) q) h
content_stays (in_order ∷ ss) q h = content_stays ss (set_simple in_order q) h
content_stays (with_params ps ∷ ss) q h = content_stays ss (set_simple (with_params ps) q) h
content_stays (set_filter f ∷ ss) q h = content_stays ss (set_simple (set_filter f) q) h

with_content :
    (o : Options)
    → o.no_content ≡ false
    → limit_of o ≡ (if eq_ℤ o.num (pos 0) then pos 10 else o.num)
unfolding limit_of is_count
with_content o h = ground arith

new_content : (f : Expression) → (new_filter_query f).options.no_content ≡ false
unfolding new_filter_query
new_content f = refl

-- A filter query never counts: with a number of results of 0 it asks for 10 documents, and else for
-- that number.
limit_of-set_simple_all :
    (f : Expression) (ss : List FilterSetter)
    → limit_of (set_simple_all ss (new_filter_query f)).options ≡ (
        let num = (set_simple_all ss (new_filter_query f)).options.num in
        if eq_ℤ num (pos 0) then pos 10 else num)
limit_of-set_simple_all f ss =
    with_content (set_simple_all ss (new_filter_query f)).options
      (content_stays ss (new_filter_query f) (new_content f))
