-- ===== src/Query/Options/Grammar/Laws.antt =====
-- What the reader takes back from the command of `BuildSearchArgs`.
use redis_vl_golang.Base.{
  ℕ, zero, suc, ◌*◌, ◌<◌, ◌≤◌, ◌≡◌, refl, ap, ◌∙◌, arith, String, str_eq, str_eq_iff, Bool, true,
  false, Bool-cases, inl, inr, sym, Option, none, some, List, [], ◌∷◌, ◌++◌, map, length, take,
  drop, ltb, ◌==◌, sort_strings, length-sort_strings,
}
use redis_vl_golang.Base.Dict.{Dict, keys}
use redis_vl_golang.Command.{Arg, str, int, strs}
use redis_vl_golang.Query.Options.{
  SortBy, Query, switch, scorer_args, return_args, sort_args, param, pairs, param_args, limit_of,
  dialect_of, build_search_args,
}
use redis_vl_golang.Query.Options.Grammar.{
  rank, head_rank, text_of, int_of, count_of, nth_arg, read_switch, read_scorer, read_return,
  read_sort, read_pairs, read_params, read_command,
}

take-strs :
    (fs : List String) (rest : List Arg) → map text_of (take (length fs) (strs fs ++ rest)) ≡ fs
unfolding strs text_of
take-strs [] rest = refl
take-strs (f ∷ fs) rest = ap (λ t. f ∷ t) (take-strs fs rest)

drop-strs : (fs : List String) (rest : List Arg) → drop (length fs) (strs fs ++ rest) ≡ rest
unfolding strs
drop-strs [] rest = refl
drop-strs (f ∷ fs) rest = drop-strs fs rest

length-map {ℓ κ} :
    {A : Type ℓ} {B : Type κ} (f : A → B) (xs : List A) → length (map f xs) ≡ length xs
length-map f [] = refl
length-map f (x ∷ xs) = ap suc (length-map f xs)

double : ℕ → ℕ
double zero = 0
double (suc n) = suc (suc (double n))

double_lem : (n : ℕ) → n * 2 ≡ double n
unfolding double
double_lem zero = refl
double_lem (suc n) = omega (arith, double_lem n)

read_pairs-pairs :
    (params : Dict Arg) (ks : List String) (rest : List Arg)
    → (read_pairs (take (double (length ks)) (pairs params ks ++ rest))
        ≡ map (λ k. (k, param params k)) ks)
      × (drop (double (length ks)) (pairs params ks ++ rest) ≡ rest)
unfolding pairs read_pairs double text_of
read_pairs-pairs params [] rest = (refl, refl)
read_pairs-pairs params (k ∷ ks) rest =
    let (p, q) = read_pairs-pairs params ks rest in (ap (λ t. (k, param params k) ∷ t) p, q)

sorted_count :
    (params : Dict Arg) → length params * 2 ≡ double (length (sort_strings (keys params)))
unfolding keys
sorted_count params =
    ap (λ n. n * 2)
      (sym (length-sort_strings (keys params) ∙ length-map (λ (p : String × Arg). p.0) params))
    ∙ double_lem (length (sort_strings (keys params)))

-- Each reader takes back what its part of the command says, where a later keyword follows; and the
-- part with what follows begins with its own keyword or a later one.
module _ (rest : List Arg) where
  absent : (i : ℕ) → i < head_rank rest → (head_rank rest == i) ≡ false
  absent i h = ground arith

  switch_lem :
      (i : ℕ) (b : Bool) (key : String)
      → rank key ≡ i
      → i < head_rank rest
      → (read_switch i (switch b key ++ rest) ≡ (b, rest)) × (i ≤ head_rank (switch b key ++ rest))
  unfolding read_switch head_rank
  switch_lem i true key e h =
      let t : (rank key == i) ≡ true = ground arith in (rw t refl, omega (arith, e))
  switch_lem i false key e h = (rw (absent i h) refl, omega (arith, h))

  scorer_lem :
      (s : String)
      → 2 < head_rank rest
      → (read_scorer (scorer_args s ++ rest) ≡ (s, rest)) × (2 ≤ head_rank (scorer_args s ++ rest))
  unfolding read_scorer scorer_args head_rank text_of nth_arg rank
  scorer_lem s h = elim (Bool-cases (str_eq s "")) [
    | inl e ↦
        rw (e, absent 2 h) (ap (λ t. (t, rest)) (sym ((str_eq_iff s "").0 e)), omega (arith, h))
    | inr e ↦ rw e (refl, omega arith)
  ]

  return_lem :
      (fs : List String)
      → 5 < head_rank rest
      → (read_return (return_args fs ++ rest) ≡ (fs, rest))
        × (5 ≤ head_rank (return_args fs ++ rest))
  unfolding read_return return_args head_rank count_of nth_arg rank
  return_lem [] h = rw (absent 5 h) (refl, omega (arith, h))
  return_lem (f ∷ fs) h =
      let some_field : ltb 0 (length (f ∷ fs)) ≡ true = ground arith in
      rw (some_field, take-strs (f ∷ fs) rest, drop-strs (f ∷ fs) rest) (refl, omega arith)

  sort_lem :
      (s : Option SortBy)
      → 6 < head_rank rest
      → (read_sort (sort_args s ++ rest) ≡ (s, rest)) × (6 ≤ head_rank (sort_args s ++ rest))
  unfolding read_sort sort_args head_rank text_of nth_arg rank
  sort_lem none h = rw (absent 6 h) (refl, omega (arith, h))
  sort_lem (some s) h = elim (Bool-cases s.asc) [
    | inl e ↦ rw e (refl, omega arith)
    | inr e ↦ rw e (refl, omega arith)
  ]

  params_lem :
      (params : Dict Arg)
      → 8 < head_rank rest
      → (read_params (param_args params ++ rest)
          ≡ (map (λ k. (k, param params k)) (sort_strings (keys params)), rest))
        × (8 ≤ head_rank (param_args params ++ rest))
  unfolding read_params param_args head_rank count_of nth_arg rank keys sort_strings
  params_lem [] h = rw (absent 8 h) (refl, omega (arith, h))
  params_lem (p ∷ ps) h =
      let some_param : ltb 0 (length (p ∷ ps)) ≡ true = ground arith in
      let (read, rest_lem) = read_pairs-pairs (p ∷ ps) (sort_strings (keys (p ∷ ps))) rest in
      rw (some_param, sorted_count (p ∷ ps), read, rest_lem) (refl, omega arith)

dialect_rank : (a : Arg) → head_rank (str "DIALECT" ∷ a ∷ []) ≡ 9
unfolding head_rank rank
dialect_rank a = refl

limit_rank : (args : List Arg) → head_rank (str "LIMIT" ∷ args) ≡ 7
unfolding head_rank rank
limit_rank args = refl

-- The reader takes back from the command of `BuildSearchArgs` the index name, the query string and
-- all options: the number of results and the dialect with their defaults, and for each key of the
-- parameters, in sorted order, its value.
pub read_command-build_search_args :
    (name : String) (q : Query)
    → read_command (build_search_args name q) ≡ record {
      index_name = name;
      query_string = q.query_string;
      options = record q.options { num = limit_of q.options; dialect = dialect_of q.options };
      params = map (λ k. (k, param q.params k)) (sort_strings (keys q.params));
    }
unfolding read_command build_search_args rank text_of int_of nth_arg
read_command-build_search_args name q =
    let o = q.options in
    let tail8 = str "DIALECT" ∷ int (dialect_of o) ∷ [] in
    let (p, p_rank) =
      params_lem tail8 q.params (omega (arith, dialect_rank (int (dialect_of o)))) in
    let tail7 = str "LIMIT" ∷ int o.offset ∷ int (limit_of o) ∷ (param_args q.params ++ tail8) in
    let (s, s_rank) = sort_lem tail7 o.sort_by (
      omega
        (arith, limit_rank (int o.offset ∷ int (limit_of o) ∷ (param_args q.params ++ tail8)))) in
    let tail6 = sort_args o.sort_by ++ tail7 in
    let (r, r_rank) = return_lem tail6 o.return_fields (omega (arith, s_rank)) in
    let tail5 = return_args o.return_fields ++ tail6 in
    let (i, i_rank) = switch_lem tail5 4 o.in_order "INORDER" refl (omega (arith, r_rank)) in
    let tail4 = switch o.in_order "INORDER" ++ tail5 in
    let (w, w_rank) = switch_lem tail4 3 o.with_scores "WITHSCORES" refl (omega (arith, i_rank)) in
    let tail3 = switch o.with_scores "WITHSCORES" ++ tail4 in
    let (c, c_rank) = scorer_lem tail3 o.scorer (omega (arith, w_rank)) in
    let tail2 = scorer_args o.scorer ++ tail3 in
    let (n, _) = switch_lem tail2 1 o.no_content "NOCONTENT" refl (omega (arith, c_rank)) in
    rw (n, c, w, i, r, s, p) refl
