-- ===== src/Filter/Expression/Errors.antt =====
-- The deferred error of a combined expression (`Expression.Err`).
use redis_vl_golang.Base.{◌≡◌, refl, Option, none, some, List, [], ◌∷◌, arith, ◌∙◌, String}
use redis_vl_golang.Filter.Expression.{
  Expression, combined, FilterError, err_of, and_all, or_all, and_op, or_op,
}

-- The first error in a list of expressions, from the left.
abbrev pub first_error : Expression → List Expression → Option FilterError
first_error e [] = err_of e
first_error e (o ∷ others) = elim (err_of e) [ some x ↦ some x | none ↦ first_error o others ]

err_of-and_all_step :
    (op : String) (e o : Expression) (others : List Expression)
    → first_error (combined op e o) others ≡ first_error e (o ∷ others)
unfolding err_of
err_of-and_all_step op e o [] = ground arith
err_of-and_all_step op e o (p ∷ others) = ground arith

-- The error of a chain of `And`s is the first error among its parts.
err_of-and_all :
    (e : Expression) (others : List Expression) → err_of (and_all e others) ≡ first_error e others
unfolding and_all
err_of-and_all e [] = refl
err_of-and_all e (o ∷ others) =
    err_of-and_all (combined and_op e o) others ∙ err_of-and_all_step and_op e o others

err_of-or_all :
    (e : Expression) (others : List Expression) → err_of (or_all e others) ≡ first_error e others
unfolding or_all
err_of-or_all e [] = refl
err_of-or_all e (o ∷ others) =
    err_of-or_all (combined or_op e o) others ∙ err_of-and_all_step or_op e o others
