-- ===== src/Filter/Expression/Meaning.antt =====
-- What a rendered expression means to a reader of the query (`Expression.String`).
use Prim.Native.Char.{code}
use text.Mathlib.TextLemmas.{cons-append, cons-eq-cons}
use mathlib.Core.Path.{ap₂}
use redis_vl_golang.Base.{
  String, ◌<>◌, str_eq, str_eq_iff, Bool, true, false, ◌&&◌, ◌||◌, ◌≡◌, ◌≢◌, refl, ◌⊎◌, inl, inr,
  ◌∙◌, ap, sym, arith, if◌then◌else◌, Bool-cases, [], ◌∷◌,
}
use redis_vl_golang.Filter.Expression.{
  Expression, nil, leaf, combined, all, and_op, or_op, and_all, or_all, render, render_combined,
}

-- A query as its reader takes it: everything, one clause, or two queries under a connective.
pub data Formula : Type 0 where
  every : Formula
  clause : String → Formula
  connect : String → Formula → Formula → Formula

pub print : Formula → String
print every = "*"
print (clause s) = s
print (connect op f g) = "(" <> (print f <> (op <> (print g <> ")")))

-- A document is given by the clauses that it satisfies.
abbrev connective : String → Bool → Bool → Bool
connective op a b = if str_eq op and_op then a && b else a || b

abbrev pub satisfies : (String → Bool) → Formula → Bool
satisfies holds every = true
satisfies holds (clause s) = holds s
satisfies holds (connect op f g) = connective op (satisfies holds f) (satisfies holds g)

abbrev is_wild : String → Bool
is_wild s = str_eq s "" || str_eq s "*"

-- What the builder's caller means: And is intersection, Or is union, nil and * are everything.
abbrev pub meaning : (String → Bool) → Expression → Bool
meaning holds nil = true
meaning holds (leaf raw err) = is_wild raw || holds raw
meaning holds (combined op l r) = connective op (meaning holds l) (meaning holds r)

-- Built by `And` and `Or`, and with no union of which one side is everything.
abbrev pub IsBuilt : Expression → Type 0
IsBuilt nil = Unit
IsBuilt (leaf raw err) = Unit
IsBuilt (combined op l r) =
    ((op ≡ and_op) ⊎ ((op ≡ or_op) × (render l ≢ "*") × (render r ≢ "*"))) × IsBuilt l × IsBuilt r

abbrev connect_proper : String → Formula → Formula → Formula
connect_proper op every g = g
connect_proper op (clause s) every = clause s
connect_proper op (connect o f g) every = connect o f g
connect_proper op f g = connect op f g

pub reduce : Expression → Formula
reduce nil = every
reduce (leaf raw err) = if is_wild raw then every else clause raw
reduce (combined op l r) = connect_proper op (reduce l) (reduce r)

abbrev IsProper : Formula → Type 0
IsProper every = Unit
IsProper (clause s) = str_eq s "*" ≡ false
IsProper (connect op f g) = Unit

connect_proper-IsProper :
    (op : String) (f g : Formula) → IsProper f → IsProper g → IsProper (connect_proper op f g)
connect_proper-IsProper op every g p q = q
connect_proper-IsProper op (clause s) every p q = p
connect_proper-IsProper op (connect o f f') every p q = p
connect_proper-IsProper op (clause s) (clause t) p q = tt
connect_proper-IsProper op (clause s) (connect o g g') p q = tt
connect_proper-IsProper op (connect o f f') (clause t) p q = tt
connect_proper-IsProper op (connect o f f') (connect o' g g') p q = tt

reduce-IsProper : (e : Expression) → IsProper (reduce e)
unfolding reduce
reduce-IsProper nil = tt
reduce-IsProper (leaf raw err) = elim (Bool-cases (is_wild raw)) [
  | inl w ↦ rw w tt
  | inr w ↦ rw w (ground arith)
]
reduce-IsProper (combined op l r) =
    connect_proper-IsProper op (reduce l) (reduce r) (reduce-IsProper l) (reduce-IsProper r)

open-ne-star : (s : String) → str_eq ("(" <> s) "*" ≡ false
open-ne-star s = elim (Bool-cases (str_eq ("(" <> s) "*")) [
  | inl e ↦ absurd (
      omega (arith, ap code (cons-eq-cons.0 (sym (cons-append "(" "" s) ∙ (str_eq_iff _ _).0 e)).0))
  | inr e ↦ e
]

abbrev is_every : Formula → Bool
is_every every = true
is_every f = false

print-star : (f : Formula) → IsProper f → str_eq (print f) "*" ≡ is_every f
unfolding print
print-star every p = refl
print-star (clause s) p = p
print-star (connect op f g) p = open-ne-star (print f <> (op <> (print g <> ")")))

render_combined-print :
    (op : String) (f g : Formula)
    → IsProper f
    → IsProper g
    → render_combined op (print f) (print g) ≡ print (connect_proper op f g)
unfolding render_combined print
render_combined-print op every every p q = refl
render_combined-print op every g p q = ground (arith, print-star g q)
render_combined-print op f every p q = ground (arith, print-star f p)
render_combined-print op f g p q = rw (print-star f p, print-star g q) refl

and-true : (b : Bool) → b ≡ b && true
and-true true = refl
and-true false = refl

-- With an intersection, a side that is everything adds nothing.
connective_left :
    (op : String) (b : Bool) {P : Type 0}
    → (op ≡ and_op) ⊎ ((op ≡ or_op) × (true ≡ false) × P)
    → b ≡ connective op true b
connective_left op b (inl e) = rw e refl
connective_left op b (inr (e, k, _)) = cc

connective_right :
    (op : String) (b : Bool) {P : Type 0}
    → (op ≡ and_op) ⊎ ((op ≡ or_op) × P × (true ≡ false))
    → b ≡ connective op b true
connective_right op b (inl e) = rw e (and-true b)
connective_right op b (inr (e, _, k)) = cc

satisfies-connect_proper :
    (holds : String → Bool) (op : String) (f g : Formula)
    → (op ≡ and_op) ⊎ ((op ≡ or_op) × (is_every f ≡ false) × (is_every g ≡ false))
    → satisfies holds (connect_proper op f g)
      ≡ connective op (satisfies holds f) (satisfies holds g)
satisfies-connect_proper holds op every every h = connective_left op true {P = true ≡ false} h
satisfies-connect_proper holds op every g h =
    connective_left op (satisfies holds g) {P = is_every g ≡ false} h
satisfies-connect_proper holds op f every h =
    connective_right op (satisfies holds f) {P = is_every f ≡ false} h
satisfies-connect_proper holds op f g h = refl

op_nonempty :
    (op : String) {P Q : Type 0} → (op ≡ and_op) ⊎ ((op ≡ or_op) × P × Q) → str_eq op "" ≡ false
op_nonempty op (inl e) = rw e refl
op_nonempty op (inr (e, _, _)) = rw e refl

render-leaf :
    (raw : String)
    → (if str_eq raw "" then "*" else raw) ≡ print (if is_wild raw then every else clause raw)
unfolding print
render-leaf raw = ground (arith, str_eq_iff raw "*")

-- The rendered text is that of the reduced formula.
render-print : (e : Expression) → IsBuilt e → render e ≡ print (reduce e)
unfolding render reduce print
render-print nil b = refl
render-print (leaf raw err) b = render-leaf raw
render-print (combined op l r) (h, bl, br) =
    rw
      (
        op_nonempty op {P = render l ≢ "*"} {Q = render r ≢ "*"} h,
        render-print l bl,
        render-print r br,
      )
      (render_combined-print op (reduce l) (reduce r) (reduce-IsProper l) (reduce-IsProper r))

not-every : (e : Expression) → IsBuilt e → render e ≢ "*" → is_every (reduce e) ≡ false
not-every e b h = elim (Bool-cases (is_every (reduce e))) [
  | inl k ↦
      absurd
        (h (render-print e b ∙ (str_eq_iff _ _).0 (print-star (reduce e) (reduce-IsProper e) ∙ k)))
  | inr k ↦ k
]

sides :
    (op : String) (l r : Expression)
    → IsBuilt l
    → IsBuilt r
    → (op ≡ and_op) ⊎ ((op ≡ or_op) × (render l ≢ "*") × (render r ≢ "*"))
    → (op ≡ and_op) ⊎ ((op ≡ or_op) × (is_every (reduce l) ≡ false) × (is_every (reduce r) ≡ false))
sides op l r bl br (inl e) = inl e
sides op l r bl br (inr (e, hl, hr)) = inr (e, not-every l bl hl, not-every r br hr)

satisfies-reduce :
    (holds : String → Bool) (e : Expression)
    → IsBuilt e
    → satisfies holds (reduce e) ≡ meaning holds e
unfolding reduce
satisfies-reduce holds nil b = refl
satisfies-reduce holds (leaf raw err) b = ground arith
satisfies-reduce holds (combined op l r) (h, bl, br) =
    satisfies-connect_proper holds op (reduce l) (reduce r) (sides op l r bl br h)
    ∙ ap₂ (connective op) (satisfies-reduce holds l bl) (satisfies-reduce holds r br)

-- The text that an expression renders to is that of a formula which a document satisfies exactly
-- if it meets the expression, where the expression is built by And and Or and no union has a side
-- that renders to *.
pub render-meaning :
    (e : Expression)
    → IsBuilt e
    → (f : Formula) × (print f ≡ render e)
      × ((holds : String → Bool) → satisfies holds f ≡ meaning holds e)
render-meaning e b = (reduce e, sym (render-print e b), λ holds. satisfies-reduce holds e b)

wild_left : (op s : String) → render_combined op "*" s ≡ s
unfolding render_combined
wild_left op s = ground (arith, str_eq_iff s "*")

wild_right : (op s : String) → render_combined op s "*" ≡ s
unfolding render_combined
wild_right op s = ground (arith, str_eq_iff s "*")

-- A side that is everything vanishes from a union as from an intersection: the union of a clause
-- and everything renders to the clause alone, on either side.
render-or_all_wildcard :
    (e : Expression)
    → (render (or_all e (all ∷ [])) ≡ render e)
      × (render (or_all all (e ∷ [])) ≡ render e)
      × (render (and_all e (all ∷ [])) ≡ render e)
      × (render (and_all all (e ∷ [])) ≡ render e)
unfolding render or_all and_all all
render-or_all_wildcard e = (
  wild_right or_op (render e),
  wild_left or_op (render e),
  wild_right and_op (render e),
  wild_left and_op (render e),
)
