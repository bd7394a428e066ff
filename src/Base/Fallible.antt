-- ===== src/Base/Fallible.antt =====
-- The pair (value, error) that a fallible Go function returns.
use mathlib.Core.Path.{◌≡◌, refl}
use mathlib.Core.Bool.{Bool, true, false}
use mathlib.Core.Logic.{◌⊎◌, inl, inr}

pub data Result {ℓ κ} (E : Type ℓ) (A : Type κ) : Type (ℓ ⊔ κ) where
  err : E → Result E A
  ok : A → Result E A

-- `if err != nil { return err }` between two calls.
infixl 5 ◌>>=◌ ◌>>◌
abbrev pub ◌>>=◌ {κ μ ℓ} :
    {X : Type κ} {Y : Type μ} {E : Type ℓ} → Result E X → (X → Result E Y) → Result E Y
err problem >>= next = err problem
ok value >>= next = next value

abbrev pub ◌>>◌ {μ ℓ} : {Y : Type μ} {E : Type ℓ} → Result E (Unit {0}) → Result E Y → Result E Y
check >> after = check >>= λ u. after

-- `if test { return err }`
abbrev pub fail_if {ℓ} : {E : Type ℓ} → Bool → E → Result E (Unit {0})
fail_if test problem = elim test [ false ↦ ok tt | true ↦ err problem ]

-- A sequence that succeeds has a first part that does.
pub >>=-eq-ok {κ μ ℓ} :
    {X : Type κ} {Y : Type μ} {E : Type ℓ} (first : Result E X) (next : X → Result E Y) {y : Y}
    → (first >>= next) ≡ ok y
    → (x : X) × (first ≡ ok x) × (next x ≡ ok y)
>>=-eq-ok (err problem) next success = cc
>>=-eq-ok (ok value) next success = (value, refl, success)

pub Result-cases {κ ℓ} :
    {X : Type κ} {E : Type ℓ} (r : Result E X)
    → ((problem : E) × (r ≡ err problem)) ⊎ ((x : X) × (r ≡ ok x))
Result-cases (ok x) = inr (x, refl)
Result-cases (err problem) = inl (problem, refl)

-- `fmt.Errorf("...: %w", err)`
abbrev pub map_err {κ ℓ μ} :
    {X : Type κ} {E : Type ℓ} {F : Type μ} → (E → F) → Result E X → Result F X
map_err wrap (err problem) = err (wrap problem)
map_err wrap (ok value) = ok value
