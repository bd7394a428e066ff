-- ===== src/Index/Load/Parts.antt =====
-- The commands of a list of records, cut in two, and the number of the keys.
use native.Mathlib.Nat.{mul-le-mul_left}
use redis_vl_golang.Base.{
  ℕ, zero, suc, ◌+◌, ◌*◌, ◌≤◌, ◌<◌, String, ◌≡◌, inl, inr, refl, sym, ap, ◌∙◌, arith, Bool-cases,
  ◌==◌, ==_iff, >>=-eq-ok, Option, none, some, List, [], ◌∷◌, ◌++◌, length, Result, ok, err, ◌>>=◌,
  take, drop, append_assoc,
}
use redis_vl_golang.Base.Dict.{Dict}
use redis_vl_golang.Schema.Index.{IndexSchema}
use redis_vl_golang.Index.Value.{Value, Scalars}
use redis_vl_golang.Index.Load.{
  LoadOptions, batch_size_of, load_keys, record_keys, record_key, given_keys, record_commands,
  batch_commands,
}

-- A list of commands after another, where both could be made.
abbrev pub both {ℓ κ} :
    {E : Type ℓ} {A : Type κ} → Result E (List A) → Result E (List A) → Result E (List A)
both xs ys = do front ← xs; back ← ys; ok (front ++ back)

both_assoc {ℓ κ} :
    {E : Type ℓ} {A : Type κ} (xs ys zs : Result E (List A))
    → both xs (both ys zs) ≡ both (both xs ys) zs
both_assoc (err e) ys zs = refl
both_assoc (ok xs) (err e) zs = refl
both_assoc (ok xs) (ok ys) (err e) = refl
both_assoc (ok xs) (ok ys) (ok zs) = ap ok (sym (append_assoc xs ys zs))

both-nil {ℓ κ} : {E : Type ℓ} {A : Type κ} (xs : Result E (List A)) → both (ok []) xs ≡ xs
both-nil (err e) = refl
both-nil (ok xs) = refl

pub both-eq-ok {ℓ κ} :
    {E : Type ℓ} {A : Type κ} (xs ys : Result E (List A)) {zs : List A}
    → both xs ys ≡ ok zs
    → (front back : List A) × (xs ≡ ok front) × (ys ≡ ok back) × (front ++ back ≡ zs)
both-eq-ok (err e) ys h = cc
both-eq-ok (ok xs) (err e) h = cc
both-eq-ok (ok xs) (ok ys) h = (xs, ys, refl, refl, cc)

size_positive : (o : LoadOptions) → 0 < batch_size_of o
unfolding batch_size_of
size_positive o = ground arith

pub times_size : (o : LoadOptions) (k : ℕ) → k ≤ k * batch_size_of o
times_size o k = omega (arith, mul-le-mul_left k (size_positive o))

module _ (c : Scalars) (i : IndexSchema) (marshal : Dict Value → Option String)
    (ulid : ℕ → String) where
  pub batch_commands-nil :
      (o : LoadOptions) (idx : ℕ) (ks : List String)
      → batch_commands c i marshal ulid o idx ks [] ≡ ok []
  unfolding batch_commands
  batch_commands-nil o idx [] = refl
  batch_commands-nil o idx (k ∷ ks) = refl

  pub batch_commands-split :
      (o : LoadOptions) (n idx : ℕ) (ks : List String) (objs : List (Dict Value))
      → batch_commands c i marshal ulid o idx ks objs
        ≡ both
            (batch_commands c i marshal ulid o idx (take n ks) (take n objs))
            (batch_commands c i marshal ulid o (idx + n) (drop n ks) (drop n objs))
  unfolding batch_commands
  batch_commands-split o zero idx ks objs =
      ap (λ k. batch_commands c i marshal ulid o k ks objs) (omega arith) ∙ sym (both-nil _)
  batch_commands-split o (suc n) idx [] objs = refl
  batch_commands-split o (suc n) idx (k ∷ ks) [] =
      ap (both (ok [])) (sym (batch_commands-nil o (idx + suc n) (drop n ks)))
  batch_commands-split o (suc n) idx (k ∷ ks) (obj ∷ objs) =
      ap (both (record_commands c i marshal ulid o idx k obj))
        (batch_commands-split o n (suc idx) ks objs)
      ∙ both_assoc (record_commands c i marshal ulid o idx k obj)
          (batch_commands c i marshal ulid o (suc idx) (take n ks) (take n objs))
          (batch_commands c i marshal ulid o (suc idx + n) (drop n ks) (drop n objs))
      ∙ ap
          (λ j.
            both (batch_commands c i marshal ulid o idx (k ∷ take n ks) (obj ∷ take n objs))
              (batch_commands c i marshal ulid o j (drop n ks) (drop n objs)))
          (omega arith)

  length-record_keys :
      (o : LoadOptions) (idx : ℕ) (objs : List (Dict Value)) (ks : List String)
      → record_keys c i marshal ulid o idx objs ≡ ok ks
      → length ks ≡ length objs
  unfolding record_keys
  length-record_keys o idx [] [] h = refl
  length-record_keys o idx [] (k ∷ ks) h = cc
  length-record_keys o idx (obj ∷ objs) ks h =
      let (k, _, rest) = >>=-eq-ok (record_key c i marshal ulid o idx obj) _ h in
      let (ks', keyed, last) = >>=-eq-ok (record_keys c i marshal ulid o (suc idx) objs) _ rest in
      let same : k ∷ ks' ≡ ks = cc in
      sym (ap length same) ∙ ap suc (length-record_keys o (suc idx) objs ks' keyed)

  length-given_keys :
      (o : LoadOptions) (given : Option (List String)) (objs : List (Dict Value)) (ks : List String)
      → given_keys c i marshal ulid o given objs ≡ ok ks
      → length ks ≡ length objs
  length-given_keys o none objs ks h = length-record_keys o 0 objs ks h
  length-given_keys o (some given) objs ks h = elim (Bool-cases (length given == length objs)) [
    | inl same ↦
        let kept : given ≡ ks = cc in
        sym (ap length kept) ∙ (==_iff (length given) (length objs)).0 same
    | inr other ↦ cc
  ]

  pub length-load_keys :
      (o : LoadOptions) (objs : List (Dict Value)) (ks : List String)
      → load_keys c i marshal ulid o objs ≡ ok ks
      → length ks ≡ length objs
  unfolding load_keys
  length-load_keys o objs ks h = length-given_keys o o.keys objs ks h
