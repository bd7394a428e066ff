-- ===== src/Schema/Index/Fields.antt =====
-- The map of fields and their order agree, and the operations act on the list of fields.
use mathlib.Core.List.{map-append}
use redis_vl_golang.Base.{
  >>=-eq-ok, fail_if, ◌≡◌, refl, ap, ◌∙◌, sym, arith, String, str_eq, str_eq_iff, str_eq_refl,
  false, ◌||◌, Option, none, some, List, [], ◌∷◌, ◌++◌, map, has, ok, err,
}
use redis_vl_golang.Base.Dict.{lookup, insert, lookup-insert}
use redis_vl_golang.Schema.Attrs.{SchemaError, field_name_required, duplicate_name}
use redis_vl_golang.Schema.Field.{Field}
use redis_vl_golang.Schema.Index.{
  IndexSchema, add_field, checked_vector, path_of, fields_of, stored, is_some,
}

-- Each name of the order has a field of that name, no name stands twice, and no other name has a
-- field.
abbrev pub Nodup : List String → Type 0
Nodup [] = Unit
Nodup (n ∷ ns) = (has ns n ≡ false) × Nodup ns

pub record IsConsistent (s : IndexSchema) : Type 0 where
  pub distinct : Nodup s.field_order
  pub present : (n : String) → is_some (lookup n s.fields) ≡ has s.field_order n
  pub named : (n : String) (f : Field) → lookup n s.fields ≡ some f → f.name ≡ n

has-append : (ns : List String) (n m : String) → has (ns ++ (n ∷ [])) m ≡ (has ns m || str_eq m n)
unfolding has
has-append [] n m = ground arith
has-append (x ∷ ns) n m = ground (arith, has-append ns n m)

Nodup-append :
    (ns : List String) (n : String) → Nodup ns → has ns n ≡ false → Nodup (ns ++ (n ∷ []))
unfolding has
Nodup-append [] n d h = (refl, tt)
Nodup-append (x ∷ ns) n (p, d) h = (
  ground (arith, has-append ns n x, str_eq_iff n x, str_eq_iff x n),
  Nodup-append ns n d (ground arith),
)

pub stored-name : (s : IndexSchema) (f : Field) {f' : Field} → stored s f ≡ ok f' → f'.name ≡ f.name
unfolding stored
stored-name s f h =
    let (v, _, q) =
      >>=-eq-ok (checked_vector f) (λ vector. ok (record f { path = path_of s f; vector = vector }))
        h in
    ap {B = String} (λ r. elim r [ ok g ↦ g.name | err _ ↦ f.name ]) (sym q)

-- The schema with a stored field at the end.
abbrev pub added : IndexSchema → Field → Field → IndexSchema
added s f f' = record s {
  fields = insert f.name f' s.fields;
  field_order = s.field_order ++ (f.name ∷ []);
}

absent :
    (e : SchemaError) (o : Option Field) {u : Unit {0}} → fail_if (is_some o) e ≡ ok u → o ≡ none
absent e none h = refl
absent e (some a) h = cc

-- What a successful `AddField` has found and made.
pub add_field-eq-ok :
    (s : IndexSchema) (f : Field) {s' : IndexSchema}
    → add_field s f ≡ ok s'
    → (f' : Field) × (stored s f ≡ ok f') × (lookup f.name s.fields ≡ none) × (added s f f' ≡ s')
unfolding add_field
add_field-eq-ok s f {s'} h =
    let (_, _, h1) = >>=-eq-ok (fail_if (str_eq f.name "") field_name_required) _ h in
    let (_, fresh, h2) =
      >>=-eq-ok (fail_if (is_some (lookup f.name s.fields)) (duplicate_name f.name)) _ h1 in
    let (f', e, h3) = >>=-eq-ok (stored s f) _ h2 in
    (
      f',
      e,
      absent (duplicate_name f.name) (lookup f.name s.fields) fresh,
      ap {B = IndexSchema} (λ r. elim r [ ok t ↦ t | err _ ↦ s ]) h3,
    )

module _ (s : IndexSchema) (c : IsConsistent s) (f f' : Field)
    (fresh : lookup f.name s.fields ≡ none) (same : f'.name ≡ f.name) where
  is_new : has s.field_order f.name ≡ false
  is_new = sym (c.present f.name) ∙ ap is_some fresh

  pub added-IsConsistent : IsConsistent (added s f f')
  added-IsConsistent = record {
    distinct = Nodup-append s.field_order f.name c.distinct is_new;
    present = λ n.
        rw (lookup-insert, has-append)
          (ground (arith, c.present n, str_eq_iff f.name n, str_eq_iff n f.name));
    named = λ n g h.
        ground (arith, lookup-insert f.name n f' s.fields, c.named n g, str_eq_iff f.name n);
  }

  fields_of-added_old :
      (ns : List String)
      → has ns f.name ≡ false
      → map (λ n. lookup n (insert f.name f' s.fields)) ns ≡ map (λ n. lookup n s.fields) ns
  unfolding has
  fields_of-added_old [] h = refl
  fields_of-added_old (n ∷ ns) h =
      ground (arith, lookup-insert f.name n f' s.fields, fields_of-added_old ns)

  pub fields_of-added : fields_of (added s f f') ≡ fields_of s ++ (some f' ∷ [])
  unfolding fields_of
  fields_of-added =
      rw (map-append, fields_of-added_old s.field_order is_new, lookup-insert, str_eq_refl)
