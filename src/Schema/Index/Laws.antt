-- ===== src/Schema/Index/Laws.antt =====
-- What `NewIndexSchema`, `AddField` and `RemoveField` do to the list of fields.
use mathlib.Core.Path.{subst}
use redis_vl_golang.Base.{
  ◌≡◌, ◌≢◌, refl, ap, ◌∙◌, sym, arith, String, str_eq, str_eq_iff, str_eq_refl, true, false,
  Bool-cases, inl, inr, none, some, List, [], ◌∷◌, ◌++◌, map, has, ok, err, >>=-eq-ok, All,
  if◌then◌else◌,
}
use redis_vl_golang.Base.Dict.{lookup, erase, lookup-erase}
use redis_vl_golang.Schema.Field.{Field}
use redis_vl_golang.Schema.Index.{
  IndexSchema, IndexInfo, apply_defaults, add_field, add_fields, new_index_schema, remove_first,
  remove_field, fields_of, field_names, stored, is_some, schema_args, args_of,
}
use redis_vl_golang.Schema.Index.Fields.{
  Nodup, IsConsistent, stored-name, add_field-eq-ok, added-IsConsistent, fields_of-added,
}

-- A field that is added goes to the end of the list, as it is stored, and the schema stays
-- consistent.
pub add_field-fields_of :
    (s s' : IndexSchema) (f : Field)
    → IsConsistent s
    → add_field s f ≡ ok s'
    → IsConsistent s'
      × (f' : Field) × (stored s f ≡ ok f')
      × (fields_of s' ≡ fields_of s ++ (some f' ∷ []))
add_field-fields_of s s' f c h =
    let (f', e, fresh, q) = add_field-eq-ok s f h in
    let same = stored-name s f e in
    (
      subst IsConsistent q (added-IsConsistent s c f f' fresh same),
      f',
      e,
      ap fields_of (sym q) ∙ fields_of-added s c f f' fresh same,
    )

add_fields-IsConsistent :
    (s : IndexSchema) (fields : List Field) {s' : IndexSchema}
    → IsConsistent s
    → add_fields s fields ≡ ok s'
    → IsConsistent s'
unfolding add_fields
add_fields-IsConsistent s [] {s'} c h =
    subst IsConsistent (ap {B = IndexSchema} (λ r. elim r [ ok t ↦ t | err _ ↦ s ]) h) c
add_fields-IsConsistent s (f ∷ fields) {s'} c h =
    let (t, p, q) = >>=-eq-ok (add_field s f) (λ t. add_fields t fields) h in
    add_fields-IsConsistent t fields (add_field-fields_of s t f c p).0 q

-- Every schema that `NewIndexSchema` makes is consistent: no name stands twice in the order of the
-- fields, the names there are those with a stored field, and each field is stored under its name.
pub new_index_schema-IsConsistent :
    (info : IndexInfo) (fields : List Field) {s : IndexSchema}
    → new_index_schema info fields ≡ ok s
    → IsConsistent s
unfolding new_index_schema lookup has
new_index_schema-IsConsistent info fields h =
    let (index, _, q) = >>=-eq-ok (apply_defaults info) _ h in
    add_fields-IsConsistent _ fields
      (record { distinct = tt; present = λ n. refl; named = λ n f e. cc }) q

has-remove_first :
    (name : String) (ns : List String) (n : String)
    → Nodup ns
    → has (remove_first name ns) n ≡ (if str_eq name n then false else has ns n)
unfolding remove_first has
has-remove_first name [] n d = ground arith
has-remove_first name (m ∷ ns) n (p, d) =
    ground
      (arith, has-remove_first name ns n d, str_eq_iff m name, str_eq_iff name n, str_eq_iff n m)

Nodup-remove_first : (name : String) (ns : List String) → Nodup ns → Nodup (remove_first name ns)
unfolding remove_first
Nodup-remove_first name [] d = tt
Nodup-remove_first name (m ∷ ns) (p, d) =
    ground (arith, has-remove_first name ns m d, Nodup-remove_first name ns d)

-- The entries of the other names, in their order.
abbrev pub without : String → List String → List String
without name [] = []
without name (n ∷ ns) = let rest = without name ns in if str_eq n name then rest else n ∷ rest

without_absent : (name : String) (ns : List String) → has ns name ≡ false → without name ns ≡ ns
unfolding has
without_absent name [] h = refl
without_absent name (n ∷ ns) h =
    ground (arith, without_absent name ns, str_eq_iff n name, str_eq_iff name n)

remove_first-without :
    (name : String) (ns : List String) → Nodup ns → remove_first name ns ≡ without name ns
unfolding remove_first
remove_first-without name [] d = refl
remove_first-without name (n ∷ ns) (p, d) =
    ground (arith, remove_first-without name ns d, without_absent name ns, str_eq_iff n name)

lookup-erase-without :
    (s : IndexSchema) (name : String) (ns : List String)
    → map (λ n. lookup n (erase name s.fields)) (without name ns)
      ≡ map (λ n. lookup n s.fields) (without name ns)
lookup-erase-without s name [] = refl
lookup-erase-without s name (n ∷ ns) = ground (
  arith,
  lookup-erase-without s name ns,
  lookup-erase name n s.fields,
  str_eq_iff n name,
  str_eq_iff name n,
)

-- Removing a name keeps the schema consistent, and leaves exactly the fields of the other names,
-- unchanged and in their order, whether the name was there or not.
pub remove_field-fields_of :
    (s : IndexSchema) (name : String)
    → IsConsistent s
    → IsConsistent (remove_field s name)
      × (field_names (remove_field s name) ≡ without name (field_names s))
      × (fields_of (remove_field s name)
          ≡ map (λ n. lookup n s.fields) (without name (field_names s)))
unfolding remove_field field_names fields_of
remove_field-fields_of s name c = elim (Bool-cases (is_some (lookup name s.fields))) [
  | inl old ↦ rw old (
    record {
      distinct = Nodup-remove_first name s.field_order c.distinct;
      present = λ n. ground (
        arith,
        lookup-erase name n s.fields,
        c.present n,
        has-remove_first name s.field_order n c.distinct,
      );
      named = λ n f h. ground (arith, lookup-erase name n s.fields, c.named n f);
    },
    remove_first-without name s.field_order c.distinct,
    rw (remove_first-without name s.field_order c.distinct)
        (lookup-erase-without s name s.field_order),
  )
  | inr new ↦
      let none_there : has s.field_order name ≡ false = sym (c.present name) ∙ new in
      rw (new, without_absent name s.field_order none_there) (c, refl, refl)
]

All-of-has :
    (P : String → Type 0) (ns : List String) → ((n : String) → has ns n ≡ true → P n) → All P ns
unfolding has
All-of-has P [] h = tt
All-of-has P (n ∷ ns) h = (h n (rw str_eq_refl), All-of-has P ns (λ m k. h m (ground (arith, k))))

args_of-ne-none :
    (s : IndexSchema) (ns : List String)
    → All (λ n. is_some (lookup n s.fields) ≡ true) ns
    → args_of s.fields ns ≢ none
unfolding args_of
args_of-ne-none s [] h = ground arith
args_of-ne-none s (n ∷ ns) (p, h) = ground (arith, args_of-ne-none s ns h)

-- Rendering a consistent schema never meets a nil field.
schema_args-ne-none : (s : IndexSchema) → IsConsistent s → schema_args s ≢ none
unfolding schema_args
schema_args-ne-none s c =
    let listed =
      All-of-has (λ n. is_some (lookup n s.fields) ≡ true) s.field_order (λ n h. c.present n ∙ h) in
    ground (arith, args_of-ne-none s s.field_order listed)
