-- ===== src/Index/Admin/Creation.antt =====
-- What `Create` leaves in Redis.
use redis_vl_golang.Base.{
  String, ◌≡◌, refl, ap, ◌∙◌, Bool, true, false, some, List, [], ◌∷◌, map, has, ok, if◌then◌else◌,
}
use redis_vl_golang.Command.{Arg, str}
use redis_vl_golang.Schema.Index.{IndexSchema, schema_args}
use redis_vl_golang.Index.Value.{text, array, of_list, Scalars, to_string}
use redis_vl_golang.Index.Reply.Protocols.{to_list-of_list}
use redis_vl_golang.Index.Server.{Server, redis, after, answered, lift, return, ◌>>>◌}
use redis_vl_golang.Index.Search.{name_of, named_error}
use redis_vl_golang.Index.Admin.{
  CreateOptions, create_args, delete_args, names_of, list_all, exists, delete, create, create_over,
  create_with, send_create,
}

module _ {ℓ} {S : Type ℓ} (server : Server S) (c : Scalars) (i : IndexSchema) where
  map-to_string : (names : List String) → map (to_string c) (map text names) ≡ names
  unfolding to_string
  map-to_string [] = refl
  map-to_string (n ∷ names) = ap (λ t. n ∷ t) (map-to_string names)

  exists_listed :
      (s : S) (names : List String)
      → server.call (str "FT._LIST" ∷ []) s ≡ (ok (array (of_list (map text names))), s)
      → exists server c i s ≡ (ok (has names (name_of i)), s)
  unfolding exists list_all
  exists_listed s names h =
      ap
        (λ a.
          after (λ ns. return (has ns (name_of i)))
            (after (λ v. lift (names_of server c i v)) (answered redis a)))
        h
      ∙ ap (λ vs. (ok (has (map (to_string c) vs) (name_of i)), s))
          (to_list-of_list (map text names))
      ∙ ap (λ ns. (ok (has ns (name_of i)), s)) (map-to_string names)

  module _ (names : S → List String) (args : List Arg) (created : S → S)
      (dropped : Bool → S → S) where
    -- The state that a creation is to leave.
    unfoldable pub left_by : Bool → Bool → Bool → S → S
    left_by false overwrite drop s = created s
    left_by true true drop s = created (dropped drop s)
    left_by true false drop s = s

    abbrev pub expected : CreateOptions → S → S
    unfolding left_by
    expected o s = left_by (has (names s) (name_of i)) o.overwrite o.drop s

    create_found :
        (o : CreateOptions) (s : S)
        → schema_args i ≡ some (ok args)
        → server.call (str "FT._LIST" ∷ []) s ≡ (ok (array (of_list (map text (names s)))), s)
        → create server c i o s ≡ create_over server c i o args (has (names s) (name_of i)) s
    unfolding create
    create_found o s valid listed =
        ap (λ a. create_with server c i o a s) valid
        ∙ ap (after (create_over server c i o args)) (exists_listed s (names s) listed)

    create_over_lem :
        (o : CreateOptions) (found overwrite : Bool) (s : S)
        → has (names s) (name_of i) ≡ found
        → o.overwrite ≡ overwrite
        → ((s : S)
            → has (names s) (name_of i) ≡ false
            → (server.call (create_args i args) s ≡ (ok (text "OK"), created s))
              × (has (names (created s)) (name_of i) ≡ true))
        → ((drop : Bool) (s : S)
            → has (names s) (name_of i) ≡ true
            → (server.call (delete_args i drop) s ≡ (ok (text "OK"), dropped drop s))
              × (has (names (dropped drop s)) (name_of i) ≡ false))
        → (create_over server c i o args found s ≡ (ok tt, left_by found overwrite o.drop s))
          × (has (names (left_by found overwrite o.drop s)) (name_of i) ≡ true)
    unfolding left_by delete
    create_over_lem o false overwrite s h w makes drops =
        let (made, there) = makes s h in
        (ap (λ a. after (λ _. return tt) (answered redis a)) made, there)
    create_over_lem o true false s h w makes drops = (
      ap
          (λ b.
            (if b
                then (delete server c i o.drop >>> λ _. send_create server c i args)
                else return tt)
              s)
          w,
      h,
    )
    create_over_lem o true true s h w makes drops =
        let (gone, free) = drops o.drop s h in
        let (made, there) = makes (dropped o.drop s) free in
        (
          ap
                (λ b.
                  (if b
                      then (delete server c i o.drop >>> λ _. send_create server c i args)
                      else return tt)
                    s)
                w
              ∙ ap
                  (λ a.
                    after (λ _. send_create server c i args)
                      (after (λ _. return tt) (answered (named_error (name_of i)) a)))
                  gone
              ∙ ap (λ a. after (λ _. return tt) (answered redis a)) made,
          there,
        )

    -- Where the server lists its indexes by name, and creates and drops them as it is told, `Create`
    -- leaves an index that exists: the one that was there, without `overwrite`, and else a new one,
    -- for which one that was there has been dropped, with its documents if the options say so.
    pub create-exists :
        (o : CreateOptions) (s : S)
        → schema_args i ≡ some (ok args)
        → ((s : S)
            → server.call (str "FT._LIST" ∷ []) s ≡ (ok (array (of_list (map text (names s)))), s))
        → ((s : S)
            → has (names s) (name_of i) ≡ false
            → (server.call (create_args i args) s ≡ (ok (text "OK"), created s))
              × (has (names (created s)) (name_of i) ≡ true))
        → ((drop : Bool) (s : S)
            → has (names s) (name_of i) ≡ true
            → (server.call (delete_args i drop) s ≡ (ok (text "OK"), dropped drop s))
              × (has (names (dropped drop s)) (name_of i) ≡ false))
        → (create server c i o s ≡ (ok tt, expected o s))
          × (exists server c i (expected o s) ≡ (ok true, expected o s))
    unfolding expected
    create-exists o s valid listed makes drops =
        let (left, there) =
          create_over_lem o (has (names s) (name_of i)) o.overwrite s refl refl makes drops in
        (
          create_found o s valid (listed s) ∙ left,
          exists_listed (expected o s) (names (expected o s)) (listed (expected o s))
              ∙ ap (λ b. (ok b, expected o s)) there,
        )
