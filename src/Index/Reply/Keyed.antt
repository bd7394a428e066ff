-- ===== src/Index/Reply/Keyed.antt =====
-- The fields of a hit in a reply's map. A `map[any]any` is put in order key by key, so that a later
-- value of a name takes the place of an earlier, as in the flat list.
use redis_vl_golang.Base.{
  String, str_eq, str_eq_iff, ◌≡◌, refl, sym, ap, ◌∙◌, arith, Bool-cases, inl, inr, false, none,
  some, List, [], ◌∷◌,
}
use redis_vl_golang.Base.Dict.{Dict, insert, lookup, lookup-insert}
use redis_vl_golang.Index.Value.{Value, text, dict_pairs, Scalars, to_string, text_keys}
use redis_vl_golang.Index.Reply.{put_all}

unfoldable pub texts : List (String × String) → Dict Value
texts [] = []
texts ((k, v) ∷ fs) = (k, text v) ∷ texts fs

-- A map from the names and values in turn; a later value of a name takes the place of an earlier.
unfoldable pub put_texts : List (String × String) → Dict String → Dict String
put_texts [] out = out
put_texts ((k, v) ∷ fs) out = put_texts fs (insert k v out)

module _ (c : Scalars) where
  pub put_all-texts :
      (fs : List (String × String)) (out : Dict String)
      → put_all c (texts fs) out ≡ put_texts fs out
  unfolding put_all texts put_texts to_string
  put_all-texts [] out = refl
  put_all-texts ((k, v) ∷ fs) out = put_all-texts fs (insert k v out)

  -- The texts of the values of a map.
  shown : Dict Value → Dict String
  shown [] = []
  shown ((k, v) ∷ m) = (k, to_string c v) ∷ shown m

  shown-insert :
      (k : String) (v : Value) (m : Dict Value)
      → shown (insert k v m) ≡ insert k (to_string c v) (shown m)
  unfolding shown insert
  shown-insert k v [] = refl
  shown-insert k v ((j, w) ∷ m) = elim (Bool-cases (str_eq j k)) [
    | inl e ↦ rw e refl
    | inr e ↦ rw (e, shown-insert k v m) refl
  ]

  -- No key stands twice.
  Distinct : Dict Value → Type 0
  Distinct [] = Unit
  Distinct ((k, v) ∷ m) = (lookup k m ≡ none) × Distinct m

  insert-Distinct : (k : String) (v : Value) (m : Dict Value) → Distinct m → Distinct (insert k v m)
  unfolding Distinct insert lookup
  insert-Distinct k v [] h = (refl, tt)
  insert-Distinct k v ((j, w) ∷ m) (fresh, h) = elim (Bool-cases (str_eq j k)) [
    | inl e ↦
        let same : j ≡ k = (str_eq_iff j k).0 e in rw e (ap (λ t. lookup t m) (sym same) ∙ fresh, h)
    | inr e ↦ rw e (
      lookup-insert k j v m ∙ ground (arith, fresh, e, str_eq_iff j k, str_eq_iff k j),
      insert-Distinct k v m h,
    )
  ]

  text_keys-Distinct :
      (fs : List (String × String)) (out : Dict Value)
      → Distinct out
      → Distinct (text_keys c (dict_pairs (texts fs)) out)
  unfolding text_keys texts to_string
  text_keys-Distinct [] out h = h
  text_keys-Distinct ((k, v) ∷ fs) out h =
      text_keys-Distinct fs (insert k (text v) out) (insert-Distinct k (text v) out h)

  shown-text_keys :
      (fs : List (String × String)) (out : Dict Value)
      → shown (text_keys c (dict_pairs (texts fs)) out) ≡ put_texts fs (shown out)
  unfolding text_keys texts put_texts to_string
  shown-text_keys [] out = refl
  shown-text_keys ((k, v) ∷ fs) out =
      shown-text_keys fs (insert k (text v) out)
      ∙ ap (put_texts fs) (unfold to_string in shown-insert k (text v) out)

  put_all-fresh :
      (m : Dict Value) (j x : String) (out : Dict String)
      → lookup j m ≡ none
      → put_all c m ((j, x) ∷ out) ≡ (j, x) ∷ put_all c m out
  unfolding put_all lookup insert
  put_all-fresh [] j x out h = refl
  put_all-fresh ((i, u) ∷ m) j x out h = elim (Bool-cases (str_eq i j)) [
    | inl e ↦ let found : some u ≡ none = rw e at h in cc
    | inr e ↦
        let other : str_eq j i ≡ false = ground (arith, e, str_eq_iff i j, str_eq_iff j i) in
        rw other (put_all-fresh m j x (insert i (to_string c u) out) (rw e at h))
  ]

  put_all-Distinct : (m : Dict Value) → Distinct m → put_all c m [] ≡ shown m
  unfolding put_all Distinct shown insert
  put_all-Distinct [] h = refl
  put_all-Distinct ((k, v) ∷ m) (fresh, h) =
      put_all-fresh m k (to_string c v) [] fresh
      ∙ ap (λ t. (k, to_string c v) ∷ t) (put_all-Distinct m h)

  -- The fields of a map[any]any are those of the hit.
  pub put_all-text_keys :
      (fs : List (String × String))
      → put_all c (text_keys c (dict_pairs (texts fs)) []) [] ≡ put_texts fs []
  put_all-text_keys fs =
      put_all-Distinct (text_keys c (dict_pairs (texts fs)) [])
        (unfold Distinct in text_keys-Distinct fs [] tt)
      ∙ (unfold shown in shown-text_keys fs [])
