-- ===== src/History/Trips.antt =====
-- A message that is stored and read back, and messages that are not stored.
use redis_vl_golang.Base.{
  ℕ, suc, String, str_eq, str_eq_iff, ◌≡◌, refl, sym, ap, ◌∙◌, Bool, true, false, Bool-cases, inl,
  inr, Option, none, some, Option-cases, List, [], ◌∷◌, ◌++◌, has, ok, err, Result-cases,
}
use redis_vl_golang.Base.Float.{Float64}
use redis_vl_golang.Base.Dict.{Dict, lookup}
use redis_vl_golang.Query.Options.{Floats}
use redis_vl_golang.Index.Value.{Value, text, Scalars}
use redis_vl_golang.Index.Server.{Server}
use redis_vl_golang.History.{
  Message, MessageHistory, HistoryError, invalid_role, valid_roles, or_own,
}
use redis_vl_golang.History.Fields.{
  timestamp_of, entry_id_of, tool_fields, marshalled, metadata_fields, valid_fields, message_fields,
  all_fields, metadata_of, message_of, shown,
}
use redis_vl_golang.History.Reading.{add_messages, load_fields}

module _ (c : Scalars) (unmarshal : String → Option Value) (format_ts : Float64 → String)
    (marshal : Value → Option String) (now : ℕ → Float64) (suffix : ℕ → String) where
  -- Metadata as JSON gives back what it has written of it: a number comes back as a float64, say.
  abbrev from_json : Option String → Option Value
  from_json none = none
  from_json (some json) = unmarshal json

  abbrev pub as_read : Option Value → Option Value
  as_read none = none
  as_read (some v) = from_json (marshal v)

  -- The message that is to be read back.
  abbrev pub as_stored : ℕ → String → Message → Message
  as_stored idx tag m = record m {
    entry_id = entry_id_of format_ts marshal now suffix idx tag m;
    session_tag = tag;
    timestamp = timestamp_of format_ts marshal now suffix idx m;
    metadata = as_read m.metadata;
  }

  -- The fields before the metadata.
  abbrev core : ℕ → String → Message → Dict Value → Dict Value
  core idx tag m rest =
      ("entry_id", text (entry_id_of format_ts marshal now suffix idx tag m))
      ∷ ("role", text m.role)
      ∷ ("content", text m.content)
      ∷ ("session_tag", text tag)
      ∷ ("timestamp", text (format_ts (timestamp_of format_ts marshal now suffix idx m)))
      ∷ rest

  message_of-core :
      (idx : ℕ) (tag k tool : String) (m : Message) (meta : Option Value) (rest : Dict Value)
      → (let t = timestamp_of format_ts marshal now suffix idx m in
          c.parse_float (format_ts t) ≡ some t)
      → shown c unmarshal (lookup "tool_call_id" rest) ≡ tool
      → metadata_of c unmarshal (shown c unmarshal (lookup "metadata" rest)) ≡ meta
      → message_of c unmarshal (("id", text k) ∷ core idx tag m rest)
        ≡ record (as_stored idx tag m) { tool_call_id = tool; metadata = meta }
  unfolding message_of lookup
  message_of-core idx tag k tool m meta rest parses t h = rw (parses, t, h) refl

  tool_field :
      (m : Message) (b : Bool) (meta : Dict Value)
      → str_eq m.tool_call_id "" ≡ b
      → lookup "tool_call_id" meta ≡ none
      → (shown c unmarshal
            (lookup "tool_call_id" (tool_fields format_ts marshal now suffix m ++ meta))
          ≡ m.tool_call_id)
        × (lookup "metadata" (tool_fields format_ts marshal now suffix m ++ meta)
            ≡ lookup "metadata" meta)
  unfolding lookup
  tool_field m true meta e h =
      let empty = (str_eq_iff m.tool_call_id "").0 e in (rw (e, h) (sym empty), rw e refl)
  tool_field m false meta e h = (rw e refl, rw e refl)

  -- The metadata as its fields and as it is read back.
  metadata_field :
      (given : Option Value) (fields : Dict Value)
      → ((v : Value) (json : String)
          → marshal v ≡ some json
          → (str_eq json "" ≡ false) × (back : Value) × (unmarshal json ≡ some back))
      → metadata_fields format_ts marshal now suffix given ≡ ok fields
      → (lookup "tool_call_id" fields ≡ none)
        × (metadata_of c unmarshal (shown c unmarshal (lookup "metadata" fields)) ≡ as_read given)
  unfolding lookup
  metadata_field none fields trips h =
      let same : [] ≡ fields = cc in
      (
        ap (lookup "tool_call_id") (sym same),
        ap (λ fs. metadata_of c unmarshal (shown c unmarshal (lookup "metadata" fs))) (sym same),
      )
  metadata_field (some v) fields trips h = elim (Option-cases (marshal v)) [
    | inl refused ↦ cc (h, ap (marshalled format_ts marshal now suffix) refused)
    | inr (json, made) ↦
        let (filled, back, valid) = trips v json made in
        let written : marshalled format_ts marshal now suffix (marshal v)
            ≡ ok (("metadata", text json) ∷ []) =
          ap (marshalled format_ts marshal now suffix) made in
        let same : ("metadata", text json) ∷ [] ≡ fields = cc in
        (
          ap (lookup "tool_call_id") (sym same),
          ap (λ fs. metadata_of c unmarshal (shown c unmarshal (lookup "metadata" fs))) (sym same)
              ∙ rw (filled, made, valid) refl,
        )
  ]

  -- Where the text of the message's time can be read back and what json.Marshal writes is a text that
  -- json.Unmarshal can read, the fields that are stored for a message give, with the key that a search
  -- adds, the message itself, under the session's tag, with the id and the time that it was given if it
  -- had none, and with its metadata as JSON reads back what it has written of it.
  pub message_of-message_fields :
      (idx : ℕ) (tag k : String) (m : Message) (fields : Dict Value)
      → (let t = timestamp_of format_ts marshal now suffix idx m in
          c.parse_float (format_ts t) ≡ some t)
      → ((v : Value) (json : String)
          → marshal v ≡ some json
          → (str_eq json "" ≡ false) × (back : Value) × (unmarshal json ≡ some back))
      → message_fields format_ts marshal now suffix idx tag m ≡ ok fields
      → message_of c unmarshal (("id", text k) ∷ fields) ≡ as_stored idx tag m
  unfolding message_fields
  message_of-message_fields idx tag k m fields parses trips h =
      elim (Bool-cases (has valid_roles m.role)) [
        | inr bad ↦ cc
        | inl good ↦ elim (Result-cases (metadata_fields format_ts marshal now suffix m.metadata)) [
          | inl (e, q) ↦ cc (h, ap (valid_fields format_ts marshal now suffix idx tag m) q)
          | inr (meta, q) ↦
              let (plain, back) = metadata_field m.metadata meta trips q in
              let (tool, after) = tool_field m (str_eq m.tool_call_id "") meta refl plain in
              let written = ap (valid_fields format_ts marshal now suffix idx tag m) q in
              let same : core idx tag m (tool_fields format_ts marshal now suffix m ++ meta)
                  ≡ fields =
                cc in
              ap (λ fs. message_of c unmarshal (("id", text k) ∷ fs)) (sym same)
              ∙ message_of-core idx tag k m.tool_call_id m (as_read m.metadata)
                  (tool_fields format_ts marshal now suffix m ++ meta) parses tool
                  (ap (λ o. metadata_of c unmarshal (shown c unmarshal o)) after ∙ back)
        ]
      ]

  all_fields-invalid :
      (idx : ℕ) (tag : String) (before : List Message) (m : Message) (later : List Message)
      → has valid_roles m.role ≡ false
      → (e : HistoryError) × (all_fields format_ts marshal now suffix idx tag
            (before ++ (m ∷ later))
          ≡ err e)
  unfolding all_fields message_fields
  all_fields-invalid idx tag [] m later h = (invalid_role m.role, rw h refl)
  all_fields-invalid idx tag (q ∷ before) m later h =
      let (e, bad) = all_fields-invalid (suc idx) tag before m later h in
      elim (Result-cases (message_fields format_ts marshal now suffix idx tag q)) [
        | inl (e', refused) ↦ (e', rw refused refl)
        | inr (fs, made) ↦ (e, rw (made, bad) refl)
      ]

  -- Where one of the messages has an invalid role, adding them returns an error and writes none of
  -- them.
  pub add_messages-invalid {ℓ} :
      {S : Type ℓ} (server : Server S) (f : Floats) (h : MessageHistory)
      (unmarshal_doc : String → Option (Dict Value)) (marshal_doc : Dict Value → Option String)
      (ulid : ℕ → String) (fuel : ℕ) (before : List Message) (m : Message) (later : List Message)
      (tag : String) (s : S)
      → has valid_roles m.role ≡ false
      → (e : HistoryError) × (add_messages server c f h unmarshal_doc unmarshal format_ts marshal
            marshal_doc now suffix ulid fuel
            (before ++ (m ∷ later))
            tag
            s
          ≡ some (err e, s))
  unfolding add_messages
  add_messages-invalid server f h unmarshal_doc marshal_doc ulid fuel before m later tag s bad =
      let (e, none_made) = all_fields-invalid 0 (or_own h tag) before m later bad in
      (
        e,
        ap
            (λ r.
              load_fields server c f h unmarshal_doc unmarshal format_ts marshal marshal_doc now
                suffix ulid fuel r s)
            none_made,
      )
