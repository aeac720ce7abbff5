-- ===== src/Schema/Wire/RoundTrip.antt =====
-- What `UnmarshalEvent` makes of the bytes of `MarshalEvent`, and which events have bytes.
use mathlib.Core.Path.{subst}
use apexio.Base.{
  ℕ, ◌≡◌, refl, sym, ◌∙◌, ◌↔◌, ◌⊎◌, inl, inr, true, false, none, some, List, [], ◌∷◌, ok, err,
  Result-cases, ok≢err, arith,
}
use apexio.Base.Text.{Unicode, HasCases}
use apexio.Base.Text.Trim.{IsBlank}
use apexio.Errors.{Err, unsupported_value}
use apexio.Schema.Level.{valid_log_level}
use apexio.Schema.Level.Normal.{IsLevel, IsLevel-normalize_log_level, valid_log_level_of_IsLevel}
use apexio.Schema.Attrs.{Attrs}
use apexio.Schema.Event.{LogEvent, zero_event}
use apexio.Schema.Event.Valid.{IsValid, validate-none_iff}
use apexio.Schema.Rest.{checked}
use apexio.Schema.Rest.Accepts.{checked_iff, checked-ok, normalize_log_level-IsLevel}
use apexio.Schema.Wire.{
  Member, attrs_members, members, assign, assign_all, has_json, Codec, json_marshal, marshal_event,
  with_level, unmarshal_event, ReadsBack,
}

-- A map without entries comes back as the nil map.
abbrev pub omit_empty : Attrs → Attrs
omit_empty none = none
omit_empty (some []) = none
omit_empty (some (e ∷ m)) = some (e ∷ m)

assign_all-attrs_members :
    (e : LogEvent) (a : Attrs)
    → e.attrs ≡ none
    → assign_all e (attrs_members a) ≡ record e { attrs = omit_empty a }
unfolding assign_all assign
assign_all-attrs_members e none h = λ i. record e { attrs = h i }
assign_all-attrs_members e (some []) h = λ i. record e { attrs = h i }
assign_all-attrs_members e (some (x ∷ m)) h = refl

-- Every field has a member of its own.
pub assign_all-members :
    (e : LogEvent) → assign_all zero_event (members e) ≡ record e { attrs = omit_empty e.attrs }
unfolding assign_all assign members
assign_all-members e = assign_all-attrs_members (record e { attrs = none }) e.attrs refl

module _ ⦃u : Unicode⦄ (h : HasCases u) where
  -- A valid level stays valid in normal form, the empty one too.
  pub with_level-IsValid : (e : LogEvent) → IsValid e → IsValid (with_level e)
  with_level-IsValid e v = record {
    has_message = v.has_message;
    has_service = v.has_service;
    level_known = inr (
        valid_log_level_of_IsLevel _
          ((IsLevel-normalize_log_level h e.log_level).1 (blank_or_known v.level_known)));
    has_time = v.has_time;
  }
    where
      blank_or_known :
          (e.log_level ≡ []) ⊎ (valid_log_level e.log_level ≡ true)
          → IsBlank e.log_level ⊎ (valid_log_level e.log_level ≡ true)
      blank_or_known (inl empty) = inl (subst IsBlank (sym empty) tt)
      blank_or_known (inr known) = inr known

-- What is left of an event on the far side of the broker.
abbrev pub delivered : ⦃u : Unicode⦄ → LogEvent → LogEvent
delivered e = with_level (record e { attrs = omit_empty e.attrs })

module _ ⦃u : Unicode⦄ ⦃c : Codec⦄ where
  -- `MarshalEvent` gives the encoded members of an event exactly if the event is valid and its
  -- time and its duration have a JSON form.
  pub marshal_event-ok_iff :
      (e : LogEvent)
      → (marshal_event e ≡ ok (c.encode (members e))) ↔ (IsValid e × (has_json e ≡ true))
  unfolding marshal_event json_marshal
  marshal_event-ok_iff e = ground (arith, validate-none_iff e)

  pub marshal_event_bytes :
      (e : LogEvent) {bytes : List ℕ}
      → marshal_event e ≡ ok bytes
      → (bytes ≡ c.encode (members e)) × IsValid e × (has_json e ≡ true)
  unfolding marshal_event json_marshal
  marshal_event_bytes e same = ground (arith, validate-none_iff e)

  -- `MarshalEvent` refuses a valid event whose time or duration has no JSON form.
  pub marshal_event_unsupported :
      (e : LogEvent) → IsValid e → has_json e ≡ false → marshal_event e ≡ err unsupported_value
  unfolding marshal_event json_marshal
  marshal_event_unsupported e v no_json = ground (arith, validate-none_iff e)

  unmarshal_event-decode :
      (bytes : List ℕ) {ms : List Member}
      → c.decode bytes ≡ ok ms
      → unmarshal_event bytes ≡ checked (with_level (assign_all zero_event ms))
  unfolding unmarshal_event
  unmarshal_event-decode bytes e = rw e

  unmarshal_event-decode_err :
      (bytes : List ℕ) {x : Err} → c.decode bytes ≡ err x → unmarshal_event bytes ≡ err x
  unfolding unmarshal_event
  unmarshal_event-decode_err bytes e = rw e

  -- With case tables as documented and a codec that reads back what it has written,
  -- `UnmarshalEvent` gives, for the bytes that `MarshalEvent` made of an event, that event with
  -- its level in normal form and with the nil map in place of an empty one.
  pub unmarshal_event-marshal_event :
      HasCases u
      → ReadsBack c
      → (e : LogEvent) {bytes : List ℕ} → marshal_event e ≡ ok bytes
      → unmarshal_event bytes ≡ ok (delivered e)
  unmarshal_event-marshal_event h r e {bytes} same =
      let (is_encoded, v, j) = marshal_event_bytes e same in
      rw is_encoded (
        unmarshal_event-decode (c.encode (members e)) (r.decode-encode e j)
        ∙ rw (assign_all-members e) ((checked_iff _).1 (delivered-IsValid v)))
    where
      delivered-IsValid : IsValid e → IsValid (delivered e)
      delivered-IsValid v =
          with_level-IsValid h (record e { attrs = omit_empty e.attrs })
            (record {
              has_message = v.has_message;
              has_service = v.has_service;
              level_known = v.level_known;
              has_time = v.has_time;
            })

  -- Whatever the bytes, an event that `UnmarshalEvent` gives is valid and has one of the five
  -- levels, if the case tables are as documented.
  pub unmarshal_event-IsValid :
      HasCases u
      → (bytes : List ℕ) {e : LogEvent} → unmarshal_event bytes ≡ ok e
      → IsValid e × IsLevel e.log_level
  unmarshal_event-IsValid h bytes {e} same = elim (Result-cases (c.decode bytes)) [
    | inl (ms, decoded) ↦ read ms (sym (unmarshal_event-decode bytes decoded) ∙ same)
    | inr (x, failed) ↦ absurd (ok≢err (sym same ∙ unmarshal_event-decode_err bytes failed))
  ]
    where
      read :
          (ms : List Member)
          → checked (with_level (assign_all zero_event ms)) ≡ ok e
          → IsValid e × IsLevel e.log_level
      read ms passed =
          let (is_event, v) = checked-ok (with_level (assign_all zero_event ms)) passed in
          subst (λ (x : LogEvent). IsValid x × IsLevel x.log_level) (sym is_event)
            (v, normalize_log_level-IsLevel h (assign_all zero_event ms).log_level v.level_known)
