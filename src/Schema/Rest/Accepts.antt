-- ===== src/Schema/Rest/Accepts.antt =====
-- Which payloads `FromREST` accepts, and what the events that it gives have in common.
use mathlib.Core.Path.{subst}
use apexio.Base.{◌≡◌, sym, ◌≢◌, ◌↔◌, ◌⊎◌, inl, inr, true, ok, [], arith}
use apexio.Base.Text.{Text, Unicode, HasCases}
use apexio.Base.Text.Trim.{IsBlank}
use apexio.Schema.Time.{Time, zero_time}
use apexio.Schema.Level.{valid_log_level, normalize_log_level}
use apexio.Schema.Level.Normal.{
  IsLevel, IsLevel-normalize_log_level, valid_log_level_of_IsLevel, normalize_log_level_idem,
}
use apexio.Schema.Event.{LogEvent}
use apexio.Schema.Event.Valid.{IsValid, validate-none_iff}
use apexio.Schema.Rest.{RestPayload, checked, rest_time, rest_event, from_rest}

module _ ⦃u : Unicode⦄ where
  pub checked_iff : (e : LogEvent) → (checked e ≡ ok e) ↔ IsValid e
  checked_iff e = ground (arith, validate-none_iff e)

  pub checked-ok : (e : LogEvent) {r : LogEvent} → checked e ≡ ok r → (r ≡ e) × IsValid e
  checked-ok e h = ground (arith, validate-none_iff e)

  pub record IsAcceptable (now : Time) (p : RestPayload) : Type 0 where
    pub has_message : ¬ IsBlank p.message
    pub has_service : ¬ IsBlank p.source.service
    pub has_level : IsBlank p.log_level ⊎ (valid_log_level p.log_level ≡ true)
    pub has_time : rest_time now p.timestamp ≢ zero_time

module _ ⦃u : Unicode⦄ (h : HasCases u) where
  -- A level in normal form that passes `Validate` is one of the five.
  pub normalize_log_level-IsLevel :
      (l : Text)
      → (normalize_log_level l ≡ []) ⊎ (valid_log_level (normalize_log_level l) ≡ true)
      → IsLevel (normalize_log_level l)
  normalize_log_level-IsLevel l (inl none_left) = subst IsLevel (normalize_log_level_idem h l) (
      (IsLevel-normalize_log_level h (normalize_log_level l)).1
        (inl (subst IsBlank (sym none_left) tt)))
  normalize_log_level-IsLevel l (inr known) =
      subst IsLevel (normalize_log_level_idem h l)
        ((IsLevel-normalize_log_level h (normalize_log_level l)).1 (inr known))

  rest_event-IsValid_iff :
      (now : Time) (p : RestPayload) → IsValid (rest_event now p) ↔ IsAcceptable now p
  unfolding rest_event
  rest_event-IsValid_iff now p = (
    λ v. record {
      has_message = v.has_message;
      has_service = v.has_service;
      has_level =
          (IsLevel-normalize_log_level h p.log_level).0
            (normalize_log_level-IsLevel p.log_level v.level_known);
      has_time = v.has_time;
    },
    λ a. record {
      has_message = a.has_message;
      has_service = a.has_service;
      level_known = inr (
          valid_log_level_of_IsLevel _ ((IsLevel-normalize_log_level h p.log_level).1 a.has_level));
      has_time = a.has_time;
    },
  )

  -- With case tables as documented, `FromREST` gives the mapped event of a payload exactly if the
  -- message and the service are not blank, the level is blank or known, and the time is not the
  -- zero time.
  pub from_rest-ok_iff :
      (now : Time) (p : RestPayload)
      → (from_rest now p ≡ ok (rest_event now p)) ↔ IsAcceptable now p
  unfolding from_rest
  from_rest-ok_iff now p = (
    λ e. (rest_event-IsValid_iff now p).0 ((checked_iff _).0 e),
    λ a. (checked_iff _).1 ((rest_event-IsValid_iff now p).1 a),
  )

  -- An event that `FromREST` gives is valid, and its level is one of the five.
  pub from_rest-IsValid :
      (now : Time) (p : RestPayload) {e : LogEvent}
      → from_rest now p ≡ ok e
      → IsValid e × IsLevel e.log_level
  unfolding from_rest rest_event
  from_rest-IsValid now p {e} same =
      let (is_event, v) = checked_ok_rest in
      subst (λ (x : LogEvent). IsValid x × IsLevel x.log_level) (sym is_event)
        (v, normalize_log_level-IsLevel p.log_level v.level_known)
    where
      checked_ok_rest : (e ≡ rest_event now p) × IsValid (rest_event now p)
      checked_ok_rest = checked-ok (rest_event now p) same
