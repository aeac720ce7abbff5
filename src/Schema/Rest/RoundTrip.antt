-- ===== src/Schema/Rest/RoundTrip.antt =====
-- `FromREST` and `ToREST` are inverse on the events that REST can express.
use mathlib.Core.Path.{subst}
use apexio.Base.{ℕ, ◌<◌, ◌^◌, ◌≡◌, sym, ◌∙◌, ap, ◌≢◌, none, ok, [], ◌∷◌, arith}
use apexio.Base.Int.{pos, wrap_to, int64, int64_bounds, wrap_to-lt, wrap_to-int64}
use apexio.Base.Text.{Unicode, HasCases}
use apexio.Schema.Time.{Time, IsMilli, milli_word, milli_word-unix_milli, unix_milli-milli_word}
use apexio.Schema.Level.{normalize_log_level}
use apexio.Schema.Level.Normal.{normalize_log_level_idem}
use apexio.Schema.Attrs.{Attrs, merge_attrs}
use apexio.Schema.Attrs.Merge.{
  IsCanonical, merge_attrs-IsCanonical, clone_map_canonical, merge_attrs_canonical,
}
use apexio.Schema.Event.{LogEvent}
use apexio.Schema.Event.Valid.{IsValid}
use apexio.Schema.Rest.{RestPayload, rest_time, rest_event, from_rest, to_rest}
use apexio.Schema.Rest.Accepts.{checked_iff, checked-ok}

-- The events that the REST form holds in full: valid, with a level in normal form, a time of whole
-- milliseconds which is not the epoch, a status of 16 bits and attributes as a merge gives them.
pub record IsRestEvent ⦃u : Unicode⦄ (e : LogEvent) : Type 0 where
  pub valid : IsValid e
  pub level_normal : normalize_log_level e.log_level ≡ e.log_level
  pub milli : IsMilli e.timestamp
  pub not_epoch : milli_word e.timestamp ≢ 0
  pub status_fits : e.response_status < 2 ^ 16
  pub attrs_canonical : IsCanonical e.attrs

wrap_to-pos : (n : ℕ) → n < 2 ^ 16 → wrap_to (2 ^ 16) (pos n) ≡ n
unfolding wrap_to
wrap_to-pos n h = omega arith

rest_time-milli_word :
    (now t : Time) → IsMilli t → milli_word t ≢ 0 → rest_time now (milli_word t) ≡ t
unfolding rest_time
rest_time-milli_word now t m ne = ground (arith, unix_milli-milli_word t m)

module _ ⦃u : Unicode⦄ where
  rest_event-to_rest : (now : Time) (e : LogEvent) → IsRestEvent e → rest_event now (to_rest e) ≡ e
  unfolding rest_event to_rest
  rest_event-to_rest now e h = λ i. record {
    timestamp = rest_time-milli_word now e.timestamp h.milli h.not_epoch i;
    id = e.id;
    log_level = h.level_normal i;
    message = e.message;
    service = e.service;
    host = e.host;
    environment = e.environment;
    request_id = e.request_id;
    client_ip = e.client_ip;
    user_agent = e.user_agent;
    request_method = e.request_method;
    request_path = e.request_path;
    response_status = wrap_to-pos e.response_status h.status_fits i;
    response_duration_ms = e.response_duration_ms;
    attrs =
        (ap (λ (m : Attrs). merge_attrs (none ∷ m ∷ []))
              (clone_map_canonical e.attrs h.attrs_canonical)
            ∙ merge_attrs_canonical e.attrs h.attrs_canonical)
          i;
  }

  -- `FromREST` gives an event back from its `ToREST` payload if the event is valid, its level is
  -- in normal form, its time is of whole milliseconds in 64 bits and not the epoch, its status has
  -- 16 bits, and its attributes are no empty map and have no empty key.
  pub from_rest-to_rest :
      (now : Time) (e : LogEvent) → IsRestEvent e → from_rest now (to_rest e) ≡ ok e
  unfolding from_rest
  from_rest-to_rest now e h = rw (rest_event-to_rest now e h) ((checked_iff e).1 h.valid)

module _ ⦃u : Unicode⦄ (h : HasCases u) where
  rest_time-IsMilli : (now : Time) (ts : ℕ) → ts < 2 ^ 64 → ts ≢ 0 → IsMilli (rest_time now ts)
  unfolding rest_time
  rest_time-IsMilli now ts fits ne = record {
    ms = int64 ts;
    fits_int64 = int64_bounds ts fits;
    eq_unix_milli = ground arith;
  }

  rest_time-not_epoch :
      (now : Time) (ts : ℕ) → ts < 2 ^ 64 → ts ≢ 0 → milli_word (rest_time now ts) ≢ 0
  unfolding rest_time
  rest_time-not_epoch now ts fits ne =
      ground (arith, milli_word-unix_milli (int64 ts), wrap_to-int64 ts fits)

  -- An accepted payload with a time of its own gives an event that the REST form holds in full.
  pub from_rest-IsRestEvent :
      (now : Time) (p : RestPayload) {e : LogEvent}
      → p.timestamp < 2 ^ 64
      → p.timestamp ≢ 0
      → from_rest now p ≡ ok e
      → IsRestEvent e
  unfolding from_rest
  from_rest-IsRestEvent now p fits ne same =
      let (is_event, v) = checked-ok (rest_event now p) same in
      subst IsRestEvent (sym is_event) (mapped v)
    where
      mapped : IsValid (rest_event now p) → IsRestEvent (rest_event now p)
      mapped v =
          unfold rest_event in
          record {
            valid = v;
            level_normal = normalize_log_level_idem h p.log_level;
            milli = rest_time-IsMilli now p.timestamp fits ne;
            not_epoch = rest_time-not_epoch now p.timestamp fits ne;
            status_fits = wrap_to-lt (2 ^ 16) p.metadata.response_status (omega arith);
            attrs_canonical = merge_attrs-IsCanonical p.source.extra p.metadata.extra;
          }

  -- An event that `FromREST` has made from a payload whose timestamp is a 64-bit word other than 0
  -- is what `FromREST` gives, at any later time, for the payload that `ToREST` makes of it. The
  -- case tables are as documented.
  pub from_rest-to_rest-from_rest :
      (now later : Time) (p : RestPayload) {e : LogEvent}
      → p.timestamp < 2 ^ 64
      → p.timestamp ≢ 0
      → from_rest now p ≡ ok e
      → from_rest later (to_rest e) ≡ ok e
  from_rest-to_rest-from_rest now later p {e} fits ne same =
      from_rest-to_rest later e (from_rest-IsRestEvent now p fits ne same)
