-- ===== src/Schema/Rest.antt =====
-- The REST mapping of pkg/schema/event.go: `FromREST` and `ToREST`.
pub mod Accepts
pub mod RoundTrip
use apexio.Base.{ℕ, ◌^◌, [], ◌∷◌, none, some, Result, ok, err, ◌==◌, if◌then◌else◌}
use apexio.Base.Int.{ℤ, pos, int64, wrap_to}
use apexio.Base.Text.{Text, Unicode}
use apexio.Errors.{Err}
use apexio.Schema.Time.{Time, unix_milli, milli_word}
use apexio.Schema.Level.{normalize_log_level}
use apexio.Schema.Scan.{Float64}
use apexio.Schema.Attrs.{Attrs, merge_attrs, clone_map}
use apexio.Schema.Event.{LogEvent, validate}

pub record RestMetadata : Type 0 where
  pub request_id : Text
  pub client_ip : Text
  pub user_agent : Text
  pub request_method : Text
  pub request_path : Text
  pub response_status : ℤ
  pub response_duration : Float64
  pub extra : Attrs

pub record RestSource : Type 0 where
  pub host : Text
  pub service : Text
  pub environment : Text
  pub extra : Attrs

-- `id` and `timestamp`, in milliseconds, are 64-bit words.
pub record RestPayload : Type 0 where
  pub id : ℕ
  pub timestamp : ℕ
  pub log_level : Text
  pub message : Text
  pub metadata : RestMetadata
  pub source : RestSource

-- `return ev, nil`, behind `ev.Validate()`.
abbrev pub checked : ⦃u : Unicode⦄ → LogEvent → Result Err LogEvent
checked e = elim (validate e) [ none ↦ ok e | some x ↦ err x ]

-- `now` is what `time.Now()` gives.
unfoldable pub rest_time : Time → ℕ → Time
rest_time now ts = if ts == 0 then now else unix_milli (int64 ts)

module _ ⦃u : Unicode⦄ where
  -- The event of a payload, before it is validated.
  unfoldable pub rest_event : Time → RestPayload → LogEvent
  rest_event now p = record {
    timestamp = rest_time now p.timestamp;
    id = p.id;
    log_level = normalize_log_level p.log_level;
    message = p.message;
    service = p.source.service;
    host = p.source.host;
    environment = p.source.environment;
    request_id = p.metadata.request_id;
    client_ip = p.metadata.client_ip;
    user_agent = p.metadata.user_agent;
    request_method = p.metadata.request_method;
    request_path = p.metadata.request_path;
    response_status = wrap_to (2 ^ 16) p.metadata.response_status;
    response_duration_ms = p.metadata.response_duration;
    attrs = merge_attrs (p.source.extra ∷ p.metadata.extra ∷ []);
  }

  unfoldable pub from_rest : Time → RestPayload → Result Err LogEvent
  from_rest now p = checked (rest_event now p)

unfoldable pub to_rest : LogEvent → RestPayload
to_rest e = record {
  id = e.id;
  timestamp = milli_word e.timestamp;
  log_level = e.log_level;
  message = e.message;
  metadata = record {
    request_id = e.request_id;
    client_ip = e.client_ip;
    user_agent = e.user_agent;
    request_method = e.request_method;
    request_path = e.request_path;
    response_status = pos e.response_status;
    response_duration = e.response_duration_ms;
    extra = clone_map e.attrs;
  };
  source = record { host = e.host; service = e.service; environment = e.environment; extra = none };
}
