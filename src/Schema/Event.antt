-- ===== src/Schema/Event.antt =====
-- `LogEvent` and its validation, of pkg/schema/event.go.
pub mod Valid
use apexio.Base.{ℕ, Option, none, some, [], not, ◌&&◌, if◌then◌else◌}
use apexio.Base.Text.{Text, codes, is_empty, trim_space, Unicode}
use apexio.Errors.{Err, event_nil, empty_message, empty_service, timestamp_required, invalid_level}
use apexio.Schema.Time.{Time, zero_time, is_zero}
use apexio.Schema.Level.{valid_log_level}
use apexio.Schema.Scan.{Float64}
use apexio.Schema.Attrs.{Attrs}

abbrev pub default_topic : Text
default_topic = codes "logs.ingestion.raw.v1"

pub record LogEvent : Type 0 where
  pub timestamp : Time
  pub id : ℕ
  pub log_level : Text
  pub message : Text
  pub service : Text
  pub host : Text
  pub environment : Text
  pub request_id : Text
  pub client_ip : Text
  pub user_agent : Text
  pub request_method : Text
  pub request_path : Text
  pub response_status : ℕ
  pub response_duration_ms : Float64
  pub attrs : Attrs

-- `LogEvent{}`
abbrev pub zero_event : LogEvent
zero_event = record {
  timestamp = zero_time;
  id = 0;
  log_level = [];
  message = [];
  service = [];
  host = [];
  environment = [];
  request_id = [];
  client_ip = [];
  user_agent = [];
  request_method = [];
  request_path = [];
  response_status = 0;
  response_duration_ms = 0;
  attrs = none;
}

module _ ⦃u : Unicode⦄ where
  unfoldable pub validate : LogEvent → Option Err
  validate e =
      if is_empty (trim_space e.message)
      then some empty_message
      else if is_empty (trim_space e.service)
      then some empty_service
      else if not (is_empty e.log_level) && not (valid_log_level e.log_level)
      then some (invalid_level e.log_level)
      else if is_zero e.timestamp
      then some timestamp_required
      else none

  -- The method on a pointer, which may be nil.
  unfoldable pub validate_pointer : Option LogEvent → Option Err
  validate_pointer none = some event_nil
  validate_pointer (some e) = validate e
