-- ===== src/Tests/Data.antt =====
-- Events, payloads and times for the tests.
use apexio.Base.{Option, ℕ, ◌≡◌, refl, none, some, [], ◌∷◌, ok, List}
use apexio.Base.Int.{pos}
use apexio.Base.Text.{Text, codes, text_eq, trim_space, to_upper}
use apexio.Schema.Time.{Time, is_zero, in_json_years}
use apexio.Schema.Level.{valid_log_level, known_level}
use apexio.Schema.Scan.{is_finite}
use apexio.Schema.Event.{LogEvent, zero_event, validate}
use apexio.Schema.Event.Valid.{IsValid, validate-none_iff}
use apexio.Schema.Rest.{RestPayload}
use apexio.Schema.Otlp.{LogRecord, KeyValue, ResourceLogs, string_value}
use apexio.Schema.Wire.{marshal_event, members, has_json}
use apexio.Schema.Wire.RoundTrip.{marshal_event-ok_iff}
use apexio.Tests.Codec.{codec}
use apexio.Tests.Platform.{unicode}

abbrev pub noon : Time
noon = record { sec = pos 1_700_000_000; nsec = 123_000_000 }

abbrev pub event : LogEvent
event = record zero_event {
  timestamp = noon;
  id = 7;
  log_level = codes "INFO";
  message = codes "started";
  service = codes "api";
  response_status = 200;
}

abbrev pub second : LogEvent
second = record event { id = 8; message = codes "stopped"; log_level = codes "WARN" }

pub event-IsValid : IsValid event
unfolding validate trim_space valid_log_level known_level text_eq is_zero to_upper
event-IsValid = (validate-none_iff event).0 refl

pub second-IsValid : IsValid second
unfolding validate trim_space valid_log_level known_level text_eq is_zero to_upper
second-IsValid = (validate-none_iff second).0 refl

-- The bytes of the events on the wire.
abbrev pub event_bytes : List ℕ
event_bytes = codec.encode (members event)

abbrev pub second_bytes : List ℕ
second_bytes = codec.encode (members second)

pub marshal-event : marshal_event event ≡ ok event_bytes
unfolding has_json in_json_years is_finite
marshal-event = (marshal_event-ok_iff event).1 (event-IsValid, refl)

pub marshal-second : marshal_event second ≡ ok second_bytes
unfolding has_json in_json_years is_finite
marshal-second = (marshal_event-ok_iff second).1 (second-IsValid, refl)

abbrev pub payload : RestPayload
payload = record {
  id = 7;
  timestamp = 1_700_000_000_123;
  log_level = codes " info ";
  message = codes "started";
  metadata = record {
    request_id = [];
    client_ip = [];
    user_agent = [];
    request_method = [];
    request_path = [];
    response_status = pos 200;
    response_duration = 0;
    extra = none;
  };
  source = record { host = []; service = codes "api"; environment = []; extra = none };
}

abbrev pub attribute : Text → Text → Option KeyValue
attribute k v = some (record { key = k; value = some (string_value v) })

abbrev pub log_record : LogRecord
log_record = record {
  time_unix_nano = 1_700_000_000_123_000_000;
  severity_number = pos 9;
  severity_text = [];
  body = some (string_value (codes "started"));
  attributes = attribute (codes "zone") (codes "a") ∷ [];
}

abbrev pub otlp_request : List (Option ResourceLogs)
otlp_request =
    some (record {
      resource = some (attribute (codes "service.name") (codes "api") ∷ []);
      scope_logs = some (record { log_records = some log_record ∷ [] }) ∷ [];
    })
    ∷ []
