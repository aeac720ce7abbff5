-- ===== src/Tests/Schema.antt =====
-- pkg/schema at concrete inputs.
use mathlib.Core.Option.{or_else}
use apexio.Base.{◌≡◌, ◌↔◌, refl, some, [], ◌∷◌, true, false, ok, arith, length, All}
use apexio.Base.Int.{int64, wrap_to}
use apexio.Base.Text.{
  codes, text_eq, trim_space, is_space, trim_left, trim_right, upper_rune, to_upper,
}
use apexio.Base.Dict.{lookup, insert}
use apexio.Schema.Time.{is_zero, unix_milli, unix_nano, in_json_years}
use apexio.Schema.Level.{level_info, valid_log_level, known_level, normalize_log_level}
use apexio.Schema.Scan.{digits_value, scan_float, scan_uint, skip_space, is_finite, nan}
use apexio.Schema.Attrs.{
  Attrs, attr, first_attr, parse_attr, parse_float_attr, parse_uint16_attr, merge_attrs, merge_maps,
  merge_map,
}
use apexio.Schema.Attrs.Merge.{attr-merge_attrs}
use apexio.Schema.Event.{LogEvent, validate}
use apexio.Schema.Event.Valid.{IsValid, validate-none_iff}
use apexio.Schema.Rest.{from_rest, to_rest, rest_event, rest_time}
use apexio.Schema.Rest.Accepts.{IsAcceptable, from_rest-ok_iff}
use apexio.Schema.Rest.RoundTrip.{from_rest-to_rest-from_rest}
use apexio.Schema.Wire.{has_json, members, marshal_event, unmarshal_event}
use apexio.Schema.Wire.RoundTrip.{delivered, marshal_event-ok_iff, unmarshal_event-marshal_event}
use apexio.Schema.Otlp.{
  convert_resources, convert_scopes, convert_records, event_of_record, from_otlp_like, otlp_event,
  any_value_to_string, key_values_to_map, collect_key_values, digits, record_severity, record_time,
  severity_number_to_text, log_events_from_otlp,
}
use apexio.Schema.Otlp.Convert.{
  Converts, locate_resources, IsAccepted, log_events_from_otlp-ok_iff,
  log_events_from_otlp-IsAccepted,
}
use apexio.Tests.Codec.{codec, codec-ReadsBack}
use apexio.Tests.Platform.{unicode, unicode-HasCases, floats}
use apexio.Tests.Data.{noon, event, event_bytes, marshal-event, payload, otlp_request}

-- An empty level is INFO, and a level is trimmed.
normalize-payload : normalize_log_level payload.log_level ≡ level_info
unfolding normalize_log_level trim_space to_upper
normalize-payload = refl

from_rest-ok_iff_example :
    (from_rest noon payload ≡ ok (rest_event noon payload)) ↔ IsAcceptable noon payload
from_rest-ok_iff_example = from_rest-ok_iff unicode-HasCases noon payload

from_rest-payload : from_rest noon payload ≡ ok event
unfolding from_rest rest_event validate trim_space valid_log_level known_level text_eq is_zero
    to_upper normalize_log_level rest_time unix_milli int64 merge_attrs wrap_to merge_maps merge_map
from_rest-payload = refl

from_rest-to_rest-from_rest_example : from_rest event.timestamp (to_rest event) ≡ ok event
from_rest-to_rest-from_rest_example =
    from_rest-to_rest-from_rest unicode-HasCases noon event.timestamp payload (omega arith)
      (omega arith) from_rest-payload

marshal_event-ok_iff_example :
    (marshal_event event ≡ ok (codec.encode (members event)))
    ↔ (IsValid event × (has_json event ≡ true))
marshal_event-ok_iff_example = marshal_event-ok_iff event

-- An event whose duration is NaN.
abbrev unmeasured : LogEvent
unmeasured = record event { response_duration_ms = nan }

unmeasured-IsValid : IsValid unmeasured
unfolding validate trim_space valid_log_level known_level text_eq is_zero to_upper
unmeasured-IsValid = (validate-none_iff unmeasured).0 refl

has_json-unmeasured : has_json unmeasured ≡ false
unfolding has_json in_json_years is_finite
has_json-unmeasured = refl

unmarshal_event-marshal_event_example : unmarshal_event event_bytes ≡ ok (delivered event)
unmarshal_event-marshal_event_example =
    unmarshal_event-marshal_event unicode-HasCases codec-ReadsBack event marshal-event

abbrev source_attrs : Attrs
source_attrs = some ((codes "zone", codes "a") ∷ (codes "env", codes "dev") ∷ [])

abbrev metadata_attrs : Attrs
metadata_attrs = some ((codes "env", codes "prod") ∷ [])

-- The metadata wins over the source.
attr-merge_attrs_example :
    attr (merge_attrs (source_attrs ∷ metadata_attrs ∷ [])) (codes "env")
    ≡ or_else (attr metadata_attrs (codes "env")) (attr source_attrs (codes "env"))
unfolding lookup text_eq
attr-merge_attrs_example =
    attr-merge_attrs (codes "env") source_attrs metadata_attrs (refl, (refl, tt)) (refl, tt)

-- The attributes of the resource come first, and those of the record are merged into them.
abbrev sent_event : LogEvent
sent_event = record event {
  id = 0;
  response_status = 0;
  attrs = some ((codes "service.name", codes "api") ∷ (codes "zone", codes "a") ∷ []);
}

log_events_from_otlp-request :
    log_events_from_otlp (λ i. noon) (some otlp_request) ≡ ok (sent_event ∷ [])
unfolding log_events_from_otlp convert_resources convert_scopes convert_records event_of_record
    from_otlp_like otlp_event any_value_to_string key_values_to_map collect_key_values digits
    record_severity record_time severity_number_to_text first_attr parse_attr parse_float_attr
    parse_uint16_attr merge_attrs merge_maps merge_map insert lookup validate trim_space is_space
    trim_left trim_right to_upper upper_rune known_level normalize_log_level valid_log_level text_eq
    int64 is_zero unix_nano digits_value scan_float scan_uint skip_space
log_events_from_otlp-request = refl

log_events_from_otlp-ok_iff_example :
    (log_events_from_otlp (λ i. noon) (some otlp_request) ≡ ok (sent_event ∷ []))
    ↔ Converts (λ i. noon) (locate_resources otlp_request) [] (sent_event ∷ [])
log_events_from_otlp-ok_iff_example =
    log_events_from_otlp-ok_iff (λ i. noon) otlp_request (sent_event ∷ [])

log_events_from_otlp-IsAccepted_example :
    (length (sent_event ∷ []) ≡ length (locate_resources otlp_request))
    × All IsAccepted (sent_event ∷ [])
log_events_from_otlp-IsAccepted_example =
    log_events_from_otlp-IsAccepted unicode-HasCases (λ i. noon) otlp_request
      log_events_from_otlp-request
