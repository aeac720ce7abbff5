-- ===== src/Schema/Otlp.antt =====
-- The OTLP mapping of pkg/schema/event.go (`FromOTLPLike`) and pkg/schema/otlp.go. The protobuf
-- messages hold the fields that the source reads; a pointer that may be nil is an `Option`, and an
-- accessor on nil gives the zero value.
pub mod Convert
pub mod Decimal
pub mod Severity
use apexio.Base.{
  ℕ, suc, Bool, true, false, Option, none, some, List, [], ◌∷◌, ◌==◌, leb, if◌then◌else◌,
}
use apexio.Base.{Result, ok, err, ◌>>=◌, map_err, String, ◌+◌, ◌/◌, ◌%◌, ltb, zero, length, ◌++◌}
use apexio.Base.Int.{ℤ, pos, negsuc, int64}
use apexio.Base.Text.{Text, codes, is_empty, Unicode}
use apexio.Base.Dict.{Dict, insert}
use apexio.Errors.{Err, wrap, otlp_record, request_nil}
use apexio.Schema.Time.{Time, is_zero, unix_nano}
use apexio.Schema.Level.{
  level_debug, level_info, level_warn, level_error, level_fatal, normalize_log_level,
}
use apexio.Schema.Scan.{Float64, Floats}
use apexio.Schema.Attrs.{Attrs, merge_attrs, first_attr, parse_uint16_attr, parse_float_attr}
use apexio.Schema.Event.{LogEvent}
use apexio.Schema.Rest.{checked}

-- The cases of `AnyValue`. What `fmt.Sprint` prints of an array or of a list of pairs is up to the
-- protobuf library, and is given with the message; `unset` has no case.
pub data AnyValue : Type 0 where
  string_value : Text → AnyValue
  bool_value : Bool → AnyValue
  int_value : ℤ → AnyValue
  double_value : Float64 → AnyValue
  bytes_value : List ℕ → AnyValue
  array_value kvlist_value : Text → AnyValue
  unset : AnyValue

pub record KeyValue : Type 0 where
  pub key : Text
  pub value : Option AnyValue

-- `time_unix_nano` is a 64-bit word, and `severity_number` an enum.
pub record LogRecord : Type 0 where
  pub time_unix_nano : ℕ
  pub severity_number : ℤ
  pub severity_text : Text
  pub body : Option AnyValue
  pub attributes : List (Option KeyValue)

pub record ScopeLogs : Type 0 where
  pub log_records : List (Option LogRecord)

pub record ResourceLogs : Type 0 where
  pub resource : Option (List (Option KeyValue))
  pub scope_logs : List (Option ScopeLogs)

-- The accessors on a pointer.
abbrev pub get_attributes : Option (List (Option KeyValue)) → List (Option KeyValue)
get_attributes none = []
get_attributes (some kvs) = kvs

abbrev pub get_record : Option LogRecord → LogRecord
get_record (some lr) = lr
get_record none = record {
  time_unix_nano = 0;
  severity_number = pos 0;
  severity_text = [];
  body = none;
  attributes = [];
}

abbrev pub get_log_records : Option ScopeLogs → List (Option LogRecord)
get_log_records none = []
get_log_records (some sl) = sl.log_records

abbrev pub get_resource_logs : Option ResourceLogs → ResourceLogs
get_resource_logs none = record { resource = none; scope_logs = [] }
get_resource_logs (some rl) = rl

-- `strconv.FormatInt(n, 10)`: the digits, on `fuel`; one more than the number is enough.
unfoldable pub digits : ℕ → ℕ → Text → Text
digits zero n acc = acc
digits (suc fuel) n acc =
    let next = (b'0' + n % 10) ∷ acc in
    let rest = digits fuel (n / 10) next in if ltb n 10 then next else rest

abbrev pub format_nat : ℕ → Text
format_nat n = digits (suc n) n []

abbrev pub format_int : ℤ → Text
format_int (pos n) = format_nat n
format_int (negsuc n) = b'-' ∷ format_nat (suc n)

-- `strconv.FormatBool`
abbrev pub format_bool : Bool → Text
format_bool true = codes "true"
format_bool false = codes "false"

module _ ⦃u : Unicode⦄ ⦃f : Floats⦄ where
  unfoldable pub any_value_to_string : Option AnyValue → Text
  unfolding digits
  any_value_to_string none = []
  any_value_to_string (some (string_value s)) = s
  any_value_to_string (some (bool_value b)) = format_bool b
  any_value_to_string (some (int_value n)) = format_int n
  any_value_to_string (some (double_value x)) = f.format x
  any_value_to_string (some (bytes_value bs)) = u.of_bytes bs
  any_value_to_string (some (array_value s)) = s
  any_value_to_string (some (kvlist_value s)) = s
  any_value_to_string (some unset) = []

  -- The loop of `keyValuesToMap`.
  unfoldable pub collect_key_values : Dict Text → List (Option KeyValue) → Dict Text
  collect_key_values out [] = out
  collect_key_values out (none ∷ kvs) = collect_key_values out kvs
  collect_key_values out (some kv ∷ kvs) =
      collect_key_values
        (if is_empty kv.key then out else insert kv.key (any_value_to_string kv.value) out) kvs

  unfoldable pub key_values_to_map : List (Option KeyValue) → Attrs
  key_values_to_map [] = none
  key_values_to_map (kv ∷ kvs) = some (collect_key_values [] (kv ∷ kvs))

-- `n >= k`
abbrev reaches : ℤ → ℕ → Bool
reaches (pos n) k = leb k n
reaches (negsuc n) k = false

-- The enum's FATAL, ERROR, WARN, INFO and DEBUG are 21, 17, 13, 9 and 5.
unfoldable pub severity_number_to_text : ℤ → Text
severity_number_to_text n =
    if reaches n 21
    then level_fatal
    else if reaches n 17
    then level_error
    else if reaches n 13
    then level_warn
    else if reaches n 9
    then level_info
    else if reaches n 5
    then level_debug
    else level_info

-- The arguments of `firstAttr`.
abbrev names : String → String → List Text
names a b = codes a ∷ codes b ∷ []

abbrev names3 : String → String → String → List Text
names3 a b c = codes a ∷ codes b ∷ codes c ∷ []

module _ ⦃u : Unicode⦄ ⦃f : Floats⦄ where
  -- The event of `FromOTLPLike`, before it is validated. `now` is what `time.Now()` gives.
  unfoldable pub otlp_event : Time → Time → Text → Text → Attrs → LogEvent
  otlp_event now ts severity body attrs = record {
    timestamp = if is_zero ts then now else ts;
    id = 0;
    log_level = normalize_log_level severity;
    message = body;
    service = first_attr attrs (names "service.name" "service");
    host = first_attr attrs (names "host.name" "host");
    environment = first_attr attrs (names "deployment.environment" "environment");
    request_id = first_attr attrs (names3 "http.request_id" "request_id" "requestId");
    client_ip = first_attr attrs (names3 "client.address" "client_ip" "clientIp");
    user_agent = first_attr attrs (names3 "user_agent.original" "user_agent" "userAgent");
    request_method =
        first_attr attrs (names3 "http.request.method" "request_method" "requestMethod");
    request_path = first_attr attrs (names3 "url.path" "request_path" "requestPath");
    response_status =
        parse_uint16_attr attrs
          (names3 "http.response.status_code" "response_status" "responseStatus");
    response_duration_ms =
        parse_float_attr attrs
          (names3 "http.server.request.duration" "response_duration_ms" "responseDuration");
    attrs = attrs;
  }

  unfoldable pub from_otlp_like : Time → Time → Text → Text → Attrs → Attrs → Result Err LogEvent
  from_otlp_like now ts severity body resource_attrs log_attrs =
      checked (otlp_event now ts severity body (merge_attrs (resource_attrs ∷ log_attrs ∷ [])))

  -- The time and the severity of a record.
  unfoldable pub record_time : Time → ℕ → Time
  record_time now nanos = if nanos == 0 then now else unix_nano (int64 nanos)

  unfoldable pub record_severity : LogRecord → Text
  record_severity lr =
      if is_empty lr.severity_text
      then severity_number_to_text lr.severity_number
      else lr.severity_text

  -- The body of the innermost loop.
  unfoldable pub event_of_record : Time → Attrs → LogRecord → Result Err LogEvent
  event_of_record now resource_attrs lr =
      from_otlp_like now (record_time now lr.time_unix_nano) (record_severity lr)
        (any_value_to_string lr.body) resource_attrs (key_values_to_map lr.attributes)

  -- The three loops of `LogEventsFromOTLP`, on the events so far. `now i` is the clock when the
  -- record behind `i` events is converted.
  unfoldable pub convert_records :
      (ℕ → Time) → Attrs → List (Option LogRecord) → List LogEvent → Result Err (List LogEvent)
  convert_records now attrs [] events = ok events
  convert_records now attrs (lr ∷ lrs) events = do
    ev ← map_err (wrap otlp_record) (event_of_record (now (length events)) attrs (get_record lr))
    convert_records now attrs lrs (events ++ ev ∷ [])

  unfoldable pub convert_scopes :
      (ℕ → Time) → Attrs → List (Option ScopeLogs) → List LogEvent → Result Err (List LogEvent)
  convert_scopes now attrs [] events = ok events
  convert_scopes now attrs (sl ∷ sls) events = do
    so_far ← convert_records now attrs (get_log_records sl) events
    convert_scopes now attrs sls so_far

  -- `keyValuesToMap(rl.GetResource().GetAttributes())`
  abbrev pub resource_attributes : ResourceLogs → Attrs
  resource_attributes rl = key_values_to_map (get_attributes rl.resource)

  unfoldable pub convert_resources :
      (ℕ → Time) → List (Option ResourceLogs) → List LogEvent → Result Err (List LogEvent)
  convert_resources now [] events = ok events
  convert_resources now (rl ∷ rls) events = do
    so_far ←
        convert_scopes now (resource_attributes (get_resource_logs rl))
          (get_resource_logs rl).scope_logs events
    convert_resources now rls so_far

  unfoldable pub log_events_from_otlp :
      (ℕ → Time) → Option (List (Option ResourceLogs)) → Result Err (List LogEvent)
  log_events_from_otlp now none = err request_nil
  log_events_from_otlp now (some resource_logs) = convert_resources now resource_logs []
