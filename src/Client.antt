-- ===== src/Client.antt =====
-- examples/sample-client/main.go: a client that sends one log over REST, over OTLP, or over both.
pub mod Sent
pub mod Exported
pub mod Exits
use apexio.Base.{
  ℕ, ◌≡◌, ◌==◌, Option, none, some, List, [], ◌∷◌, ◌++◌, Result, ok, err, if◌then◌else◌,
}
use apexio.Base.Int.{pos}
use apexio.Base.Text.{Text, codes, is_empty, text_eq}
use apexio.Errors.{Err, rest_status, otlp_status}
use apexio.Http.{Response}
use apexio.Os.{Env}
use apexio.Schema.Otlp.{
  digits, format_nat, string_value, AnyValue, KeyValue, LogRecord, ScopeLogs, ResourceLogs,
}
use apexio.Schema.Rest.{RestPayload}

unfoldable pub env_or : Env → Text → Text → Text
env_or env key fallback = let v = env key in if is_empty v then fallback else v

-- What `time.Now()` gives, in seconds, milliseconds and nanoseconds since 1970, each time it is read.
pub record Now : Type 0 where
  pub unix : ℕ
  pub unix_milli : ℕ
  pub unix_nano : ℕ

-- `json.Marshal` of the map, which is given by the payload with its fields and zero for those that
-- it lacks, and `proto.Marshal`.
pub record Encoders : Type 0 where
  pub marshal_rest : RestPayload → Result Err (List ℕ)
  pub marshal_proto : List (Option ResourceLogs) → Result Err (List ℕ)

-- The HTTP client: a request is made of a URL, a content type and a body, and posted.
pub record Transport : Type 1 where
  pub World : Type 0
  pub post : Text → Text → List ℕ → World → Result Err Response × World

-- The payload of `sendREST`. The float is 5.5.
unfoldable pub rest_payload : Now → Text → Text → RestPayload
rest_payload now message service = record {
  id = now.unix_nano;
  timestamp = now.unix_milli;
  log_level = codes "INFO";
  message = message;
  metadata = record {
    request_id = codes "sample-req";
    client_ip = [];
    user_agent = [];
    request_method = codes "POST";
    request_path = codes "/sample";
    response_status = pos 200;
    response_duration = 0x4016_0000_0000_0000;
    extra = none;
  };
  source = record {
    host = codes "localhost";
    service = service;
    environment = codes "dev";
    extra = none;
  };
}

abbrev pub attribute : Text → Text → Option KeyValue
attribute key value = some (record { key = key; value = some (string_value value) })

abbrev pub log_record : Now → Text → LogRecord
log_record now message = record {
  time_unix_nano = now.unix_nano;
  severity_number = pos 0;
  severity_text = codes "INFO";
  body = some (string_value message);
  attributes = attribute (codes "http.request.method") (codes "POST") ∷ [];
}

-- The request of `sendOTLP`.
unfoldable pub otlp_request : Now → Text → Text → List (Option ResourceLogs)
otlp_request now message service =
    some (record {
      resource = some (
          attribute (codes "service.name") service
          ∷ attribute (codes "deployment.environment") (codes "dev")
          ∷ []);
      scope_logs = some (record { log_records = some (log_record now message) ∷ [] }) ∷ [];
    })
    ∷ []

-- The flags; `gateway` is unset if it is not given.
pub record Flags : Type 0 where
  pub gateway : Option Text
  pub mode : Text
  pub message : Text
  pub service : Text

module _ (T : Transport) (E : Encoders) (now : Now) where
  -- What follows the post: an answer with another status is an error.
  abbrev pub check_status : ℕ → (ℕ → Err) → Result Err Response × T.World → Option Err × T.World
  check_status want wrong (err x, w) = (some x, w)
  check_status want wrong (ok resp, w) =
      (if resp.status == want then none else some (wrong resp.status), w)

  -- `sendREST`
  unfoldable pub send_rest : Text → Text → Text → T.World → Option Err × T.World
  send_rest gateway message service w = elim (E.marshal_rest (rest_payload now message service)) [
    | err x ↦ (some x, w)
    | ok body ↦
        check_status 201 rest_status
          (T.post (gateway ++ codes "/api/v1/log") (codes "application/json") body w)
  ]

  -- `sendOTLP`
  unfoldable pub send_otlp : Text → Text → Text → T.World → Option Err × T.World
  send_otlp gateway message service w = elim (E.marshal_proto (otlp_request now message service)) [
    | err x ↦ (some x, w)
    | ok body ↦
        check_status 200 otlp_status
          (T.post (gateway ++ codes "/v1/logs") (codes "application/x-protobuf") body w)
  ]

  -- Both, up to the first error.
  unfoldable pub send_both : Text → Text → Text → T.World → Option Err × T.World
  send_both gateway message service w =
      let (e, w') = send_rest gateway (message ++ codes "-rest") service w in
      elim e [
        | some x ↦ (some x, w')
        | none ↦ send_otlp gateway (message ++ codes "-otlp") service w'
      ]

  -- The message, which defaults to one with the time.
  unfoldable pub message_or_time : Text → Text
  unfolding digits
  message_or_time message =
      if is_empty message then codes "sample-client-" ++ format_nat now.unix else message

  abbrev pub gateway_of : Env → Option Text → Text
  gateway_of env (some url) = url
  gateway_of env none = env_or env (codes "APEXIO_GATEWAY") (codes "http://127.0.0.1:18080")

  abbrev pub exit_code : Option Err × T.World → ℕ × T.World
  exit_code (none, w) = (0, w)
  exit_code (some x, w) = (1, w)

  -- `main`, to the exit code of the process.
  unfoldable pub main : Env → Flags → T.World → ℕ × T.World
  main env flags w =
      let gateway = gateway_of env flags.gateway in
      let message = message_or_time flags.message in
      if text_eq flags.mode (codes "rest")
      then exit_code (send_rest gateway message flags.service w)
      else if text_eq flags.mode (codes "otlp")
      then exit_code (send_otlp gateway message flags.service w)
      else if text_eq flags.mode (codes "both")
      then exit_code (send_both gateway message flags.service w)
      else (2, w)
