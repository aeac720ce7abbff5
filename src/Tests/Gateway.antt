-- ===== src/Tests/Gateway.antt =====
-- cmd/gateway at concrete inputs.
use apexio.Base.{ℕ, zero, suc, ◌≡◌, refl, none, some, [], ◌∷◌, ok, err, List, ◌==◌, Result}
use apexio.Base.Text.{codes, contains, has_prefix, to_lower}
use apexio.Errors.{Err, library}
use apexio.Schema.Event.{default_topic}
use apexio.Schema.Rest.{RestPayload}
use apexio.Broker.Interface.{Publisher, IsLog}
use apexio.Broker.Redpanda.Log.{redpanda_publisher, redpanda_publisher-IsLog}
use apexio.Gateway.Ingest.{Decoders, Gateway}
use apexio.Gateway.Otlp.{max_body, read_body, unmarshal, serve_otlp, export}
use apexio.Gateway.Otlp.Exported.{Exported, is_ok, serve_otlp-export}
use apexio.Http.{Request, Body}
use apexio.Tests.Codec.{codec}
use apexio.Tests.Platform.{unicode, floats}
use apexio.Tests.Kafka.{writer, writer-Writes, producer}
use apexio.Tests.Data.{noon, payload, otlp_request}

abbrev publisher : Publisher
publisher = redpanda_publisher writer

abbrev publisher-IsLog : IsLog publisher
publisher-IsLog = redpanda_publisher-IsLog writer writer-Writes

abbrev decode_payload : Body → Result Err RestPayload
decode_payload b = elim b.bytes [ [] ↦ err (library 4) | _ ∷ _ ↦ ok payload ]

-- Decoders that read one payload out of any body, and a request with one record.
abbrev decoders : Decoders
decoders = record {
  decode_rest = decode_payload;
  unmarshal_protojson = λ body. err (library 5);
  unmarshal_proto = λ body. ok otlp_request;
}

abbrev gateway : Gateway publisher
gateway = record {
  bus = producer;
  metrics = record { rest_ok = 0; rest_err = 0; otlp_ok = 0; otlp_err = 0; otlp_logs = 0 };
}

abbrev request : List ℕ → Request
request bytes = record {
  method = codes "POST";
  path = codes "/v1/logs";
  header = λ name. [];
  body = record { bytes = bytes; failure = none };
  ctx = λ i. none;
  clock = λ i. noon;
}

read_body-request : read_body (request (1 ∷ [])).body ≡ ok (1 ∷ [])
unfolding read_body
read_body-request = refl

unmarshal-request :
    unmarshal publisher default_topic decoders (request (1 ∷ [])) (1 ∷ []) ≡ ok otlp_request
unfolding unmarshal contains has_prefix to_lower
unmarshal-request = refl

serve_otlp-export_example :
    ((serve_otlp publisher default_topic decoders (request (1 ∷ [])) gateway).1
      ≡ (export publisher default_topic (λ i. none) (λ i. noon) (some otlp_request) gateway).1)
    × (((serve_otlp publisher default_topic decoders (request (1 ∷ [])) gateway).0.status == 200)
        ≡ is_ok
            (export publisher default_topic (λ i. none) (λ i. noon) (some otlp_request) gateway).0)
serve_otlp-export_example =
    serve_otlp-export publisher default_topic decoders (request (1 ∷ [])) gateway (1 ∷ [])
      otlp_request read_body-request unmarshal-request

zeros : ℕ → List ℕ
zeros zero = []
zeros (suc n) = 0 ∷ zeros n

-- A body of exactly 8 MiB, and a connection that is then lost.
abbrev long_request : Request
long_request = record (request []) {
  body = record { bytes = zeros max_body; failure = some (library 6) };
}
