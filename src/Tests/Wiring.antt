-- ===== src/Tests/Wiring.antt =====
-- The settings of cmd/gateway/main.go, and its routes.
use apexio.Base.{List, some, ◌≡◌, refl, none, [], ◌∷◌, true, false, ok, err, if◌then◌else◌}
use apexio.Base.Text.{codes, text_eq, split, trim_space}
use apexio.Errors.{library}
use apexio.Auth.{admits}
use apexio.Broker.Interface.{Publisher}
use apexio.Broker.Redpanda.Log.{redpanda_publisher}
use apexio.Gateway.Ingest.{Decoders, Gateway}
use apexio.Gateway.Wiring.{env_or, settings, routes, serve}
use apexio.Gateway.Wiring.Guarded.{Routed, serve-Routed}
use apexio.Http.{Request}
use apexio.Http.Mux.{clean_path, clean_parts, serve_mux, route_of, has_path, not_found, not_allowed}
use apexio.Gateway.Server.{Arrival, http_request, grpc_request, main}
use apexio.Gateway.Server.Exits.{Stands, main-Stands}
use apexio.Os.{Env}
use apexio.Tests.Codec.{codec}
use apexio.Tests.Platform.{unicode, floats}
use apexio.Tests.Kafka.{writer, writer-Writes, producer}
use apexio.Tests.Data.{noon, payload, otlp_request}

abbrev with_key : Env
with_key name =
    if text_eq name (codes "GATEWAY_API_KEY")
    then codes "secret"
    else if text_eq name (codes "REDPANDA_BROKERS")
    then codes "a:9092,b:9092"
    else []

brokers-with_key : (settings with_key).brokers ≡ codes "a:9092" ∷ codes "b:9092" ∷ []
unfolding settings env_or split text_eq
brokers-with_key = refl

abbrev pub publisher : Publisher
publisher = redpanda_publisher writer

abbrev decoders : Decoders
decoders = record {
  decode_rest = λ body. ok payload;
  unmarshal_protojson = λ body. err (library 5);
  unmarshal_proto = λ body. ok otlp_request;
}

abbrev pub gateway : Gateway publisher
gateway = record {
  bus = producer;
  metrics = record { rest_ok = 0; rest_err = 0; otlp_ok = 0; otlp_err = 0; otlp_logs = 0 };
}

-- A request with another key.
abbrev request : Request
request = record {
  method = codes "POST";
  path = codes "/api/v1/log";
  header = λ name. codes "guess";
  body = record { bytes = 1 ∷ []; failure = none };
  ctx = λ i. none;
  clock = λ i. noon;
}

-- No key is set.
abbrev pub unset : Env
unset name = []

serve-Routed_example :
    Routed publisher decoders
      (settings unset)
      request
      gateway
      (serve publisher decoders (settings unset) request gateway)
serve-Routed_example = serve-Routed publisher decoders (settings unset) request gateway

-- Two requests to the REST route, a request to another, and one over gRPC.
abbrev arrivals : List Arrival
arrivals =
    http_request request
    ∷ http_request (record request { path = codes "/metrics"; method = codes "HEAD" })
    ∷ grpc_request (λ i. none) (λ i. noon) (some otlp_request)
    ∷ http_request request
    ∷ []

main-Stands_example :
    Stands writer writer-Writes decoders unset [] none true
      (main writer decoders unset [] none arrivals true)
main-Stands_example = main-Stands writer writer-Writes decoders unset [] none arrivals true

-- What the mux makes of paths.
clean_path-up : clean_path (codes "/api/v2/../v1//log") ≡ codes "/api/v1/log"
unfolding clean_path clean_parts split text_eq
clean_path-up = refl

clean_path-slash : clean_path (codes "/v1/./logs/") ≡ codes "/v1/logs/"
unfolding clean_path clean_parts split text_eq
clean_path-slash = refl

page_of-slash :
    serve publisher decoders (settings unset) (record request { path = codes "/healthz/" }) gateway
    ≡ (not_found, gateway)
unfolding serve serve_mux routes route_of has_path clean_path clean_parts split text_eq
page_of-slash = refl

page_of-get :
    serve publisher decoders (settings unset) (record request { method = codes "GET" }) gateway
    ≡ (not_allowed, gateway)
unfolding serve serve_mux routes route_of has_path clean_path clean_parts split text_eq
page_of-get = refl

admits-request : admits (settings with_key).key_header (settings with_key).key request ≡ false
unfolding admits settings env_or text_eq trim_space
admits-request = refl
