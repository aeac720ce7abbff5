-- ===== src/Gateway/Wiring.antt =====
-- cmd/gateway/main.go: the settings from the environment, the broker they open, and the two ingest
-- routes with their middleware.
pub mod Guarded
use apexio.Base.{ℕ, Option, List, [], ◌∷◌, Result, if◌then◌else◌}
use apexio.Base.Text.{Text, codes, is_empty, split, Unicode}
use apexio.Errors.{Err}
use apexio.Schema.Event.{default_topic}
use apexio.Schema.Scan.{Floats}
use apexio.Auth.{api_key, chain}
use apexio.Broker.Interface.{Publisher}
use apexio.Broker.Redpanda.{KafkaWriter, Redpanda, RedpandaConfig, new_redpanda}
use apexio.Gateway.Ingest.{Decoders, Gateway}
use apexio.Gateway.Rest.{serve_rest}
use apexio.Gateway.Otlp.{serve_otlp}
use apexio.Gateway.Metrics.{metrics_text}
use apexio.Http.{Handler, ok_page, metrics_reply}
use apexio.Http.Mux.{Route, serve_mux}
use apexio.Os.{Env}

unfoldable pub env_or : Env → Text → Text → Text
env_or env key fallback = let v = env key in if is_empty v then fallback else v

pub record Settings : Type 0 where
  pub addr : Text
  pub otlp_grpc_addr : Text
  pub brokers : List Text
  pub topic : Text
  pub client_id : Text
  pub key : Text
  pub key_header : Text

unfoldable pub settings : Env → Settings
settings env = record {
  addr = env_or env (codes "GATEWAY_ADDR") (codes ":8080");
  otlp_grpc_addr = env_or env (codes "GATEWAY_OTLP_GRPC_ADDR") (codes ":4317");
  brokers = split b',' (env_or env (codes "REDPANDA_BROKERS") (codes "localhost:19092"));
  topic = env_or env (codes "LOG_TOPIC") default_topic;
  client_id = env_or env (codes "REDPANDA_CLIENT_ID") (codes "apexio-gateway");
  key = env_or env (codes "GATEWAY_API_KEY") [];
  key_header = env_or env (codes "GATEWAY_API_KEY_HEADER") (codes "X-API-Key");
}

-- The bus, from the writer that the client opens.
unfoldable pub open_bus : (K : KafkaWriter) → Settings → K.State → Result Err (Redpanda K)
open_bus K cfg opened =
    new_redpanda K (record { brokers = cfg.brokers; client_id = cfg.client_id; group_id = [] })
      opened

module _ ⦃u : Unicode⦄ ⦃f : Floats⦄ (P : Publisher) (D : Decoders) (cfg : Settings) where
  -- `POST /api/v1/log`
  unfoldable pub log_route : Handler (Gateway P)
  log_route = chain (serve_rest P D cfg.topic) (api_key cfg.key_header cfg.key ∷ [])

  -- `POST /v1/logs`
  unfoldable pub otlp_route : Handler (Gateway P)
  otlp_route = chain (serve_otlp P cfg.topic D) (api_key cfg.key_header cfg.key ∷ [])

  -- `GET /healthz`
  unfoldable pub healthz : Handler (Gateway P)
  healthz r g = (ok_page, g)

  -- `GET /metrics`
  unfoldable pub metrics_page : Handler (Gateway P)
  metrics_page r g = (metrics_reply (metrics_text g.metrics), g)

  -- The patterns of the mux.
  unfoldable pub routes : List (Route (Gateway P))
  routes =
      record { method = codes "GET"; path = codes "/healthz"; handler = healthz }
      ∷ record { method = codes "GET"; path = codes "/metrics"; handler = metrics_page }
      ∷ record { method = codes "POST"; path = codes "/api/v1/log"; handler = log_route }
      ∷ record { method = codes "POST"; path = codes "/v1/logs"; handler = otlp_route }
      ∷ []

  -- The handler of the server.
  unfoldable pub serve : Handler (Gateway P)
  serve = serve_mux routes
