-- ===== src/Gateway/Server.antt =====
-- cmd/gateway/main.go, `main`, and `startOTLPGRPC` of cmd/gateway/otlp_grpc.go: the process, and what
-- it does with the requests of both servers. A handler is one step, so that the requests of a run
-- are a list. The log lines are not modelled, nor an HTTP server that cannot listen, which ends the
-- process at any time.
pub mod Tally
pub mod Exits
use apexio.Base.{
  ℕ, Bool, true, false, Option, none, some, List, [], ◌∷◌, Result, ok, err, if◌then◌else◌,
}
use apexio.Base.Text.{Text, is_empty, Unicode}
use apexio.Errors.{Err, Ctx}
use apexio.Os.{Env}
use apexio.Broker.Interface.{Publisher}
use apexio.Broker.Redpanda.{KafkaWriter, Redpanda, close}
use apexio.Broker.Redpanda.Log.{redpanda_publisher}
use apexio.Gateway.Ingest.{Decoders, Gateway}
use apexio.Gateway.Metrics.{IngestMetrics}
use apexio.Gateway.Otlp.{ExportResponse, export}
use apexio.Gateway.Wiring.{Settings, settings, open_bus, serve}
use apexio.Http.{Request, Response}
use apexio.Schema.Otlp.{ResourceLogs}
use apexio.Schema.Scan.{Floats}
use apexio.Schema.Time.{Time}
use apexio.Schema.Wire.{Codec}

-- `startOTLPGRPC`, by what `net.Listen` gives: whether there is a server.
unfoldable pub start_otlp_grpc : Text → Option Err → Result Err Bool
start_otlp_grpc addr listen_error =
    if is_empty addr then ok false else elim listen_error [ some x ↦ err x | none ↦ ok true ]

-- `ingestMetrics{}`
abbrev pub no_metrics : IngestMetrics
no_metrics = record { rest_ok = 0; rest_err = 0; otlp_ok = 0; otlp_err = 0; otlp_logs = 0 }

-- A request to one of the two servers, and the answer to it; without a gRPC server there is none.
pub data Arrival : Type 0 where
  http_request : Request → Arrival
  grpc_request : (ℕ → Ctx) → (ℕ → Time) → Option (List (Option ResourceLogs)) → Arrival

pub data Answer : Type 0 where
  http_answer : Response → Answer
  grpc_answer : Result Err ExportResponse → Answer
  no_answer : Answer

module _ ⦃u : Unicode⦄ ⦃f : Floats⦄ (P : Publisher) (D : Decoders) (cfg : Settings)
    (has_grpc : Bool) where
  -- One request. The gRPC server has no middleware.
  unfoldable pub serve_arrival : Arrival → Gateway P → Answer × Gateway P
  serve_arrival (http_request r) g = let (resp, g') = serve P D cfg r g in (http_answer resp, g')
  serve_arrival (grpc_request ctx clock req) g =
      let (res, g') = export P cfg.topic ctx clock req g in
      if has_grpc then (grpc_answer res, g') else (no_answer, g)

  unfoldable pub serve_arrivals : List Arrival → Gateway P → List Answer × Gateway P
  serve_arrivals [] g = ([], g)
  serve_arrivals (a ∷ later) g =
      let (answer, g') = serve_arrival a g in
      let (answers, g'') = serve_arrivals later g' in (answer ∷ answers, g'')

module _ ⦃u : Unicode⦄ ⦃f : Floats⦄ ⦃c : Codec⦄ (K : KafkaWriter) (D : Decoders) where
  -- How far the process is: the two `log.Fatalf`, behind which no deferred call runs; the servers
  -- with their answers so far; or the return of `main`, behind the deferred calls.
  pub data Process : Type 0 where
    broker_failed : Err → Process
    grpc_failed : Err → Redpanda K → Process
    serving : Bool → List Answer → Gateway (redpanda_publisher K) → Process
    returned : List Answer → Gateway (redpanda_publisher K) → Process

  -- Behind the signal both servers stop, and the bus is closed by the deferred `bus.Close`.
  unfoldable pub stop : Gateway (redpanda_publisher K) → Gateway (redpanda_publisher K)
  stop g = record g { bus = (close K g.bus).1 }

  -- What the bus is opened with, what `net.Listen` gives, the requests that are served, and whether
  -- the signal has come. Those that are under way when it comes are served to their end.
  unfoldable pub main : Env → K.State → Option Err → List Arrival → Bool → Process
  main env opened listen_error arrivals signaled = elim (open_bus K (settings env) opened) [
    | err x ↦ broker_failed x
    | ok bus ↦ elim (start_otlp_grpc (settings env).otlp_grpc_addr listen_error) [
      | err x ↦ grpc_failed x bus
      | ok has_grpc ↦
          let start : Gateway (redpanda_publisher K) = record { bus = bus; metrics = no_metrics } in
          let (answers, g) =
            serve_arrivals (redpanda_publisher K) D (settings env) has_grpc arrivals start in
          if signaled then returned answers (stop g) else serving has_grpc answers g
    ]
  ]
