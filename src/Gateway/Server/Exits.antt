-- ===== src/Gateway/Server/Exits.antt =====
-- cmd/gateway/main.go: what a run of the gateway over a kafka client has published and counted.
use apexio.Base.{
  ◌%◌, ◌^◌, ◌≤◌, ◌≡◌, refl, ◌∙◌, ap, inl, inr, Bool, true, false, Bool-cases, Option, some, List,
  ◌++◌, length, err, Result-cases, arith, if◌then◌else◌,
}
use apexio.Base.Text.{Text, is_empty, Unicode}
use apexio.Broker.Interface.{Message}
use apexio.Broker.Redpanda.{KafkaWriter, Redpanda, close}
use apexio.Broker.Redpanda.Log.{Writes, redpanda_publisher, redpanda_publisher-IsLog}
use apexio.Errors.{Err}
use apexio.Gateway.Ingest.{Decoders, Gateway}
use apexio.Gateway.Server.{
  Arrival, Answer, start_otlp_grpc, no_metrics, serve_arrivals, Process, broker_failed, grpc_failed,
  serving, returned, stop, main,
}
use apexio.Gateway.Server.Tally.{created, serve_arrivals-Tallied}
use apexio.Gateway.Wiring.{settings}
use apexio.Gateway.Wiring.Guarded.{open_bus-settings}
use apexio.Os.{Env}
use apexio.Schema.Scan.{Floats}
use apexio.Schema.Wire.{Codec}

module _ ⦃u : Unicode⦄ ⦃f : Floats⦄ ⦃c : Codec⦄ (K : KafkaWriter) (W : Writes K)
    (D : Decoders) where
  -- What has been written to kafka, and counted, behind the answers of a run.
  abbrev pub Served : K.State → List Answer → Gateway (redpanda_publisher K) → Type 0
  Served opened answers g =
      ((new : List Message) × (W.written g.bus.writer ≡ W.written opened ++ new)
        × (created answers ≤ length new))
      × (g.metrics.rest_ok ≡ created answers % 2 ^ 64)

  -- How the process may stand.
  abbrev pub Stands : Env → K.State → Option Err → Bool → Process K D → Type 0
  Stands env opened listen_error signaled (broker_failed x) = ⊥
  Stands env opened listen_error signaled (grpc_failed x bus) =
      (listen_error ≡ some x)
      × (is_empty (settings env).otlp_grpc_addr ≡ false)
      × (bus.closed ≡ false)
      × (bus.writer ≡ opened)
  Stands env opened listen_error signaled (serving has_grpc answers g) =
      (signaled ≡ false) × Served opened answers g
  Stands env opened listen_error signaled (returned answers g) =
      (signaled ≡ true)
      × (g.bus.closed ≡ true)
      × (g.bus.has_writer ≡ false)
      × Served opened answers g

  stop-Served :
      (opened : K.State) (answers : List Answer) (g : Gateway (redpanda_publisher K))
      → Served opened answers g
      → ((stop K D g).bus.closed ≡ true)
        × ((stop K D g).bus.has_writer ≡ false)
        × Served opened answers (stop K D g)
  unfolding stop close
  stop-Served opened answers g ((new, put, le), counts) = elim (Bool-cases g.bus.has_writer) [
    | inl has ↦ rw has (refl, refl, ((new, W.written-close g.bus.writer ∙ put, le), counts))
    | inr gone ↦ rw gone (refl, refl, ((new, put, le), counts))
  ]

  Tallied-Served :
      (env : Env) (has_grpc : Bool) (arrivals : List Arrival) (opened : K.State) (bus : Redpanda K)
      → bus.writer ≡ opened
      → let (answers, g) =
          serve_arrivals
            (redpanda_publisher K)
            D
            (settings env)
            has_grpc
            arrivals
            (record { bus = bus; metrics = no_metrics }) in
        Served opened answers g
  unfolding redpanda_publisher-IsLog
  Tallied-Served env has_grpc arrivals opened bus at_start =
      let ((new, put, le), counts) =
        serve_arrivals-Tallied (redpanda_publisher K) (redpanda_publisher-IsLog K W) D
          (settings env) has_grpc arrivals (record { bus = bus; metrics = no_metrics })
          (omega arith) in
      ((new, put ∙ ap (λ w. W.written w ++ new) at_start, le), counts ∙ omega arith)

  grpc_error :
      (addr : Text) (listen_error : Option Err) {x : Err}
      → start_otlp_grpc addr listen_error ≡ err x
      → (listen_error ≡ some x) × (is_empty addr ≡ false)
  unfolding start_otlp_grpc
  grpc_error addr listen_error h = ground (arith, h)

  ended-Stands :
      (env : Env) (opened : K.State) (listen_error : Option Err) (has_grpc : Bool)
      (answers : List Answer) (g : Gateway (redpanda_publisher K))
      → Served opened answers g
      → (signaled : Bool)
      → Stands env opened listen_error signaled
          (if signaled then returned answers (stop K D g) else serving has_grpc answers g)
  ended-Stands env opened listen_error has_grpc answers g served true =
      let (is_closed, no_writer, kept) = stop-Served opened answers g served in
      (refl, is_closed, no_writer, kept)
  ended-Stands env opened listen_error has_grpc answers g served false = (refl, served)

  -- Whatever the environment, what kafka answers, and the requests: the gateway opens its bus. If it
  -- ends because the gRPC server cannot listen, that server has an address, and nothing is written.
  -- Otherwise what is written to kafka is what was there and more behind it, at least one message for
  -- each answer of 201, `rest_ok` is the number of these answers modulo 2^64, and behind the signal
  -- the bus is closed. The kafka client writes what it says that it writes.
  pub main-Stands :
      (env : Env) (opened : K.State) (listen_error : Option Err) (arrivals : List Arrival)
      (signaled : Bool)
      → Stands env opened listen_error signaled (main K D env opened listen_error arrivals signaled)
  unfolding main
  main-Stands env opened listen_error arrivals signaled =
      let (bus, opens, is_open, writes, at_start) = open_bus-settings K env opened in
      rw (opens, main)
        (elim (Result-cases (start_otlp_grpc (settings env).otlp_grpc_addr listen_error)) [
          | inr (x, failed) ↦
              let (refused, addr) = grpc_error (settings env).otlp_grpc_addr listen_error failed in
              rw (failed, main) (refused, addr, is_open, at_start)
          | inl (has_grpc, started) ↦
              rw (started, main)
                (ended-Stands env opened listen_error has_grpc _ _
                  (Tallied-Served env has_grpc arrivals opened bus at_start) signaled)
        ])
