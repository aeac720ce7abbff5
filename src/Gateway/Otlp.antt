-- ===== src/Gateway/Otlp.antt =====
-- cmd/gateway/otlp_http.go and cmd/gateway/otlp_grpc.go: the two OTLP handlers.
pub mod Exported
pub mod Limit
use apexio.Base.{
  ℕ, ◌*◌, ◌^◌, Bool, true, false, Option, none, some, List, [], ◌∷◌, Result, ok, err, length, take,
  ltb, if◌then◌else◌,
}
use apexio.Base.Text.{Text, codes, contains, to_lower, Unicode}
use apexio.Errors.{Err, Ctx, wrap, publish_failed}
use apexio.Schema.Time.{Time}
use apexio.Schema.Event.{LogEvent}
use apexio.Schema.Scan.{Floats}
use apexio.Schema.Otlp.{ResourceLogs, log_events_from_otlp}
use apexio.Broker.Interface.{Publisher}
use apexio.Gateway.Metrics.{inc_otlp_ok, inc_otlp_err}
use apexio.Gateway.Publish.{publish_events}
use apexio.Gateway.Ingest.{Decoders, Gateway, write_err}
use apexio.Http.{Body, Request, Response, Handler, write_header}

-- `8<<20`
abbrev pub max_body : ℕ
max_body = 8 * 2 ^ 20

-- `io.ReadAll(io.LimitReader(b, 8<<20))`: the reader ends at the limit, without an error.
unfoldable pub read_body : Body → Result Err (List ℕ)
read_body b =
    if ltb (length b.bytes) max_body
    then elim b.failure [ some x ↦ err x | none ↦ ok b.bytes ]
    else ok (take max_body b.bytes)

-- `ExportLogsServiceResponse`, which is left empty.
pub data ExportResponse : Type 0 where
  export_response : ExportResponse

module _ ⦃u : Unicode⦄ ⦃f : Floats⦄ (P : Publisher) (topic : Text) where
  abbrev pub counted : ℕ → Gateway P → Gateway P
  counted n g = record g { metrics = inc_otlp_ok n g.metrics }

  abbrev pub refused : Gateway P → Gateway P
  refused g = record g { metrics = inc_otlp_err g.metrics }

  -- What follows the mapping of a request to events, in `Export`.
  abbrev pub export_events :
      (ℕ → Ctx) → List LogEvent → Gateway P → Result Err ExportResponse × Gateway P
  export_events ctx [] g = (ok export_response, counted 0 g)
  export_events ctx (e ∷ events) g =
      let (o, s) = publish_events P ctx topic (e ∷ events) g.bus in
      elim o [
        | some x ↦ (err (wrap publish_failed x), refused (record g { bus = s }))
        | none ↦ (ok export_response, counted (length (e ∷ events)) (record g { bus = s }))
      ]

  -- `Export` of `otlpGRPCServer`, where a request that is nil is `none`.
  unfoldable pub export :
      (ℕ → Ctx)
      → (ℕ → Time)
      → Option (List (Option ResourceLogs))
      → Gateway P
      → Result Err ExportResponse × Gateway P
  export ctx clock req g = elim (log_events_from_otlp clock req) [
    | err x ↦ (err x, refused g)
    | ok events ↦ export_events ctx events g
  ]

  module _ (D : Decoders) where
    abbrev fail : ℕ → Text → Err → Gateway P → Response × Gateway P
    fail code msg x g = (write_err code msg x, refused g)

    -- What follows the mapping of a request to events, in `ServeHTTP`.
    abbrev pub serve_events : Request → List LogEvent → Gateway P → Response × Gateway P
    serve_events r [] g = (write_header 200, counted 0 g)
    serve_events r (e ∷ events) g =
        let (o, s) = publish_events P r.ctx topic (e ∷ events) g.bus in
        elim o [
          | some x ↦ fail 502 (codes "publish failed") x (record g { bus = s })
          | none ↦ (write_header 200, counted (length (e ∷ events)) (record g { bus = s }))
        ]

    abbrev pub serve_request :
        Request → List (Option ResourceLogs) → Gateway P → Response × Gateway P
    serve_request r req g = elim (log_events_from_otlp r.clock (some req)) [
      | err x ↦ fail 400 (codes "otlp mapping failed") x g
      | ok events ↦ serve_events r events g
    ]

    abbrev is_json : Request → Bool
    is_json r = contains (codes "json") (to_lower (r.header (codes "Content-Type")))

    -- The switch on the content type.
    unfoldable pub unmarshal : Request → List ℕ → Result Err (List (Option ResourceLogs))
    unmarshal r body = if is_json r then D.unmarshal_protojson body else D.unmarshal_proto body

    abbrev invalid : Request → Text
    invalid r = if is_json r then codes "invalid otlp json" else codes "invalid otlp protobuf"

    abbrev pub serve_body : Request → List ℕ → Gateway P → Response × Gateway P
    serve_body r body g = elim (unmarshal r body) [
      | err x ↦ fail 400 (invalid r) x g
      | ok req ↦ serve_request r req g
    ]

    -- `ServeHTTP` of `otlpHTTPHandler`
    unfoldable pub serve_otlp : Handler (Gateway P)
    serve_otlp r g = elim (read_body r.body) [
      | err x ↦ fail 400 (codes "read body failed") x g
      | ok body ↦ serve_body r body g
    ]
