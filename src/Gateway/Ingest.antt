-- ===== src/Gateway/Ingest.antt =====
-- What the handlers of cmd/gateway share: their state, the decoders they call, and `writeErr`.
use apexio.Base.{ℕ, List, Option, Result}
use apexio.Base.Text.{Text, codes}
use apexio.Errors.{Err}
use apexio.Schema.Rest.{RestPayload}
use apexio.Schema.Otlp.{ResourceLogs}
use apexio.Broker.Interface.{Publisher}
use apexio.Gateway.Metrics.{IngestMetrics}
use apexio.Http.{Body, Response, error_reply}

-- The decoders of encoding/json, protojson and proto into the types of a request.
pub record Decoders : Type 0 where
  pub decode_rest : Body → Result Err RestPayload
  pub unmarshal_protojson : List ℕ → Result Err (List (Option ResourceLogs))
  pub unmarshal_proto : List ℕ → Result Err (List (Option ResourceLogs))

-- The bus behind the `publisher`, and the counters.
pub record Gateway (P : Publisher) : Type 0 where
  pub bus : P.State
  pub metrics : IngestMetrics

unfoldable pub write_err : ℕ → Text → Err → Response
write_err code msg e = record {
  status = code;
  content_type = codes "application/json";
  reply = error_reply msg e;
}
