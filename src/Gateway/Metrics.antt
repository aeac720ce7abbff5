-- ===== src/Gateway/Metrics.antt =====
-- The counters of cmd/gateway/metrics.go.
use apexio.Base.{ℕ, ◌++◌}
use apexio.Base.Text.{Text, codes}
use apexio.Schema.Otlp.{digits, format_nat}
use apexio.Base.Int.{add_uint64}

pub record IngestMetrics : Type 0 where
  pub rest_ok : ℕ
  pub rest_err : ℕ
  pub otlp_ok : ℕ
  pub otlp_err : ℕ
  pub otlp_logs : ℕ

unfoldable pub inc_rest_ok : IngestMetrics → IngestMetrics
inc_rest_ok m = record m { rest_ok = add_uint64 m.rest_ok 1 }

unfoldable pub inc_rest_err : IngestMetrics → IngestMetrics
inc_rest_err m = record m { rest_err = add_uint64 m.rest_err 1 }

unfoldable pub inc_otlp_ok : ℕ → IngestMetrics → IngestMetrics
inc_otlp_ok n m = record m {
  otlp_ok = add_uint64 m.otlp_ok 1;
  otlp_logs = add_uint64 m.otlp_logs n;
}

unfoldable pub inc_otlp_err : IngestMetrics → IngestMetrics
inc_otlp_err m = record m { otlp_err = add_uint64 m.otlp_err 1 }

-- What `handler` prints.
unfoldable pub metrics_text : IngestMetrics → Text
unfolding digits
metrics_text m =
    codes "# HELP apexio_ingest_requests_total Ingest requests by protocol and outcome\n"
    ++ codes "# TYPE apexio_ingest_requests_total counter\n"
    ++ codes "apexio_ingest_requests_total{protocol=\"rest\",result=\"ok\"} "
    ++ format_nat m.rest_ok
    ++ codes "\n"
    ++ codes "apexio_ingest_requests_total{protocol=\"rest\",result=\"error\"} "
    ++ format_nat m.rest_err
    ++ codes "\n"
    ++ codes "apexio_ingest_requests_total{protocol=\"otlp\",result=\"ok\"} "
    ++ format_nat m.otlp_ok
    ++ codes "\n"
    ++ codes "apexio_ingest_requests_total{protocol=\"otlp\",result=\"error\"} "
    ++ format_nat m.otlp_err
    ++ codes "\n"
    ++ codes "# HELP apexio_ingest_logs_total OTLP log records accepted\n"
    ++ codes "# TYPE apexio_ingest_logs_total counter\n"
    ++ codes "apexio_ingest_logs_total "
    ++ format_nat m.otlp_logs
    ++ codes "\n"
