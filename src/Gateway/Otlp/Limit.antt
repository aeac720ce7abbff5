-- ===== src/Gateway/Otlp/Limit.antt =====
-- cmd/gateway/otlp_http.go: the limit on the body.
use apexio.Base.Text.{Text}
use apexio.Gateway.Ingest.{Gateway}
