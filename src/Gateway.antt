-- ===== src/Gateway.antt =====
-- cmd/gateway: the ingest service. A request is decoded, mapped to events and published.
pub mod Metrics
pub mod Publish
pub mod Ingest
pub mod Rest
pub mod Otlp
pub mod Wiring
pub mod Server
