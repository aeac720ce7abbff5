-- ===== src/Writer.antt =====
-- cmd/writer: the batch processor and the consumer loop between the broker and the store.
pub mod Metrics
pub mod Batch
pub mod Consumer
pub mod Health
pub mod Settings
pub mod Main
