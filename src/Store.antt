-- ===== src/Store.antt =====
-- pkg/store: the store of log events.
pub mod Interface
pub mod Memory
pub mod ClickHouse
