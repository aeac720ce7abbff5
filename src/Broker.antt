-- ===== src/Broker.antt =====
-- pkg/broker: the messaging interfaces, the in-process broker and the Redpanda client.
pub mod Interface
pub mod Memory
pub mod Redpanda
