-- ===== src/Tests.antt =====
-- Runs of the models at concrete inputs.
pub mod Codec
pub mod Platform
pub mod Data
pub mod Kafka
mod Schema
mod Store
mod Broker
mod Interleaved
mod Auth
mod Writer
mod Settings
mod Gateway
mod Wiring
mod Client
mod Topics
mod Subscribe
mod Duplicates
mod Pipeline
mod Sample
mod Progress
