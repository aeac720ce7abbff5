-- ===== src/Schema.antt =====
-- pkg/schema: the canonical log event, its validation and its three wire formats.
pub mod Time
pub mod Level
pub mod Scan
pub mod Attrs
pub mod Event
pub mod Rest
pub mod Wire
pub mod Otlp
