-- ===== src/Mirror.antt =====
-- internal/mirror: the replication engine.
pub mod Ring
pub mod Breaker
pub mod Retry
pub mod Discovery
pub mod Source
pub mod Emitter
pub mod Parallel
pub mod Lifecycle
pub mod Heartbeat
pub mod Meters
