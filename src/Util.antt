-- ===== src/Util.antt =====
-- The utilities: src/util.
pub mod Resilience
pub mod Concurrent
pub mod Hash
pub mod Metrics
pub mod Logging
mod Examples
