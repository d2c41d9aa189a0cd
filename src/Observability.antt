-- ===== src/Observability.antt =====
-- Logging, tracing and metrics: internal/observability.
pub mod Logging
pub mod Tracing
pub mod Metrics
pub mod Samples
mod Examples
