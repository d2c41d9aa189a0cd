-- ===== src/Worker.antt =====
-- internal/worker/worker.go and internal/worker/factory.go: the worker that takes tasks from the
-- broker, runs them on the pool and acknowledges them.
pub mod Types
pub mod Tasks
