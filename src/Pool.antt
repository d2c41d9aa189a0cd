-- ===== src/Pool.antt =====
-- The process pool: internal/pool.
pub mod Types
pub mod Process
pub mod Config
pub mod Manager
pub mod Execute
pub mod Goroutines
pub mod Samples
