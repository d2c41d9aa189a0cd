-- ===== src/Main.antt =====
-- The program cmd/worker/main.go: its flags, what it builds from them, and its life from the start to
-- the end.
pub mod Flags
pub mod Setup
pub mod Life
mod Examples
