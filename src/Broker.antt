-- ===== src/Broker.antt =====
-- The message broker: internal/broker/broker.go and internal/broker/sqs/fifo.go.
pub mod Message
pub mod Groups
pub mod Config
pub mod Client
pub mod Convert
pub mod Receive
pub mod Requests
pub mod Samples
