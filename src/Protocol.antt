-- ===== src/Protocol.antt =====
-- internal/protocol: the payloads, the internal messages and the Celery protocol in JSON.
pub mod Payload
pub mod Message
pub mod Celery
