-- ===== src/Outbox.antt =====
-- The transactional outbox: events, the relay to the broker, the consumer, and retention.
pub mod Event
pub mod Relay
pub mod Errors
pub mod Consumer
pub mod Retention
pub mod Tests
