-- ===== src/Pipeline.antt =====
-- src/orders/place-order.ts, src/outbox/: from a placed order to its confirmation, over the outbox, the relay
-- and the consumer.
pub mod Effects
pub mod Confirmed
pub mod Tests
