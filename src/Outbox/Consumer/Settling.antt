-- ===== src/Outbox/Consumer/Settling.antt =====
-- src/outbox/consumer.ts: how a delivery is settled, and what the counters say.
use nodejs_advanced_homework.Prelude.{
  true, false, Option, some, ◌⊎◌, ◌<◌, ◌≢◌, ◌+◌, ◌≡◌, none, arith, ◌↔◌,
}
use nodejs_advanced_homework.Outbox.Event.{ParsedEvent, parse_order_placed_event}
use nodejs_advanced_homework.Outbox.Consumer.{
  acked, dead_lettered, Outcome, is_marked, Db, Delivery, Env, dropped, requeued, ConsumerStats,
  handle, after_apply, on_error, settle_applied, delivery_count, consumer_max_redeliveries,
}
use nodejs_advanced_homework.Outbox.Consumer.Inbox.{applied_db, Outcomes}

-- A delivery is dropped exactly when its message is no order.placed event; and one that has been
-- redelivered five times or more is not requeued.
handle-settlement :
    (env : Env) (d : Delivery) (db : Db) (stats : ConsumerStats)
    → ((parse_order_placed_event d.content ≡ none) ↔ ((handle env d db stats).settlement ≡ dropped))
      × ((delivery_count d < consumer_max_redeliveries)
          ⊎ ((handle env d db stats).settlement ≢ requeued))
unfolding handle after_apply on_error settle_applied
handle-settlement env d db stats = ((λ h. ground arith, λ h. ground arith), ground arith)

-- How a delivery of a message has been counted: besides in `deliveries` in exactly one counter, and in which.
pub data Counted (db : Db) (stats : ConsumerStats) (o : Outcome) : Option ParsedEvent → Type 0 where
  as_rejected :
      o.settlement ≡ dropped
      → o.stats ≡ record stats { deliveries = stats.deliveries + 1; rejected = stats.rejected + 1 }
      → o.db ≡ db
      → Counted db stats o none
  as_applied :
      (event : ParsedEvent)
      → o.settlement ≡ acked
      → o.stats ≡ record stats { deliveries = stats.deliveries + 1; applied = stats.applied + 1 }
      → is_marked event.event_id db ≡ false
      → o.db ≡ applied_db event db
      → Counted db stats o (some event)
  as_skipped :
      (event : ParsedEvent)
      → o.settlement ≡ acked
      → o.stats ≡ record stats { deliveries = stats.deliveries + 1; skipped = stats.skipped + 1 }
      → is_marked event.event_id o.db ≡ true
      → Outcomes event db o.db
      → Counted db stats o (some event)
  as_requeued :
      (event : ParsedEvent)
      → o.settlement ≡ requeued
      → o.stats ≡ record stats { deliveries = stats.deliveries + 1; requeued = stats.requeued + 1 }
      → Counted db stats o (some event)
  as_failed :
      (event : ParsedEvent)
      → o.settlement ≡ dead_lettered
      → o.stats ≡ record stats { deliveries = stats.deliveries + 1; failed = stats.failed + 1 }
      → Counted db stats o (some event)
