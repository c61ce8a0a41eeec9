-- ===== src/Outbox/Consumer/Tests.antt =====
-- src/outbox/consumer.ts: a delivery, and the same one again after its acknowledgement was lost.
use nodejs_advanced_homework.Outbox.Event.{
  event_json, to_order_placed_event, parse_order_placed_event,
}
use nodejs_advanced_homework.Prelude.{refl, ◌∷◌, true, none, arith, ◌≡◌, [], some}
use nodejs_advanced_homework.Outbox.Tests.{placed_is_read, placed_json, placed_event}
use nodejs_advanced_homework.Outbox.Consumer.{
  acked, apply_order_placed, apply_from, apply_with_retry, settle_applied, is_marked, after_apply,
  empty_stats, done, Delivery, Db, Env, handle, consume,
}
use nodejs_advanced_homework.Outbox.Consumer.Inbox.{
  IsOnce, Outcomes, handle-once, handle-acked-is_marked, consume-IsOnce,
}

abbrev fine : Env
fine = record { answer = λ attempt s. done; after_effect = none; ack_error = none }

abbrev delivery : Delivery
delivery = record { content = some placed_json; delivery_header = some 1; redelivered = true }

abbrev empty_inbox : Db
empty_inbox = record { processed_messages = []; order_confirmations = [] }

handle-once_example :
    Outcomes placed_event empty_inbox (handle fine delivery empty_inbox empty_stats).db
handle-once_example = handle-once fine delivery empty_inbox empty_stats placed_event placed_is_read

empty_inbox-IsOnce : IsOnce empty_inbox
empty_inbox-IsOnce = record { marked = λ id. omega arith; effected = λ o. omega arith }

consume-IsOnce_example :
    IsOnce (consume ((fine, delivery) ∷ (fine, delivery) ∷ []) empty_inbox empty_stats).0
consume-IsOnce_example =
    consume-IsOnce ((fine, delivery) ∷ (fine, delivery) ∷ []) empty_inbox empty_stats
      empty_inbox-IsOnce

delivery_is_acked : (handle fine delivery empty_inbox empty_stats).settlement ≡ acked
unfolding handle after_apply settle_applied apply_with_retry apply_from apply_order_placed is_marked
    parse_order_placed_event event_json to_order_placed_event
delivery_is_acked = refl

handle-acked-is_marked_example :
    is_marked "e1" (handle fine delivery empty_inbox empty_stats).db ≡ true
handle-acked-is_marked_example =
    handle-acked-is_marked fine delivery empty_inbox empty_stats placed_event placed_is_read
      delivery_is_acked
