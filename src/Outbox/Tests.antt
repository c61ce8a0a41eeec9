-- ===== src/Outbox/Tests.antt =====
-- src/outbox/: an order's event from the table to the inbox.
use nodejs_advanced_homework.Prelude.{
  str_eq_iff, refl, length, ◌+◌, not, filter, arith, ◌≡◌, none, Option, [], some, String, ◌∷◌, ℕ,
}
use nodejs_advanced_homework.Prelude.Json.{Json}
use nodejs_advanced_homework.Outbox.Relay.{OutboxRow}
use nodejs_advanced_homework.Outbox.Event.{
  to_order_placed_event, event_json, ParsedEvent, PlacedOrder, parse_order_placed_event,
}
use nodejs_advanced_homework.Outbox.Event.RoundTrip.{parse-to_order_placed_event}
use nodejs_advanced_homework.Outbox.Retention.{
  is_forgotten, is_outdated, PurgeResult, Db, PurgeOptions, purge_outbox,
}
use nodejs_advanced_homework.Outbox.Retention.Purged.{is_unpublished, purge_outbox-eq}

abbrev pub placed : PlacedOrder
placed = record {
  order_id = "41";
  user_id = "1";
  total_cents = 600;
  shipping_country = "US";
  created_at = 1000;
  items =
      (record { product_id = "5"; quantity = 2; unit_price_cents = 300; line_total_cents = 600 })
      ∷ [];
}

abbrev pub placed_json : Json
placed_json = event_json (to_order_placed_event (λ t. "1970-01-01T00:00:01.000Z") "e1" placed)

abbrev pub placed_event : ParsedEvent
placed_event = record { event_id = "e1"; order_id = "41"; user_id = "1"; total_cents = 600 }

pub placed_is_read : parse_order_placed_event (some placed_json) ≡ some placed_event
unfolding parse_order_placed_event event_json to_order_placed_event
placed_is_read = refl

parse-to_order_placed_event_example :
    parse_order_placed_event (some placed_json) ≡ some placed_event
parse-to_order_placed_event_example =
    parse-to_order_placed_event (λ t. "1970-01-01T00:00:01.000Z") "e1" placed
      (λ e. absurd (ground (arith, (str_eq_iff "e1" "").1 e)))

abbrev pub row : String → Option ℕ → OutboxRow
row id published_at = record {
  id = id;
  aggregate_type = "order";
  aggregate_id = "41";
  type = "order.placed";
  payload = placed_json;
  created_at = 1000;
  published_at = published_at;
  attempts = 0;
  last_error = none;
}

abbrev pub old_rows : Db
old_rows = record {
  outbox = row "e1" (some 10) ∷ row "e2" none ∷ row "e3" (some 20) ∷ row "e4" (some 900) ∷ [];
  processed_messages =
      (record { message_id = "e1"; consumer = "order-confirmations"; processed_at = 10 }) ∷ [];
}

abbrev pub small_batches : PurgeOptions
small_batches = record {
  outbox_retention_ms = some 500;
  inbox_retention_ms = some 2000;
  batch_size = some 1;
}

purge_outbox-eq_example :
    (r : PurgeResult) × (db' : Db) × (purge_outbox 5 1000 small_batches old_rows ≡ some (r, db'))
    × (db'.outbox ≡ filter (λ x. not (is_outdated 1000 500 x)) old_rows.outbox)
    × (db'.processed_messages
        ≡ filter (λ x. not (is_forgotten 1000 2000 x)) old_rows.processed_messages)
    × (r.outbox + length db'.outbox ≡ length old_rows.outbox)
    × (r.processed + length db'.processed_messages ≡ length old_rows.processed_messages)
    × (filter is_unpublished db'.outbox ≡ filter is_unpublished old_rows.outbox)
purge_outbox-eq_example =
    purge_outbox-eq 5 1000 small_batches old_rows (omega arith) (omega arith) (omega arith)
