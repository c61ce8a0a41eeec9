-- ===== src/Pipeline/Tests.antt =====
-- src/orders/place-order.ts, src/outbox/: an order, delivered twice.
use nodejs_advanced_homework.Prelude.{
  ◌≡◌, ◌≢◌, refl, arith, true, false, List, [], ◌∷◌, String, Option, none, some, ok, str_eq_iff,
  All,
}
use nodejs_advanced_homework.Prelude.Json.{Json}
use nodejs_advanced_homework.Orders.Place.{
  PlaceOrderInput, PlaceOrderResult, place_order, prior_of, place_new, place_tx, write_rest,
  insert_order, take_all, take_stock, can_take, take_from, lock_order, number, number_from,
  placed_order, insert_rows, to_response_body, claim_key, outbox_row, insert_outbox, key_of,
  find_replay, find_record, hash_request,
}
use nodejs_advanced_homework.Orders.Place
use nodejs_advanced_homework.Outbox.Event.{
  parse_order_placed_event, event_json, to_order_placed_event,
}
use nodejs_advanced_homework.Outbox.Relay.{OutboxRow, message_of}
use nodejs_advanced_homework.Outbox.Relay
use nodejs_advanced_homework.Outbox.Consumer.{
  Db, Delivery, empty_stats, handle, consume, acked, done, after_apply, settle_applied, is_marked,
  apply_with_retry, apply_from, apply_order_placed,
}
use nodejs_advanced_homework.Outbox.Consumer
use nodejs_advanced_homework.Outbox.Consumer.Inbox.{IsOnce, effects}
use nodejs_advanced_homework.Pipeline.Confirmed.{last?, placed-confirmed}
use nodejs_advanced_homework.Pipeline.Effects.{IsOf, IsMatched}

abbrev plain : Place.Env
plain = record {
  hash = λ r. r.user_id;
  iso = λ t. "2024-01-01T00:00:00.000Z";
  order_id = "41";
  now = 1000;
  event_id = "e1";
  meanwhile = λ db. db;
  late_fault = none;
}

abbrev one_line : PlaceOrderInput
one_line = record {
  user_id = "1";
  items = (record { product_id = "5"; quantity = 2 }) ∷ [];
  shipping_country = none;
  idempotency_key = none;
}

abbrev stocked : Place.Db
stocked = record {
  products = (record { id = "5"; price_cents = 300; stock = 3; is_active = true }) ∷ [];
  orders = [];
  order_items = [];
  idempotency_records = [];
  outbox = [];
}

abbrev answer : PlaceOrderResult
answer = record {
  status = 201;
  body = record {
    id = 41;
    items =
        (record { product_id = 5; quantity = 2; unit_price_cents = 300; line_total_cents = 600 })
        ∷ [];
    total_cents = 600;
    created_at = "2024-01-01T00:00:00.000Z";
  };
  replayed = false;
}

abbrev placed_db : Place.Db
placed_db = (place_order plain one_line stocked).1

is_placed : place_order plain one_line stocked ≡ (ok answer, placed_db)
unfolding place_order prior_of place_new place_tx write_rest insert_order take_all take_stock
    can_take take_from lock_order number number_from placed_order insert_rows to_response_body
    claim_key outbox_row insert_outbox key_of find_replay find_record hash_request
is_placed = refl

abbrev payload : Json
payload = event_json (
    to_order_placed_event plain.iso "e1" (record {
      order_id = "41";
      user_id = "1";
      total_cents = 600;
      shipping_country = "US";
      created_at = 1000;
      items =
          (record {
            product_id = "5";
            quantity = 2;
            unit_price_cents = 300;
            line_total_cents = 600;
          })
          ∷ [];
    }))

abbrev row : OutboxRow
row = record {
  id = "e1";
  aggregate_type = "order";
  aggregate_id = "41";
  type = "order.placed";
  payload = payload;
  created_at = 1000;
  published_at = none;
  attempts = 0;
  last_error = none;
}

is_last : last? placed_db.outbox ≡ some row
unfolding place_order prior_of place_new place_tx write_rest insert_order take_all take_stock
    can_take take_from lock_order number number_from placed_order insert_rows to_response_body
    claim_key outbox_row insert_outbox key_of find_replay find_record hash_request
is_last = refl

abbrev relay : Relay.Env
relay = record {
  locked = λ id. false;
  id_le = λ a b. true;
  encode = λ j. ok "text";
  send = λ m. none;
  after_publish = λ rows. none;
  fault = λ stage. none;
  now = 2000;
  batch_size = none;
}

abbrev decode : String → Option Json
decode text = some payload

abbrev delivery : Delivery
delivery = record { content = some payload; delivery_header = none; redelivered = false }

abbrev fine : Consumer.Env
fine = record { answer = λ attempt s. done; after_effect = none; ack_error = none }

abbrev empty_inbox : Db
empty_inbox = record { processed_messages = []; order_confirmations = [] }

empty_inbox-IsOnce : IsOnce empty_inbox
empty_inbox-IsOnce = record { marked = λ id. omega arith; effected = λ o. omega arith }

abbrev before : List (Consumer.Env × Delivery)
before = (fine, delivery) ∷ []

named : plain.event_id ≢ ""
named e = absurd (ground (arith, (str_eq_iff "e1" "").1 e))

is_sent : delivery.content ≡ decode (message_of row "text").content
is_sent = refl

are-IsOf_41 : All (IsOf (λ id. "41")) before
unfolding parse_order_placed_event event_json to_order_placed_event
are-IsOf_41 = ((λ e p. ground arith), tt)

matched : IsMatched (λ id. "41") empty_inbox
unfolding is_marked
matched id h = cc

is_acked :
    (handle fine delivery
      (consume before empty_inbox empty_stats).0
      (consume before empty_inbox empty_stats).1).settlement
    ≡ acked
unfolding handle consume after_apply settle_applied apply_with_retry apply_from apply_order_placed
    is_marked parse_order_placed_event event_json to_order_placed_event Consumer.insert_confirmation
    Consumer.is_effected Consumer.insert_mark
is_acked = refl

placed-confirmed_example :
    effects "41"
      (handle fine delivery
        (consume before empty_inbox empty_stats).0
        (consume before empty_inbox empty_stats).1).db
    ≡ 1
placed-confirmed_example =
    placed-confirmed plain one_line stocked placed_db answer row relay decode "text" (λ id. "41")
      before fine delivery empty_inbox empty_stats is_placed refl is_last named (λ t e. refl) refl
      is_sent refl are-IsOf_41 empty_inbox-IsOnce matched is_acked
