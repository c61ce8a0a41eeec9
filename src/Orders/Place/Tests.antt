-- ===== src/Orders/Place/Tests.antt =====
-- src/orders/place-order.ts: an order with a key, and the same request again.
use nodejs_advanced_homework.Prelude.{
  inr, subst, inl, Bool-cases, str_eq_iff, arith, str_eq, refl, false, ◌≤◌, ok, ◌+◌, some, [],
  String, true, ◌∷◌, none, ◌≡◌,
}
use nodejs_advanced_homework.Orders.Place.{
  hash_request, find_record, find_replay, insert_outbox, outbox_row, claim_key, to_response_body,
  insert_rows, placed_order, number_from, number, lock_order, take_from, can_take, take_stock,
  take_all, insert_order, write_rest, place_tx, place_new, key_of, prior_of, Db, Env,
  PlaceOrderInput, PlaceOrderResult, place_order,
}
use nodejs_advanced_homework.Orders.Place.Ending.{Ended, place_order-Ended}
use nodejs_advanced_homework.Orders.Place.Stock.{
  ordered, rows_with, stock_in, place_order-conserves,
}
use nodejs_advanced_homework.Orders.Place.Replay.{as_replay, place_order-replay}

abbrev plain : Env
plain = record {
  hash = λ r. r.user_id;
  iso = λ t. "2024-01-01T00:00:00.000Z";
  order_id = "41";
  now = 1000;
  event_id = "e1";
  meanwhile = λ db. db;
  late_fault = none;
}

abbrev two_lines : PlaceOrderInput
two_lines = record {
  user_id = "1";
  items =
      (record { product_id = "7"; quantity = 1 })
      ∷ (record { product_id = "5"; quantity = 2 })
      ∷ [];
  shipping_country = none;
  idempotency_key = some "k1";
}

abbrev stocked : Db
stocked = record {
  products =
      (record { id = "5"; price_cents = 300; stock = 3; is_active = true })
      ∷ (record { id = "7"; price_cents = 100; stock = 1; is_active = true })
      ∷ [];
  orders = [];
  order_items = [];
  idempotency_records = [];
  outbox = [];
}

abbrev answer : PlaceOrderResult
answer = record {
  status = 201;
  body = record {
    id = 41;
    items =
        (record { product_id = 5; quantity = 2; unit_price_cents = 300; line_total_cents = 600 })
        ∷ (record { product_id = 7; quantity = 1; unit_price_cents = 100; line_total_cents = 100 })
        ∷ [];
    total_cents = 700;
    created_at = "2024-01-01T00:00:00.000Z";
  };
  replayed = false;
}

abbrev placed_db : Db
placed_db = (place_order plain two_lines stocked).1

is_placed : place_order plain two_lines stocked ≡ (ok answer, placed_db)
unfolding place_order prior_of place_new place_tx write_rest insert_order take_all take_stock
    can_take take_from lock_order number number_from placed_order insert_rows to_response_body
    claim_key outbox_row insert_outbox key_of find_replay find_record hash_request
is_placed = refl

has_key : key_of two_lines ≡ some "k1"
unfolding key_of
has_key = refl

ids_are_unique : (k : String) → rows_with k stocked.products ≤ 1
ids_are_unique k = elim (Bool-cases (str_eq "5" k)) [
  | inl t ↦ subst (λ j. rows_with j stocked.products ≤ 1) ((str_eq_iff "5" k).0 t) (omega arith)
  | inr f ↦ ground arith
]

place_order-Ended_example :
    Ended plain two_lines stocked
      (place_order plain two_lines stocked).1
      (place_order plain two_lines stocked).0
place_order-Ended_example = place_order-Ended plain two_lines stocked

place_order-conserves_example :
    stock_in "5" placed_db.products + ordered "5" two_lines.items ≡ stock_in "5" stocked.products
place_order-conserves_example =
    place_order-conserves plain two_lines stocked placed_db answer "5" ids_are_unique is_placed refl

place_order-replay_example :
    place_order plain two_lines placed_db ≡ (ok (as_replay answer), placed_db)
place_order-replay_example =
    place_order-replay plain plain two_lines stocked placed_db placed_db answer "k1" has_key
      is_placed refl refl
