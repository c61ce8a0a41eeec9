-- ===== src/Orders/Place.antt =====
-- src/orders/place-order.ts: the order, the Idempotency-Key claim and the outbox row in one
-- transaction. Ids are texts, as the driver returns them; ids that the sequences and `randomUUID`
-- give, the clock, the hash and what other clients commit meanwhile are the environment.
pub mod Tests
pub mod Stock
pub mod Replay
pub mod Lines
pub mod Commit
pub mod Ending
use nodejs_advanced_homework.Prelude.{
  ℕ, zero, suc, ◌+◌, ◌-◌, ◌*◌, Bool, true, false, not, ◌&&◌, ◌||◌, Option, none, some, List, [],
  ◌∷◌, ◌++◌, String, str_eq, ltb, leb, if◌then◌else◌, any, find?, update_where, sum_by, sort_by,
  Result, ok, err, Tx, ◌>>=◌, ◌>>◌, pure, throw, gets, modify, guard, transaction, or_else, map,
  codes, is_some,
}
use nodejs_advanced_homework.Outbox.Event.{
  PlacedLine, PlacedOrder, order_aggregate, order_placed, to_order_placed_event, event_json,
}
use nodejs_advanced_homework.Outbox.Relay.{OutboxRow}
pub use nodejs_advanced_homework.Orders.Tables.{
  OrderLine, PlaceOrderInput, ResponseItem, OrderResponseBody, PlaceOrderResult, Product, Order,
  OrderItem, IdempotencyRecord, Db, OrderError, HashedRequest, Env, product_not_found,
  insufficient_stock, key_reused, idempotent_replay, thrown,
}

unfoldable pub number_from : ℕ → List ℕ → ℕ
number_from acc [] = acc
number_from acc (c ∷ s) = number_from (acc * 10 + (c - b'0')) s

unfoldable pub number : String → ℕ
unfolding number_from
number text = number_from 0 (codes text)

abbrev country_of : PlaceOrderInput → String
country_of input = or_else input.shipping_country "US"

unfoldable pub hash_request : Env → PlaceOrderInput → String
hash_request env input = env.hash (record {
  user_id = input.user_id;
  shipping_country = country_of input;
  items = map (λ i. (i.product_id, i.quantity)) input.items;
})

unfoldable pub find_record : String → Db → Option IdempotencyRecord
find_record key db = find? (λ r. str_eq r.idempotency_key key) db.idempotency_records

abbrev replay_of : String → Option IdempotencyRecord → Result OrderError (Option PlaceOrderResult)
replay_of request_hash none = ok none
replay_of request_hash (some r) =
    if str_eq r.request_hash request_hash
    then ok (some (record { status = r.response_status; body = r.response_body; replayed = true }))
    else err key_reused

unfoldable pub find_replay : String → String → Db → Result OrderError (Option PlaceOrderResult)
find_replay key request_hash db = replay_of request_hash (find_record key db)

-- `WHERE id = $2 AND is_active = true AND stock >= $1`
unfoldable pub can_take : OrderLine → Product → Bool
can_take item p = str_eq p.id item.product_id && p.is_active && leb item.quantity p.stock

-- `SET stock = stock - $1`
unfoldable pub take_from : OrderLine → Product → Product
take_from item p = record p { stock = p.stock - item.quantity }

abbrev line_of : OrderLine → Product → PlacedLine
line_of item p = record {
  product_id = item.product_id;
  quantity = item.quantity;
  unit_price_cents = p.price_cents;
  line_total_cents = p.price_cents * item.quantity;
}

abbrev refuse_item : OrderLine → Db → OrderError
refuse_item item db =
    if any (λ p. str_eq p.id item.product_id && p.is_active) db.products
    then insufficient_stock item.product_id
    else product_not_found item.product_id

-- one round of the loop: the guarded decrement, or the reason why it matched no row
unfoldable pub take_stock : OrderLine → Tx Db OrderError PlacedLine
take_stock item db = elim (find? (can_take item) db.products) [
  | none ↦ err (refuse_item item db)
  | some p ↦ ok (
    line_of item p,
    record db { products = update_where (can_take item) (take_from item) db.products },
  )
]

unfoldable pub take_all : List OrderLine → Tx Db OrderError (List PlacedLine)
take_all [] = pure []
take_all (item ∷ items) = do line ← take_stock item; lines ← take_all items; pure (line ∷ lines)

-- stable, by the numbers that the ids stand for
unfoldable pub lock_order : List OrderLine → List OrderLine
unfolding number
lock_order items = sort_by (λ a b. leb (number a.product_id) (number b.product_id)) items

abbrev pub total_of : List PlacedLine → ℕ
total_of lines = sum_by (λ l. l.line_total_cents) lines

abbrev item_row : String → PlacedLine → OrderItem
item_row order_id l = record {
  order_id = order_id;
  product_id = l.product_id;
  quantity = l.quantity;
  unit_price_cents = l.unit_price_cents;
  line_total_cents = l.line_total_cents;
}

unfoldable pub placed_order : Env → PlaceOrderInput → List PlacedLine → PlacedOrder
placed_order env input lines = record {
  order_id = env.order_id;
  user_id = input.user_id;
  total_cents = total_of lines;
  shipping_country = country_of input;
  created_at = env.now;
  items = lines;
}

-- `INSERT INTO orders` and `INSERT INTO order_items` for each line
unfoldable pub insert_rows : PlacedOrder → Db → Db
insert_rows order db = record db {
  orders =
      db.orders
      ++ (record {
        id = order.order_id;
        user_id = order.user_id;
        status = "completed";
        total_cents = order.total_cents;
        shipping_country = order.shipping_country;
        created_at = order.created_at;
      })
        ∷ [];
  order_items = db.order_items ++ map (item_row order.order_id) order.items;
}

unfoldable pub insert_order : Env → PlaceOrderInput → Tx Db OrderError PlacedOrder
insert_order env input = do
  lines ← take_all (lock_order input.items)
  let order = placed_order env input lines
  modify (insert_rows order)
  pure order

unfoldable pub to_response_body : (ℕ → String) → PlacedOrder → OrderResponseBody
unfolding number
to_response_body iso order = record {
  id = number order.order_id;
  items =
      map
        (λ i. record {
          product_id = number i.product_id;
          quantity = i.quantity;
          unit_price_cents = i.unit_price_cents;
          line_total_cents = i.line_total_cents;
        })
        order.items;
  total_cents = order.total_cents;
  created_at = iso order.created_at;
}

-- `INSERT INTO idempotency_records … ON CONFLICT (idempotency_key) DO NOTHING RETURNING …`; no row
-- returned throws IdempotentReplay
unfoldable pub claim_key :
    Env → Option String → PlacedOrder → OrderResponseBody → String → Tx Db OrderError (Unit {0})
claim_key env none order body request_hash db = ok (tt, db)
claim_key env (some key) order body request_hash db =
    if is_some (find_record key db)
    then err idempotent_replay
    else ok (
      tt,
      record db {
        idempotency_records =
            db.idempotency_records
            ++ (record {
              idempotency_key = key;
              order_id = order.order_id;
              request_hash = request_hash;
              response_status = 201;
              response_body = body;
            })
              ∷ [];
      },
    )

unfoldable pub outbox_row : Env → PlacedOrder → OutboxRow
outbox_row env order = record {
  id = env.event_id;
  aggregate_type = order_aggregate;
  aggregate_id = order.order_id;
  type = order_placed;
  payload = event_json (to_order_placed_event env.iso env.event_id order);
  created_at = env.now;
  published_at = none;
  attempts = 0;
  last_error = none;
}

unfoldable pub insert_outbox : Env → PlacedOrder → Db → Db
insert_outbox env order db = record db { outbox = db.outbox ++ outbox_row env order ∷ [] }

abbrev finish : Env → Tx Db OrderError (Unit {0})
finish env db = elim env.late_fault [ none ↦ ok (tt, db) | some e ↦ err (thrown e) ]

-- an empty key is no key
unfoldable pub key_of : PlaceOrderInput → Option String
key_of input = elim input.idempotency_key [
  | none ↦ none
  | some key ↦ if str_eq key "" then none else some key
]

-- the transaction after `insertOrder`
unfoldable pub write_rest : Env → PlaceOrderInput → PlacedOrder → Tx Db OrderError PlaceOrderResult
write_rest env input order = do
  let body = to_response_body env.iso order
  claim_key env (key_of input) order body (hash_request env input)
  modify (insert_outbox env order)
  finish env
  pure (record { status = 201; body = body; replayed = false })

unfoldable pub place_tx : Env → PlaceOrderInput → Tx Db OrderError PlaceOrderResult
place_tx env input = do order ← insert_order env input; write_rest env input order

-- the `catch`: a lost race for the key replays the winner's response
unfoldable pub on_error :
    Option String → String → OrderError → Db → Result OrderError PlaceOrderResult
on_error (some key) request_hash idempotent_replay db = elim (find_replay key request_hash db) [
  | err e ↦ err e
  | ok none ↦ err idempotent_replay
  | ok (some prior) ↦ ok prior
]
on_error key request_hash e db = err e

abbrev catch_replay :
    Option String
    → String
    → Result OrderError PlaceOrderResult × Db
    → Result OrderError PlaceOrderResult × Db
catch_replay key request_hash (ok r, db) = (ok r, db)
catch_replay key request_hash (err e, db) = (on_error key request_hash e db, db)

unfoldable pub place_new : Env → PlaceOrderInput → Db → Result OrderError PlaceOrderResult × Db
place_new env input db =
    catch_replay (key_of input) (hash_request env input)
      (transaction (place_tx env input) (env.meanwhile db))

unfoldable pub prior_of : Env → PlaceOrderInput → Db → Result OrderError (Option PlaceOrderResult)
prior_of env input db = elim (key_of input) [
  | none ↦ ok none
  | some key ↦ find_replay key (hash_request env input) db
]

unfoldable pub place_order : Env → PlaceOrderInput → Db → Result OrderError PlaceOrderResult × Db
place_order env input db = elim (prior_of env input db) [
  | err e ↦ (err e, db)
  | ok (some prior) ↦ (ok prior, db)
  | ok none ↦ place_new env input db
]
