-- ===== src/Orders/Place/Commit.antt =====
-- src/orders/place-order.ts: what a placed order has written, and what a refused one leaves.
use nodejs_advanced_homework.Prelude.{
  refl, Each, sum_by, sum_by-sort_by, ℕ, append-congr, ◌∙◌, or_else, ap, subst, ◌≡◌, sym, false,
  Option, none, some, List, [], ◌∷◌, ◌++◌, String, map, ok, arith, >>=-eq-ok, Result-cases, inl,
  inr,
}
use nodejs_advanced_homework.Outbox.Event.{
  PlacedLine, PlacedOrder, event_json, to_order_placed_event,
}
use nodejs_advanced_homework.Orders.Place.{
  number, OrderResponseBody, OrderLine, PlaceOrderInput, PlaceOrderResult, Db, Env, hash_request,
  take_stock, take_all, lock_order, placed_order, insert_rows, insert_order, to_response_body,
  claim_key, outbox_row, insert_outbox, key_of, place_tx, write_rest,
}
use nodejs_advanced_homework.Orders.Place.Lines.{IsLine, take_all-IsLine}

-- Only the stock changes while the lines are taken.
pub record SameButProducts (db db' : Db) : Type 0 where
  pub orders : db'.orders ≡ db.orders
  pub order_items : db'.order_items ≡ db.order_items
  pub idempotency_records : db'.idempotency_records ≡ db.idempotency_records
  pub outbox : db'.outbox ≡ db.outbox

take_stock-SameButProducts :
    (item : OrderLine) (db db' : Db) (line : PlacedLine)
    → take_stock item db ≡ ok (line, db')
    → SameButProducts db db'
unfolding take_stock
take_stock-SameButProducts item db db' line h = ground arith

pub take_all-SameButProducts :
    (items : List OrderLine) (db db' : Db) (lines : List PlacedLine)
    → take_all items db ≡ ok (lines, db')
    → SameButProducts db db'
unfolding take_all
take_all-SameButProducts [] db db' lines h = ground arith
take_all-SameButProducts (item ∷ items) db db' lines h =
    let (l, db1, e1, k1) = >>=-eq-ok (take_stock item) _ db h in
    let (ls, db2, e2, k2) = >>=-eq-ok (take_all items) _ db1 k1 in
    ground (
      arith,
      take_stock-SameButProducts item db db1 l e1,
      take_all-SameButProducts items db1 db2 ls e2,
    )

-- The steps of a transaction that commits.
pub record Committed (env : Env) (input : PlaceOrderInput) (db db' : Db) (r : PlaceOrderResult)
    : Type 0 where
  pub lines : List PlacedLine
  pub stocked : Db
  pub claimed : Db
  pub takes : take_all (lock_order input.items) db ≡ ok (lines, stocked)
  pub claims :
      claim_key env
        (key_of input)
        (placed_order env input lines)
        (to_response_body env.iso (placed_order env input lines))
        (hash_request env input)
        (insert_rows (placed_order env input lines) stocked)
      ≡ ok (tt, claimed)
  pub ends : db' ≡ insert_outbox env (placed_order env input lines) claimed
  pub answers : r ≡ record {
    status = 201;
    body = to_response_body env.iso (placed_order env input lines);
    replayed = false;
  }

insert_order-eq-ok :
    (env : Env) (input : PlaceOrderInput) (db db' : Db) (order : PlacedOrder)
    → insert_order env input db ≡ ok (order, db')
    → (lines : List PlacedLine) × (stocked : Db) × (take_all (lock_order input.items) db
        ≡ ok (lines, stocked))
      × (order ≡ placed_order env input lines)
      × (db' ≡ insert_rows order stocked)
unfolding insert_order
insert_order-eq-ok env input db db' order h =
    elim (Result-cases (take_all (lock_order input.items) db)) [
      | inl ((lines, s), e) ↦ (lines, s, e, ground arith, ground arith)
      | inr (x, e) ↦ absurd (ground arith)
    ]

write_rest-eq-ok :
    (env : Env) (input : PlaceOrderInput) (order : PlacedOrder) (db db' : Db) (r : PlaceOrderResult)
    → write_rest env input order db ≡ ok (r, db')
    → (claimed : Db) × (claim_key env
          (key_of input)
          order
          (to_response_body env.iso order)
          (hash_request env input)
          db
        ≡ ok (tt, claimed))
      × (db' ≡ insert_outbox env order claimed)
      × (r ≡ record { status = 201; body = to_response_body env.iso order; replayed = false })
unfolding write_rest
write_rest-eq-ok env input order db db' r h =
    elim (Result-cases (
      claim_key env (key_of input) order (to_response_body env.iso order) (hash_request env input)
        db)) [
          | inl ((u, c), e) ↦ (c, ground arith, ground arith, ground arith)
          | inr (x, e) ↦ absurd (ground arith)
        ]

pub place_tx-Committed :
    (env : Env) (input : PlaceOrderInput) (db db' : Db) (r : PlaceOrderResult)
    → place_tx env input db ≡ ok (r, db')
    → Committed env input db db' r
unfolding place_tx
place_tx-Committed env input db db' r h =
    let (order, db1, e1, k1) = >>=-eq-ok (insert_order env input) _ db h in
    let (lines, s, takes, same, rows) = insert_order-eq-ok env input db db1 order e1 in
    let (c, claims, ends, answers) = write_rest-eq-ok env input order db1 db' r k1 in
    record {
      lines = lines;
      stocked = s;
      claimed = c;
      takes = takes;
      claims =
          subst
            (λ o.
              claim_key env (key_of input) o (to_response_body env.iso o) (hash_request env input)
                (insert_rows o s)
              ≡ ok (tt, c))
            same
            (subst
              (λ d.
                claim_key env (key_of input) order (to_response_body env.iso order)
                  (hash_request env input) d
                ≡ ok (tt, c))
              rows claims);
      ends = rw (sym same) ends;
      answers = rw (sym same) answers;
    }

-- What one order has added to the tables.
pub record Added (env : Env) (input : PlaceOrderInput) (db db' : Db) (body : OrderResponseBody)
    : Type 0 where
  pub lines : List PlacedLine
  pub items : List OrderLine
  -- the request's items in another order: every sum over them is the same
  pub same_items : (f : OrderLine → ℕ) → sum_by f items ≡ sum_by f input.items
  pub priced : Each (IsLine db.products) items lines
  pub answered : body ≡ record {
    id = number env.order_id;
    items =
        map
          (λ l. record {
            product_id = number l.product_id;
            quantity = l.quantity;
            unit_price_cents = l.unit_price_cents;
            line_total_cents = l.line_total_cents;
          })
          lines;
    total_cents = sum_by (λ l. l.line_total_cents) lines;
    created_at = env.iso env.now;
  }
  pub orders :
      db'.orders
      ≡ db.orders
        ++ record {
          id = env.order_id;
          user_id = input.user_id;
          status = "completed";
          total_cents = sum_by (λ l. l.line_total_cents) lines;
          shipping_country = or_else input.shipping_country "US";
          created_at = env.now;
        }
          ∷ []
  pub order_items :
      db'.order_items
      ≡ db.order_items
        ++ map
            (λ l. record {
              order_id = env.order_id;
              product_id = l.product_id;
              quantity = l.quantity;
              unit_price_cents = l.unit_price_cents;
              line_total_cents = l.line_total_cents;
            })
            lines
  pub outbox : db'.outbox ≡ db.outbox ++ outbox_row env (placed_order env input lines) ∷ []
  pub event_row : outbox_row env (placed_order env input lines) ≡ record {
    id = env.event_id;
    aggregate_type = "order";
    aggregate_id = env.order_id;
    type = "order.placed";
    payload = event_json (
        to_order_placed_event env.iso env.event_id (record {
          order_id = env.order_id;
          user_id = input.user_id;
          total_cents = sum_by (λ l. l.line_total_cents) lines;
          shipping_country = or_else input.shipping_country "US";
          created_at = env.now;
          items = lines;
        }));
    created_at = env.now;
    published_at = none;
    attempts = 0;
    last_error = none;
  }

pub claim_key-same :
    (env : Env) (key : Option String) (order : PlacedOrder) (body : OrderResponseBody)
    (hash : String) (db db' : Db)
    → claim_key env key order body hash db ≡ ok (tt, db')
    → (db'.orders ≡ db.orders)
      × (db'.order_items ≡ db.order_items)
      × (db'.outbox ≡ db.outbox)
      × (db'.products ≡ db.products)
unfolding claim_key
claim_key-same env none order body hash db db' h = ground arith
claim_key-same env (some k) order body hash db db' h = ground arith

pub Committed-Added :
    (env : Env) (input : PlaceOrderInput) (db db' : Db) (r : PlaceOrderResult)
    → Committed env input db db' r
    → Added env input db db' r.body
unfolding insert_outbox insert_rows placed_order lock_order to_response_body outbox_row
Committed-Added env input db db' r c =
    let same = take_all-SameButProducts (lock_order input.items) db c.stocked c.lines c.takes in
    let (o, i, x, p) = claim_key-same env (key_of input) _ _ _ _ c.claimed c.claims in
    record {
      lines = c.lines;
      items = lock_order input.items;
      same_items = λ f. sum_by-sort_by f _ input.items;
      priced = take_all-IsLine (lock_order input.items) db c.stocked c.lines c.takes;
      answered = ap (λ (q : PlaceOrderResult). q.body) c.answers;
      orders = ap (λ (d : Db). d.orders) c.ends ∙ o ∙ append-congr _ same.orders;
      order_items = ap (λ (d : Db). d.order_items) c.ends ∙ i ∙ append-congr _ same.order_items;
      event_row = refl;
      outbox = ap (λ (d : Db). d.outbox) c.ends ∙ append-congr _ (x ∙ same.outbox);
    }
