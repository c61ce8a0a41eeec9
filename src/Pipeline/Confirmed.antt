-- ===== src/Pipeline/Confirmed.antt =====
-- src/orders/place-order.ts, src/outbox/: an order that was placed is confirmed once.
use nodejs_advanced_homework.Prelude.{
  ◌≡◌, ◌≢◌, refl, sym, ap, ◌∙◌, subst, arith, true, false, List, [], ◌∷◌, ◌++◌, String, Option,
  none, some, ok, All,
}
use nodejs_advanced_homework.Prelude.Json.{Json}
use nodejs_advanced_homework.Orders.Place.{
  PlaceOrderInput, PlaceOrderResult, place_order, outbox_row, placed_order,
}
use nodejs_advanced_homework.Orders.Place
use nodejs_advanced_homework.Orders.Place.Commit.{Committed-Added}
use nodejs_advanced_homework.Orders.Place.Ending.{place_order-Committed}
use nodejs_advanced_homework.Outbox.Event.{
  PlacedOrder, ParsedEvent, parse_order_placed_event, event_json, to_order_placed_event,
}
use nodejs_advanced_homework.Outbox.Event.RoundTrip.{parse-to_order_placed_event}
use nodejs_advanced_homework.Outbox.Relay.{OutboxRow, message_of}
use nodejs_advanced_homework.Outbox.Relay
use nodejs_advanced_homework.Outbox.Consumer.{
  is_effected, Db, Delivery, ConsumerStats, handle, consume, acked,
}
use nodejs_advanced_homework.Outbox.Consumer
use nodejs_advanced_homework.Outbox.Consumer.Inbox.{
  IsOnce, effects, handle-acked-is_marked, handle-IsOnce, consume-IsOnce,
}
use nodejs_advanced_homework.Pipeline.Effects.{
  IsOf, IsMatched, handle-IsMatched, consume-IsMatched, is_effected-effects,
}

abbrev pub last? : List OutboxRow → Option OutboxRow
last? [] = none
last? (r ∷ []) = some r
last? (r ∷ s ∷ rs) = last? (s ∷ rs)

last?-append : (rs : List OutboxRow) (r : OutboxRow) → last? (rs ++ r ∷ []) ≡ some r
last?-append [] r = refl
last?-append (q ∷ []) r = refl
last?-append (q ∷ s ∷ rs) r = last?-append (s ∷ rs) r

-- The row that a placed order leaves holds the order's event.
placed-row :
    (env : Place.Env) (input : PlaceOrderInput) (db db' : Place.Db) (r : PlaceOrderResult)
    (row : OutboxRow)
    → place_order env input db ≡ (ok r, db')
    → r.replayed ≡ false
    → last? db'.outbox ≡ some row
    → (order : PlacedOrder) × (order.order_id ≡ env.order_id) × (row ≡ outbox_row env order)
unfolding placed_order
placed-row env input db db' r row h fresh l =
    let a =
      Committed-Added env input (env.meanwhile db) db' r
        (place_order-Committed env input db db' r h fresh) in
    let order = placed_order env input a.lines in
    let added = last?-append (env.meanwhile db).outbox (outbox_row env order) in
    let same : last? db'.outbox ≡ some (outbox_row env order) = ap last? a.outbox ∙ added in
    let is : some row ≡ some (outbox_row env order) = sym l ∙ same in (order, refl, cc)

-- What the consumer reads from the message.
read-row :
    (env : Place.Env) (order : PlacedOrder) (decode : String → Option Json) (relay : Relay.Env)
    (text : String) (row : OutboxRow)
    → row ≡ outbox_row env order
    → env.event_id ≢ ""
    → ((t : String) → relay.encode row.payload ≡ ok t → decode t ≡ some row.payload)
    → relay.encode row.payload ≡ ok text
    → (event : ParsedEvent) × (parse_order_placed_event (decode (message_of row text).content)
        ≡ some event)
      × (event.event_id ≡ env.event_id)
      × (event.order_id ≡ order.order_id)
unfolding message_of outbox_row
read-row env order decode relay text row e named back encoded =
    let json = event_json (to_order_placed_event env.iso env.event_id order) in
    let payload : row.payload ≡ json = ap (λ (r : OutboxRow). r.payload) e in
    let decoded : decode text ≡ some json = back text encoded ∙ ap some payload in
    (
      record {
        event_id = env.event_id;
        order_id = order.order_id;
        user_id = order.user_id;
        total_cents = order.total_cents;
      },
      rw decoded (parse-to_order_placed_event env.iso env.event_id order named),
      refl,
      refl,
    )

-- An order that is placed leaves a row in the outbox. Let the relay send it, in a text that decodes to
-- what was encoded, and let the consumer, after any deliveries whatever, redelivered and failing in any
-- way, be given that text and acknowledge it. Where events are told apart by their ids, the order then
-- has exactly one confirmation.
pub placed-confirmed :
    (env : Place.Env) (input : PlaceOrderInput) (db db' : Place.Db) (r : PlaceOrderResult)
    (row : OutboxRow) (relay : Relay.Env) (decode : String → Option Json) (text : String)
    (order_of : String → String) (ds : List (Consumer.Env × Delivery)) (cenv : Consumer.Env)
    (d : Delivery) (inbox : Db) (stats : ConsumerStats)
    → place_order env input db ≡ (ok r, db')
    → r.replayed ≡ false
    → last? db'.outbox ≡ some row
    → env.event_id ≢ ""
    → ((t : String) → relay.encode row.payload ≡ ok t → decode t ≡ some row.payload)
    → relay.encode row.payload ≡ ok text
    → d.content ≡ decode (message_of row text).content
    → order_of env.event_id ≡ env.order_id
    → All (IsOf order_of) ds
    → IsOnce inbox
    → IsMatched order_of inbox
    → (handle cenv d (consume ds inbox stats).0 (consume ds inbox stats).1).settlement ≡ acked
    → effects env.order_id (handle cenv d (consume ds inbox stats).0 (consume ds inbox stats).1).db
      ≡ 1
placed-confirmed env input db db' r row relay decode text order_of ds cenv d inbox stats h fresh l
      named back encoded content mine of once matched ack =
    let (order, oid, is) = placed-row env input db db' r row h fresh l in
    let (event, read, eid, event_order) =
      read-row env order decode relay text row is named back encoded in
    let (before, counts) = consume ds inbox stats in
    let parsed : parse_order_placed_event d.content ≡ some event = rw content read in
    let marked = handle-acked-is_marked cenv d before counts event parsed ack in
    let of_it : IsOf order_of (cenv, d) = λ e p.
      let same : event ≡ e = cc in rw (← same) (ap order_of eid ∙ mine ∙ sym (event_order ∙ oid)) in
    let m =
      handle-IsMatched order_of cenv d before counts of_it
        (consume-IsMatched order_of ds inbox stats of matched) in
    let one = handle-IsOnce cenv d before counts (consume-IsOnce ds inbox stats once) in
    let confirmed =
      subst (λ o. is_effected o (handle cenv d before counts).db ≡ true) (ap order_of eid ∙ mine)
        (m event.event_id marked) in
    let least = is_effected-effects env.order_id (handle cenv d before counts).db confirmed in
    omega (arith, least, one.effected env.order_id)
