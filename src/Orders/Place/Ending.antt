-- ===== src/Orders/Place/Ending.antt =====
-- src/orders/place-order.ts: the three ways in which a request can end.
use nodejs_advanced_homework.Prelude.{
  transaction_of_err, transaction_of_ok, Option-cases, ap, ◌≡◌, refl, true, false, Option, none,
  some, String, Result, ok, err, arith, Result-cases, ◌⊎◌, inl, inr,
}
use nodejs_advanced_homework.Orders.Place.{
  PlaceOrderInput, PlaceOrderResult, Db, Env, OrderError, hash_request, key_of, place_tx, on_error,
  place_new, prior_of, place_order, find_replay,
}
use nodejs_advanced_homework.Orders.Place.Commit.{
  Committed, Added, place_tx-Committed, Committed-Added,
}

find_replay-replayed :
    (key hash : String) (db : Db) (r : PlaceOrderResult)
    → find_replay key hash db ≡ ok (some r)
    → r.replayed ≡ true
unfolding find_replay
find_replay-replayed key hash db r h = ground arith

prior_of-replayed :
    (env : Env) (input : PlaceOrderInput) (db : Db) (r : PlaceOrderResult)
    → prior_of env input db ≡ ok (some r)
    → r.replayed ≡ true
unfolding prior_of
prior_of-replayed env input db r h = elim (Option-cases (key_of input)) [
  | inl e ↦ absurd (ground arith)
  | inr (key, e) ↦ find_replay-replayed key (hash_request env input) db r (ground arith)
]

on_error-replayed :
    (key : Option String) (hash : String) (e : OrderError) (db : Db) (r : PlaceOrderResult)
    → on_error key hash e db ≡ ok r
    → r.replayed ≡ true
unfolding on_error
on_error-replayed (some key) hash OrderError.idempotent_replay db r h =
    ground (arith, find_replay-replayed key hash db r)
on_error-replayed key hash e db r h = cc

-- The three ways in which a request can end.
pub data Ended (env : Env) (input : PlaceOrderInput) (db db' : Db)
    : Result OrderError PlaceOrderResult → Type 0 where
  placed :
      (r : PlaceOrderResult)
      → r.status ≡ 201
      → r.replayed ≡ false
      → Added env input (env.meanwhile db) db' r.body
      → Ended env input db db' (ok r)
  replayed :
      (r : PlaceOrderResult)
      → r.replayed ≡ true
      → (db' ≡ db) ⊎ (db' ≡ env.meanwhile db)
      → Ended env input db db' (ok r)
  refused :
      (e : OrderError) → (db' ≡ db) ⊎ (db' ≡ env.meanwhile db) → Ended env input db db' (err e)

ended_err :
    (env : Env) (input : PlaceOrderInput) (db : Db) (r : Result OrderError PlaceOrderResult)
    → ((x : PlaceOrderResult) → r ≡ ok x → x.replayed ≡ true)
    → Ended env input db (env.meanwhile db) r
ended_err env input db (ok x) h = replayed x (h x refl) (inr refl)
ended_err env input db (err e) h = refused e (inr refl)

place_new-Ended :
    (env : Env) (input : PlaceOrderInput) (db : Db)
    → Ended env input db (place_new env input db).1 (place_new env input db).0
unfolding place_new
place_new-Ended env input db = elim (Result-cases (place_tx env input (env.meanwhile db))) [
  | inl ((r, db'), e) ↦
      let c = place_tx-Committed env input (env.meanwhile db) db' r e in
      rw (transaction_of_ok (place_tx env input) (env.meanwhile db) e) (
        placed r (ap (λ (q : PlaceOrderResult). q.status) c.answers)
          (ap (λ (q : PlaceOrderResult). q.replayed) c.answers)
          (Committed-Added env input (env.meanwhile db) db' r c))
  | inr (x, e) ↦ rw (transaction_of_err (place_tx env input) (env.meanwhile db) e) (
      ended_err env input db _
        (on_error-replayed (key_of input) (hash_request env input) x (env.meanwhile db)))
]

-- A request ends in one of three ways. It is placed: status 201, and to what the other clients had
-- committed it has added exactly one order with one line for each item of the request, for the item's
-- product and quantity, at the price of an active row of that product, and with price times quantity as
-- its line total; the order's total is the sum of these, its items are the lines, and one unpublished
-- outbox row holds its event; the answer is the body of that order. Or the answer is a replay, or the
-- request is refused, and then it has added nothing.
pub place_order-Ended :
    (env : Env) (input : PlaceOrderInput) (db : Db)
    → Ended env input db (place_order env input db).1 (place_order env input db).0
unfolding place_order
place_order-Ended env input db = from (prior_of env input db) refl
  where
    from :
        (p : Result OrderError (Option PlaceOrderResult))
        → prior_of env input db ≡ p
        → Ended env input db (place_order env input db).1 (place_order env input db).0
    from (err e) h = rw (h, place_order) (refused e (inl refl))
    from (ok none) h = rw (h, place_order) (place_new-Ended env input db)
    from (ok (some r)) h =
        rw (h, place_order) (replayed r (prior_of-replayed env input db r h) (inl refl))

-- An answer that is no replay comes from a transaction that committed.
pub place_order-Committed :
    (env : Env) (input : PlaceOrderInput) (db db' : Db) (r : PlaceOrderResult)
    → place_order env input db ≡ (ok r, db')
    → r.replayed ≡ false
    → Committed env input (env.meanwhile db) db' r
unfolding place_order place_new
place_order-Committed env input db db' r h f =
    place_tx-Committed env input (env.meanwhile db) db' r
      (elim (Result-cases (place_tx env input (env.meanwhile db))) [
        | inl ((x, d), e) ↦ ground (arith, prior_of-replayed env input db r)
        | inr (x, e) ↦ ground (
          arith,
          prior_of-replayed env input db r,
          on_error-replayed (key_of input) (hash_request env input) x (env.meanwhile db) r,
        )
      ])
