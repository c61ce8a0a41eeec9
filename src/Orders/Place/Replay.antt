-- ===== src/Orders/Place/Replay.antt =====
-- src/orders/place-order.ts: a repeated request with the same key is answered from the record.
use nodejs_advanced_homework.Prelude.{
  inr, inl, subst₂, ◌≡◌, refl, subst, true, false, Option, none, some, String, str_eq, str_eq_iff,
  Result, ok, err, arith, Result-cases, Option-cases, find?-append,
}
use nodejs_advanced_homework.Outbox.Event.{PlacedOrder}
use nodejs_advanced_homework.Orders.Place.{
  IdempotencyRecord, PlaceOrderInput, PlaceOrderResult, OrderResponseBody, Db, Env, OrderError,
  hash_request, find_record, claim_key, insert_outbox, key_of, place_tx, on_error, place_new,
  prior_of, place_order, find_replay,
}
use nodejs_advanced_homework.Orders.Place.Commit.{Committed, place_tx-Committed}

abbrev pub as_replay : PlaceOrderResult → PlaceOrderResult
as_replay r = record r { replayed = true }

-- The answer is on record under the key.
Stored : String → String → Db → PlaceOrderResult → Type 0
Stored key hash db r = find_replay key hash db ≡ ok (some (as_replay r))

find_replay-Stored :
    (key hash : String) (db : Db) (r : PlaceOrderResult)
    → find_replay key hash db ≡ ok (some r)
    → Stored key hash db r
unfolding Stored find_replay
find_replay-Stored key hash db r h = ground arith

claim_key-Stored :
    (env : Env) (key : String) (order : PlacedOrder) (body : OrderResponseBody) (hash : String)
    (db db' : Db)
    → claim_key env (some key) order body hash db ≡ ok (tt, db')
    → Stored key hash
        (insert_outbox env order db')
        (record { status = 201; body = body; replayed = false })
unfolding claim_key Stored find_replay find_record insert_outbox
claim_key-Stored env key order body hash db db' h = elim (Option-cases (find_record key db)) [
  | inl e ↦
      let row : IdempotencyRecord = record {
        idempotency_key = key;
        order_id = order.order_id;
        request_hash = hash;
        response_status = 201;
        response_body = body;
      } in
      let found =
        find?-append (λ (r : IdempotencyRecord). str_eq r.idempotency_key key)
          db.idempotency_records row e ((str_eq_iff key key).1 refl) in
      ground (arith, found, str_eq_iff hash hash)
  | inr (r, e) ↦ absurd (ground arith)
]

Committed-Stored :
    (env : Env) (input : PlaceOrderInput) (db db' : Db) (r : PlaceOrderResult) (key : String)
    → Committed env input db db' r
    → key_of input ≡ some key
    → Stored key (hash_request env input) db' r
Committed-Stored env input db db' r key c k =
    rw (c.ends, c.answers)
      (claim_key-Stored env key _ _ (hash_request env input) _ c.claimed (rw k at c.claims))

on_error-Stored :
    (key hash : String) (e : OrderError) (db : Db) (r : PlaceOrderResult)
    → on_error (some key) hash e db ≡ ok r
    → Stored key hash db r
unfolding on_error
on_error-Stored key hash OrderError.idempotent_replay db r h =
    ground (arith, find_replay-Stored key hash db r)
on_error-Stored key hash e db r h = cc

place_new-Stored :
    (env : Env) (input : PlaceOrderInput) (db db' : Db) (r : PlaceOrderResult) (key : String)
    → key_of input ≡ some key
    → place_new env input db ≡ (ok r, db')
    → Stored key (hash_request env input) db' r
unfolding place_new
place_new-Stored env input db db' r key k h =
    elim (Result-cases (place_tx env input (env.meanwhile db))) [
      | inl ((x, d), e) ↦
          let c = place_tx-Committed env input (env.meanwhile db) d x e in
          let same : (x ≡ r) × (d ≡ db') = ground arith in
          subst₂ (λ y z. Stored key (hash_request env input) z y) same.0 same.1
            (Committed-Stored env input _ d x key c k)
      | inr (x, e) ↦
          let caught : (on_error (key_of input) (hash_request env input) x (env.meanwhile db)
                ≡ ok r)
              × (env.meanwhile db ≡ db') =
            ground arith in
          subst (λ z. Stored key (hash_request env input) z r) caught.1
            (on_error-Stored key (hash_request env input) x (env.meanwhile db) r (rw k at caught.0))
    ]

prior_of-Stored :
    (env : Env) (input : PlaceOrderInput) (db : Db) (r : PlaceOrderResult) (key : String)
    → key_of input ≡ some key
    → prior_of env input db ≡ ok (some r)
    → Stored key (hash_request env input) db r
unfolding prior_of
prior_of-Stored env input db r key k h =
    find_replay-Stored key (hash_request env input) db r (rw (k, prior_of) at h)

prior_of_Stored :
    (again : Env) (input : PlaceOrderInput) (db later : Db) (r : PlaceOrderResult)
    (key hash : String)
    → key_of input ≡ some key
    → Stored key hash db r
    → hash_request again input ≡ hash
    → find_record key later ≡ find_record key db
    → prior_of again input later ≡ ok (some (as_replay r))
unfolding prior_of Stored find_replay
prior_of_Stored again input db later r key hash k s same kept = rw (k, prior_of, same, kept) s

place_order-Stored :
    (env : Env) (input : PlaceOrderInput) (db db' : Db) (r : PlaceOrderResult) (key : String)
    → key_of input ≡ some key
    → place_order env input db ≡ (ok r, db')
    → Stored key (hash_request env input) db' r
unfolding place_order
place_order-Stored env input db db' r key k h = from (prior_of env input db) refl
  where
    prior_same : (x : PlaceOrderResult) → prior_of env input db ≡ ok (some x) → (x ≡ r) × (db ≡ db')
    prior_same x q = ground arith

    from :
        (p : Result OrderError (Option PlaceOrderResult))
        → prior_of env input db ≡ p
        → Stored key (hash_request env input) db' r
    from (err e) q = absurd (ground arith)
    from (ok none) q = place_new-Stored env input db db' r key k (rw (q, place_order) at h)
    from (ok (some x)) q =
        subst₂ (λ y z. Stored key (hash_request env input) z y) (prior_same x q).0
          (prior_same x q).1 (prior_of-Stored env input db x key k q)

-- Once a request with a key has been answered, a request with the same key and the same hash, on any
-- database whose record of the key is still the one that it left, whatever other clients do in the
-- meantime, gets the same status and body, marked as a replay, and changes nothing.
pub place_order-replay :
    (env again : Env) (input : PlaceOrderInput) (db db' later : Db) (r : PlaceOrderResult)
    (key : String)
    → key_of input ≡ some key
    → place_order env input db ≡ (ok r, db')
    → hash_request again input ≡ hash_request env input
    → find_record key later ≡ find_record key db'
    → place_order again input later ≡ (ok (as_replay r), later)
unfolding place_order
place_order-replay env again input db db' later r key k h same kept =
    let s = place_order-Stored env input db db' r key k h in
    rw (prior_of_Stored again input db' later r key _ k s same kept, place_order) refl
