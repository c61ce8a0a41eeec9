-- ===== src/Outbox/Consumer/Inbox.antt =====
-- src/outbox/consumer.ts: the inbox makes the effect happen once, whatever fails on the way.
use nodejs_advanced_homework.Prelude.{
  Result-cases, ℕ, zero, suc, ◌≤◌, ◌≡◌, refl, Bool, true, false, none, some, List, [], ◌∷◌, String,
  str_eq, str_eq_iff, if◌then◌else◌, any, ok, arith, Option-cases, sum_by, ◌⊎◌, inl, inr, ◌&&◌,
}
use nodejs_advanced_homework.Outbox.Event.{ParsedEvent, parse_order_placed_event}
use nodejs_advanced_homework.Outbox.Consumer.{
  Mark, Confirmation, Db, Statement, Answer, is_marked, is_effected, insert_mark,
  insert_confirmation, apply_order_placed, apply_from, apply_with_retry, Delivery, Env, acked,
  ConsumerStats, handle, consume, after_apply, on_error, settle_applied, consumer_name,
}

-- How often a message is marked for this consumer, and an order is confirmed.
abbrev pub marks : String → Db → ℕ
marks id db =
    sum_by (λ m. if str_eq m.message_id id && str_eq m.consumer consumer_name then 1 else 0)
      db.processed_messages

abbrev pub effects : String → Db → ℕ
effects order_id db =
    sum_by (λ c. if str_eq c.order_id order_id then 1 else 0) db.order_confirmations

sum_by-any :
    {A : Type 0} (p : A → Bool) (xs : List A)
    → any p xs ≡ false
    → sum_by (λ x. if p x then 1 else 0) xs ≡ 0
sum_by-any p [] h = refl
sum_by-any p (x ∷ xs) h = ground (arith, sum_by-any p xs)

-- The event's mark and its effect, written together.
abbrev pub applied_db : ParsedEvent → Db → Db
applied_db event db = insert_confirmation event (insert_mark event db)

applied_db-marks :
    (event : ParsedEvent) (db : Db) (id : String)
    → is_marked event.event_id db ≡ false
    → marks id db ≤ 1
    → marks id (applied_db event db) ≤ 1
unfolding insert_mark insert_confirmation is_marked
applied_db-marks event db id fresh h = ground (
  arith,
  sum_by-any (λ (m : Mark). str_eq m.message_id event.event_id && str_eq m.consumer consumer_name)
      db.processed_messages,
  str_eq_iff event.event_id id,
)

applied_db-effects :
    (event : ParsedEvent) (db : Db) (order_id : String)
    → effects order_id db ≤ 1
    → effects order_id (applied_db event db) ≤ 1
unfolding insert_mark insert_confirmation is_effected
applied_db-effects event db order_id h = ground (
  arith,
  sum_by-any (λ (c : Confirmation). str_eq c.order_id event.order_id) db.order_confirmations,
  str_eq_iff event.order_id order_id,
)

-- What an attempt, or several, or a whole delivery may leave of the database.
abbrev pub Outcomes : ParsedEvent → Db → Db → Type 0
Outcomes event db db' =
    (db' ≡ db) ⊎ ((is_marked event.event_id db ≡ false) × (db' ≡ applied_db event db))

apply_order_placed-Outcomes :
    (answer : Statement → Answer) (event : ParsedEvent) (db : Db)
    → Outcomes event db (apply_order_placed answer event db).1
unfolding apply_order_placed
apply_order_placed-Outcomes answer event db = ground arith

is_marked-applied_db :
    (event : ParsedEvent) (db : Db) → is_marked event.event_id (applied_db event db) ≡ true
unfolding is_marked insert_mark insert_confirmation
is_marked-applied_db event db =
    ground (arith, str_eq_iff event.event_id event.event_id, str_eq_iff consumer_name consumer_name)

is_effected-applied_db :
    (event : ParsedEvent) (db : Db) → is_effected event.order_id (applied_db event db) ≡ true
unfolding is_effected insert_mark insert_confirmation
is_effected-applied_db event db = ground (arith, str_eq_iff event.order_id event.order_id)

-- A success says that the mark is there.
apply_order_placed-is_marked :
    (answer : Statement → Answer) (event : ParsedEvent) (db : Db) (fresh : Bool)
    → (apply_order_placed answer event db).0 ≡ ok fresh
    → is_marked event.event_id (apply_order_placed answer event db).1 ≡ true
unfolding apply_order_placed
apply_order_placed-is_marked answer event db fresh h = ground (arith, is_marked-applied_db event db)

-- So do several attempts: nothing is written twice across them.
pub apply_from-Outcomes :
    (answer : ℕ → Statement → Answer) (event : ParsedEvent) (left attempt : ℕ) (db : Db)
    → Outcomes event db (apply_from answer event left attempt db).1
unfolding apply_from
apply_from-Outcomes answer event zero attempt db =
    apply_order_placed-Outcomes (answer attempt) event db
apply_from-Outcomes answer event (suc left) attempt db = ground (
  arith,
  apply_order_placed-Outcomes (answer attempt) event db,
  apply_from-Outcomes answer event left (suc attempt)
      (apply_order_placed (answer attempt) event db).1,
  is_marked-applied_db event db,
)

pub apply_from-is_marked :
    (answer : ℕ → Statement → Answer) (event : ParsedEvent) (left attempt : ℕ) (db : Db)
    (fresh : Bool)
    → (apply_from answer event left attempt db).0 ≡ ok fresh
    → is_marked event.event_id (apply_from answer event left attempt db).1 ≡ true
unfolding apply_from
apply_from-is_marked answer event zero attempt db fresh h =
    apply_order_placed-is_marked (answer attempt) event db fresh h
apply_from-is_marked answer event (suc left) attempt db fresh h = ground (
  arith,
  apply_order_placed-is_marked (answer attempt) event db fresh,
  apply_from-is_marked answer event left (suc attempt)
      (apply_order_placed (answer attempt) event db).1 fresh,
)

apply_order_placed-fresh :
    (answer : Statement → Answer) (event : ParsedEvent) (db : Db)
    → (apply_order_placed answer event db).0 ≡ ok true
    → (is_marked event.event_id db ≡ false)
      × ((apply_order_placed answer event db).1 ≡ applied_db event db)
unfolding apply_order_placed
apply_order_placed-fresh answer event db h = ground arith

-- Attempts that say that the message was new have found no mark, and applied it.
pub apply_from-fresh :
    (answer : ℕ → Statement → Answer) (event : ParsedEvent) (left attempt : ℕ) (db : Db)
    → (apply_from answer event left attempt db).0 ≡ ok true
    → (is_marked event.event_id db ≡ false)
      × ((apply_from answer event left attempt db).1 ≡ applied_db event db)
unfolding apply_from
apply_from-fresh answer event zero attempt db h =
    apply_order_placed-fresh (answer attempt) event db h
apply_from-fresh answer event (suc left) attempt db h = ground (
  arith,
  apply_order_placed-fresh (answer attempt) event db,
  apply_order_placed-Outcomes (answer attempt) event db,
  apply_from-fresh answer event left (suc attempt) (apply_order_placed (answer attempt) event db).1,
  is_marked-applied_db event db,
)

-- The database that a delivery leaves is the one that its attempts left.
handle-db :
    (env : Env) (d : Delivery) (db : Db) (stats : ConsumerStats) (event : ParsedEvent)
    → parse_order_placed_event d.content ≡ some event
    → (handle env d db stats).db ≡ (apply_with_retry env.answer event db).1
unfolding handle after_apply on_error settle_applied
handle-db env d db stats event h = rw (h, handle) (ground arith)

pub handle-none-db :
    (env : Env) (d : Delivery) (db : Db) (stats : ConsumerStats)
    → parse_order_placed_event d.content ≡ none
    → (handle env d db stats).db ≡ db
unfolding handle
handle-none-db env d db stats h = rw (h, handle) refl

handle-acked :
    (env : Env) (d : Delivery) (db : Db) (stats : ConsumerStats) (event : ParsedEvent)
    → parse_order_placed_event d.content ≡ some event
    → (handle env d db stats).settlement ≡ acked
    → (fresh : Bool) × ((apply_with_retry env.answer event db).0 ≡ ok fresh)
unfolding handle after_apply on_error settle_applied
handle-acked env d db stats event h a =
    elim (Result-cases (apply_with_retry env.answer event db).0) [
      | inl found ↦ found
      | inr (e, r) ↦ absurd (ground arith)
    ]

-- A delivery, whatever fails during it, either leaves the database alone, or writes the mark and the
-- effect of its event together, and the latter only for an event that had no mark.
pub handle-once :
    (env : Env) (d : Delivery) (db : Db) (stats : ConsumerStats) (event : ParsedEvent)
    → parse_order_placed_event d.content ≡ some event
    → Outcomes event db (handle env d db stats).db
unfolding apply_with_retry
handle-once env d db stats event h =
    rw (handle-db env d db stats event h) (apply_from-Outcomes env.answer event _ 1 db)

-- A delivery that is acknowledged leaves its event marked in the inbox: no event is acknowledged
-- before its transaction has committed.
pub handle-acked-is_marked :
    (env : Env) (d : Delivery) (db : Db) (stats : ConsumerStats) (event : ParsedEvent)
    → parse_order_placed_event d.content ≡ some event
    → (handle env d db stats).settlement ≡ acked
    → is_marked event.event_id (handle env d db stats).db ≡ true
unfolding apply_with_retry
handle-acked-is_marked env d db stats event h a =
    let (fresh, e) = handle-acked env d db stats event h a in
    rw (handle-db env d db stats event h) (apply_from-is_marked env.answer event _ 1 db fresh e)

pub record IsOnce (db : Db) : Type 0 where
  pub marked : (id : String) → marks id db ≤ 1
  pub effected : (order_id : String) → effects order_id db ≤ 1

Outcomes-IsOnce :
    (event : ParsedEvent) (db db' : Db) → Outcomes event db db' → IsOnce db → IsOnce db'
Outcomes-IsOnce event db db' (inl same) h = rw same h
Outcomes-IsOnce event db db' (inr (fresh, e)) h = rw e (record {
  marked = λ id. applied_db-marks event db id fresh (h.marked id);
  effected = λ o. applied_db-effects event db o (h.effected o);
})

pub handle-IsOnce :
    (env : Env) (d : Delivery) (db : Db) (stats : ConsumerStats)
    → IsOnce db
    → IsOnce (handle env d db stats).db
handle-IsOnce env d db stats h = elim (Option-cases (parse_order_placed_event d.content)) [
  | inl p ↦ rw (handle-none-db env d db stats p) h
  | inr (event, p) ↦ Outcomes-IsOnce event db _ (handle-once env d db stats event p) h
]

-- From an inbox with at most one mark for each message and one confirmation for each order, any
-- sequence of deliveries, redelivered and failing in any way, leaves such an inbox.
pub consume-IsOnce :
    (ds : List (Env × Delivery)) (db : Db) (stats : ConsumerStats)
    → IsOnce db
    → IsOnce (consume ds db stats).0
unfolding consume
consume-IsOnce [] db stats h = h
consume-IsOnce ((env, d) ∷ ds) db stats h = consume-IsOnce ds _ _ (handle-IsOnce env d db stats h)
