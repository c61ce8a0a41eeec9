-- ===== src/Outbox/Consumer.antt =====
-- src/outbox/consumer.ts: the inbox, the effect, local retries, and how a delivery is settled.
-- What the database and the channel answer is the environment of a delivery.
pub mod Tests
pub mod Inbox
pub mod Settling
use nodejs_advanced_homework.Prelude.{
  ℕ, zero, suc, ◌+◌, ◌-◌, Bool, true, false, not, ◌&&◌, ◌||◌, Option, none, some, List, [], ◌∷◌,
  String, str_eq, ltb, leb, if◌then◌else◌, any, Result, ok, err,
}
use nodejs_advanced_homework.Prelude.Json.{Json}
use nodejs_advanced_homework.Outbox.Event.{ParsedEvent, parse_order_placed_event}
use nodejs_advanced_homework.Outbox.Errors.{Thrown, is_transient_db_error}

abbrev pub consumer_name : String
consumer_name = "order-confirmations"

abbrev pub consumer_local_attempts : ℕ
consumer_local_attempts = 3

abbrev pub consumer_max_redeliveries : ℕ
consumer_max_redeliveries = 5

pub record ConsumerStats : Type 0 where
  pub deliveries : ℕ
  pub applied : ℕ
  pub skipped : ℕ
  pub rejected : ℕ
  pub requeued : ℕ
  pub failed : ℕ

abbrev pub empty_stats : ConsumerStats
empty_stats = record {
  deliveries = 0;
  applied = 0;
  skipped = 0;
  rejected = 0;
  requeued = 0;
  failed = 0;
}

-- a row of `processed_messages`
pub record Mark : Type 0 where
  pub message_id : String
  pub consumer : String

-- a row of `order_confirmations`
pub record Confirmation : Type 0 where
  pub order_id : String
  pub event_id : String
  pub user_id : String
  pub total_cents : ℕ

pub record Db : Type 0 where
  pub processed_messages : List Mark
  pub order_confirmations : List Confirmation

-- The statements of the transaction.
pub data Statement : Type 0 where
  connect begin mark effect commit rollback : Statement

-- What becomes of a statement: it works, it fails, or it works and its answer is lost.
pub data Answer : Type 0 where
  done : Answer
  failed : Thrown → Answer
  lost : Thrown → Answer

unfoldable pub is_marked : String → Db → Bool
is_marked id db =
    any (λ m. str_eq m.message_id id && str_eq m.consumer consumer_name) db.processed_messages

unfoldable pub is_effected : String → Db → Bool
is_effected order_id db = any (λ c. str_eq c.order_id order_id) db.order_confirmations

-- `INSERT INTO processed_messages …`, where the mark is not there yet
unfoldable pub insert_mark : ParsedEvent → Db → Db
insert_mark event db = record db {
  processed_messages =
      (record { message_id = event.event_id; consumer = consumer_name }) ∷ db.processed_messages;
}

-- `INSERT INTO order_confirmations … ON CONFLICT (order_id) DO NOTHING`
unfoldable pub insert_confirmation : ParsedEvent → Db → Db
insert_confirmation event db = if is_effected event.order_id db then db else record db {
  order_confirmations =
      (record {
        order_id = event.order_id;
        event_id = event.event_id;
        user_id = event.user_id;
        total_cents = event.total_cents;
      })
      ∷ db.order_confirmations;
}

-- A statement that fails, or whose answer is lost, throws; only a lost COMMIT has taken effect.
abbrev then_do : {A : Type 0} → Answer → (Thrown → A) → A → A
then_do done on_error next = next
then_do (failed e) on_error next = on_error e
then_do (lost e) on_error next = on_error e

abbrev committed : Answer → Db → Db → Result Thrown Bool × Db
committed done before after = (ok true, after)
committed (failed e) before after = (err e, before)
committed (lost e) before after = (err e, after)

abbrev rolled_back : Answer → Db → Result Thrown Bool × Db
rolled_back done db = (ok false, db)
rolled_back (failed e) db = (err e, db)
rolled_back (lost e) db = (err e, db)

unfoldable pub apply_order_placed :
    (Statement → Answer) → ParsedEvent → Db → Result Thrown Bool × Db
apply_order_placed answer event db =
    let fail : Thrown → Result Thrown Bool × Db = λ e. (err e, db) in
    then_do (answer connect) fail (
      then_do (answer begin) fail (
        then_do (answer mark) fail (
          if is_marked event.event_id db
          then rolled_back (answer rollback) db
          else then_do (answer effect) fail
              (committed (answer commit) db (insert_confirmation event (insert_mark event db))))))

-- `withLocalRetry`: `left` attempts may follow this one.
abbrev retry_or : Result Thrown Bool × Db → (Db → Result Thrown Bool × Db) → Result Thrown Bool × Db
retry_or (ok b, db) again = (ok b, db)
retry_or (err e, db) again = if is_transient_db_error e then again db else (err e, db)

unfoldable pub apply_from :
    (ℕ → Statement → Answer) → ParsedEvent → ℕ → ℕ → Db → Result Thrown Bool × Db
apply_from answer event zero attempt db = apply_order_placed (answer attempt) event db
apply_from answer event (suc left) attempt db =
    retry_or (apply_order_placed (answer attempt) event db)
      (λ db'. apply_from answer event left (suc attempt) db')

unfoldable pub apply_with_retry :
    (ℕ → Statement → Answer) → ParsedEvent → Db → Result Thrown Bool × Db
apply_with_retry answer event db = apply_from answer event (consumer_local_attempts - 1) 1 db

pub record Delivery : Type 0 where
  -- the content as JSON, `none` if it is not
  pub content : Option Json
  -- the header `x-delivery-count`, `none` where it is no finite number
  pub delivery_header : Option ℕ
  pub redelivered : Bool

pub record Env : Type 0 where
  -- the answers of the database, by attempt and statement
  pub answer : ℕ → Statement → Answer
  -- what `afterEffect` throws, `none` also where the option is not given
  pub after_effect : Option Thrown
  -- what `ch.ack` throws on a closed channel
  pub ack_error : Option Thrown

pub data Settlement : Type 0 where
  -- `ch.ack`, `ch.reject(msg, false)`, `ch.reject(msg, true)`, `ch.nack(msg, false, false)`
  acked dropped requeued dead_lettered : Settlement

unfoldable pub delivery_count : Delivery → ℕ
delivery_count d = elim d.delivery_header [ some n ↦ n | none ↦ if d.redelivered then 1 else 0 ]

pub record Outcome : Type 0 where
  pub db : Db
  pub stats : ConsumerStats
  pub settlement : Settlement

abbrev count_delivery : ConsumerStats → ConsumerStats
count_delivery s = record s { deliveries = s.deliveries + 1 }

abbrev count_applied : Bool → ConsumerStats → ConsumerStats
count_applied true s = record s { applied = s.applied + 1 }
count_applied false s = record s { skipped = s.skipped + 1 }

-- the `catch` of `handle`
unfoldable pub on_error : Bool → Delivery → Db → ConsumerStats → Outcome
on_error transient d db stats =
    if transient && ltb (delivery_count d) consumer_max_redeliveries
    then record {
      db = db;
      stats = record stats { requeued = stats.requeued + 1 };
      settlement = requeued;
    }
    else record {
      db = db;
      stats = record stats { failed = stats.failed + 1 };
      settlement = dead_lettered;
    }

-- `ch.ack`, inside the `try`
unfoldable pub settle_applied : Env → Delivery → Db → ConsumerStats → Outcome
settle_applied env d db stats = elim env.ack_error [
  | none ↦ record { db = db; stats = stats; settlement = acked }
  | some e ↦ on_error (is_transient_db_error e) d db stats
]

-- An `afterEffect` that throws is an AfterEffectError, which counts as transient.
unfoldable pub after_apply : Env → Delivery → ConsumerStats → Result Thrown Bool × Db → Outcome
after_apply env d stats (err e, db) = on_error (is_transient_db_error e) d db stats
after_apply env d stats (ok fresh, db) = elim env.after_effect [
  | some e ↦ on_error true d db stats
  | none ↦ settle_applied env d db (count_applied fresh stats)
]

unfoldable pub handle : Env → Delivery → Db → ConsumerStats → Outcome
handle env d db stats = elim (parse_order_placed_event d.content) [
  | none ↦ record {
    db = db;
    stats = (let s = count_delivery stats in record s { rejected = s.rejected + 1 });
    settlement = dropped;
  }
  | some event ↦ after_apply env d (count_delivery stats) (apply_with_retry env.answer event db)
]

-- One delivery after another.
unfoldable pub consume : List (Env × Delivery) → Db → ConsumerStats → Db × ConsumerStats
consume [] db stats = (db, stats)
consume ((env, d) ∷ rest) db stats = let o = handle env d db stats in consume rest o.db o.stats
