-- ===== src/Outbox/Relay.antt =====
-- src/outbox/relay.ts: one relay pass (claim, publish, mark) and the loop that drains the outbox.
-- Broker, database faults, clock and the rows that another relay has locked are the environment.
pub mod Tests
pub mod Pass
pub mod Marks
pub mod Potential
pub mod Drain
use nodejs_advanced_homework.Prelude.{
  ℕ, zero, suc, ◌+◌, Bool, true, false, not, ◌&&◌, ◌||◌, Option, none, some, List, [], ◌∷◌, String,
  str_eq, ltb, leb, ◌==◌, if◌then◌else◌, or_else, is_some, length, take, any, filter, update_where,
  sort_by, sum_by, Result, ok, err, Tx, ◌>>=◌, ◌>>◌, pure, throw, gets, modify, transaction,
  matches_ci, map,
}
use nodejs_advanced_homework.Prelude.Json.{Json}

abbrev pub relay_batch_size : ℕ
relay_batch_size = 50

abbrev pub relay_max_attempts : ℕ
relay_max_attempts = 5

abbrev exchange_events : String
exchange_events = "shop.events"

pub record OutboxRow : Type 0 where
  pub id : String
  pub aggregate_type : String
  pub aggregate_id : String
  pub type : String
  pub payload : Json
  pub created_at : ℕ
  pub published_at : Option ℕ
  pub attempts : ℕ
  pub last_error : Option String

-- What `ch.publish` is given.
pub record Message : Type 0 where
  pub exchange : String
  pub routing_key : String
  pub content : String
  pub persistent : Bool
  pub content_type : String
  pub message_id : String
  pub type : String
  pub aggregate_type : String
  pub aggregate_id : String

-- The statements at which the database may fail.
pub data Stage : Type 0 where
  connect begin select mark commit : Stage
  note : String → Stage

pub record Env : Type 0 where
  -- the rows that another transaction holds (`SKIP LOCKED`)
  pub locked : String → Bool
  -- Postgres's order on ids
  pub id_le : String → String → Bool
  -- `JSON.stringify`
  pub encode : Json → Result String String
  -- the confirm of a message: `none`, or the error that the channel gives
  pub send : Message → Option String
  -- `opts.afterPublish`, with what it throws
  pub after_publish : List OutboxRow → Option String
  -- the error of a statement that fails
  pub fault : Stage → Option String
  pub now : ℕ
  pub batch_size : Option ℕ

pub record RelayResult : Type 0 where
  pub published : ℕ
  pub failed : ℕ

pub record Settled : Type 0 where
  pub confirmed : List OutboxRow
  pub failed : List (String × String)

-- `WHERE published_at IS NULL AND attempts < $1`
unfoldable pub is_pending : OutboxRow → Bool
is_pending r = not (is_some r.published_at) && ltb r.attempts relay_max_attempts

-- `WHERE published_at IS NULL AND attempts >= $1`
unfoldable pub is_parked : OutboxRow → Bool
is_parked r = not (is_some r.published_at) && leb relay_max_attempts r.attempts

unfoldable pub is_channel_closed : String → Bool
is_channel_closed message =
    matches_ci "channel closed" message
    || matches_ci "channel ended" message
    || matches_ci "connection closed" message

unfoldable pub message_of : OutboxRow → String → Message
message_of row content = record {
  exchange = exchange_events;
  routing_key = row.type;
  content = content;
  persistent = true;
  content_type = "application/json";
  message_id = row.id;
  type = row.type;
  aggregate_type = row.aggregate_type;
  aggregate_id = row.aggregate_id;
}

-- `ORDER BY created_at, id`
abbrev row_le : (String → String → Bool) → OutboxRow → OutboxRow → Bool
row_le id_le a b =
    ltb a.created_at b.created_at || (a.created_at == b.created_at && id_le a.id b.id)

unfoldable pub mark_published : ℕ → OutboxRow → OutboxRow
mark_published now r = record r {
  published_at = some now;
  attempts = r.attempts + 1;
  last_error = none;
}

unfoldable pub note_failure : String → OutboxRow → OutboxRow
note_failure e r = record r { attempts = r.attempts + 1; last_error = some e }

-- `id = ANY($1)`
unfoldable pub has_id : List OutboxRow → OutboxRow → Bool
has_id confirmed r = any (λ c. str_eq c.id r.id) confirmed

abbrev add_confirmed : OutboxRow → Result String Settled → Result String Settled
add_confirmed r (ok s) = ok (record s { confirmed = r ∷ s.confirmed })
add_confirmed r (err e) = err e

abbrev add_failed : String → String → Result String Settled → Result String Settled
add_failed id e (ok s) = ok (record s { failed = (id, e) ∷ s.failed })
add_failed id e (err x) = err x

module _ (env : Env) where
  abbrev query : Stage → Tx (List OutboxRow) String (Unit {0})
  query stage s = elim (env.fault stage) [ none ↦ ok (tt, s) | some e ↦ err e ]

  -- the claim: pending rows in order, those locked elsewhere skipped, up to the limit
  pub claim : List OutboxRow → List OutboxRow
  claim table =
      take (or_else env.batch_size relay_batch_size)
        (filter (λ r. not (env.locked r.id)) (sort_by (row_le env.id_le) (filter is_pending table)))

  -- one row's confirm: `none`, or the reason of the refusal
  pub publish_row : OutboxRow → Option String
  publish_row row = elim (env.encode row.payload) [
    | err e ↦ some e
    | ok content ↦ env.send (message_of row content)
  ]

  -- the loop over the settled confirms; a closed channel is rethrown
  pub settle : List OutboxRow → Result String Settled
  settle [] = ok (record { confirmed = []; failed = [] })
  settle (r ∷ rs) = elim (publish_row r) [
    | none ↦ add_confirmed r (settle rs)
    | some e ↦ if is_channel_closed e then err e else add_failed r.id e (settle rs)
  ]

  run_hook : List OutboxRow → Tx (List OutboxRow) String (Unit {0})
  run_hook confirmed s = elim (env.after_publish confirmed) [ none ↦ ok (tt, s) | some e ↦ err e ]

  mark_confirmed : List OutboxRow → Tx (List OutboxRow) String (Unit {0})
  mark_confirmed [] = pure tt
  mark_confirmed (c ∷ cs) = do
    query mark
    modify (update_where (has_id (c ∷ cs)) (mark_published env.now))

  note_failures : List (String × String) → Tx (List OutboxRow) String (Unit {0})
  note_failures [] = pure tt
  note_failures ((id, e) ∷ fs) = do
    query (note id)
    modify (update_where (λ r. str_eq r.id id) (note_failure e))
    note_failures fs

  record_outcome : Settled → Tx (List OutboxRow) String RelayResult
  record_outcome settled = do
    run_hook settled.confirmed
    mark_confirmed settled.confirmed
    note_failures settled.failed
    query commit
    pure (record { published = length settled.confirmed; failed = length settled.failed })

  publish_claimed : List OutboxRow → Tx (List OutboxRow) String RelayResult
  publish_claimed [] s = ◌>>◌ (query commit) (pure (record { published = 0; failed = 0 })) s
  publish_claimed (r ∷ rs) s = elim (settle (r ∷ rs)) [
    | err e ↦ err e
    | ok settled ↦ record_outcome settled s
  ]

  relay_tx : Tx (List OutboxRow) String RelayResult
  relay_tx = do query connect; query begin; query select; rows ← gets claim; publish_claimed rows

  pub relay_batch : List OutboxRow → Result String RelayResult × List OutboxRow
  relay_batch = transaction relay_tx

unfoldable pub count_pending : List OutboxRow → ℕ
count_pending table = length (filter is_pending table)

unfoldable pub count_parked : List OutboxRow → ℕ
count_parked table = length (filter is_parked table)

-- `drainOutbox`: `env n` is the environment of pass `n`, and `clock n` the time after it.
-- `none` is fuel that ran out.
abbrev Drained : Type 0
Drained = Option (Result String ℕ)

module _ (env : ℕ → Env) (clock : ℕ → ℕ) (deadline : ℕ) where
  after_pass :
      (List OutboxRow → ℕ → Drained × List OutboxRow)
      → ℕ
      → ℕ
      → Result String RelayResult × List OutboxRow
      → Drained × List OutboxRow
  after_pass again n published (err e, table) = (some (err e), table)
  after_pass again n published (ok res, table) =
      let rest = again table (published + res.published) in
      if count_pending table == 0
      then (some (ok (published + res.published)), table)
      else if ltb deadline (clock n)
      then (some (err "relay timeout: outbox still has pending rows"), table)
      else rest

  drain_from : ℕ → ℕ → ℕ → List OutboxRow → Drained × List OutboxRow
  drain_from zero n published table = (none, table)
  drain_from (suc fuel) n published table =
      after_pass (λ t p. drain_from fuel (suc n) p t) n published (relay_batch (env n) table)

  pub drain_outbox : ℕ → List OutboxRow → Drained × List OutboxRow
  drain_outbox fuel table = drain_from fuel 0 0 table
