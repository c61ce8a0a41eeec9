-- ===== src/Outbox/Retention.antt =====
-- src/outbox/retention.ts: old rows are deleted in small batches. Times are in milliseconds; a batch is
-- the first rows that the scan of the table gives.
pub mod Purged
use nodejs_advanced_homework.Prelude.{
  ℕ, zero, suc, ◌+◌, Bool, true, false, Option, none, some, List, [], ◌∷◌, String, ltb,
  if◌then◌else◌, or_else,
}
use nodejs_advanced_homework.Outbox.Relay.{OutboxRow}

abbrev pub outbox_retention_ms : ℕ
outbox_retention_ms = 604800000

abbrev pub inbox_retention_ms : ℕ
inbox_retention_ms = 2592000000

abbrev pub purge_batch_size : ℕ
purge_batch_size = 1000

pub record PurgeOptions : Type 0 where
  pub outbox_retention_ms : Option ℕ
  pub inbox_retention_ms : Option ℕ
  pub batch_size : Option ℕ

pub record PurgeResult : Type 0 where
  pub outbox : ℕ
  pub processed : ℕ

-- a row of `processed_messages`
pub record ProcessedMessage : Type 0 where
  pub message_id : String
  pub consumer : String
  pub processed_at : ℕ

pub record Db : Type 0 where
  pub outbox : List OutboxRow
  pub processed_messages : List ProcessedMessage

module _ {A : Type 0} where
  -- `DELETE … WHERE id IN (SELECT id … WHERE p LIMIT n)`, with the number of rows that it deletes
  unfoldable pub delete_batch : (A → Bool) → ℕ → List A → ℕ × List A
  delete_batch p zero rows = (0, rows)
  delete_batch p (suc n) [] = (0, [])
  delete_batch p (suc n) (x ∷ xs) =
      let (k, rest) = delete_batch p n xs in
      let (k', rest') = delete_batch p (suc n) xs in if p x then (suc k, rest) else (k', x ∷ rest')

  -- none is a loop that the fuel does not see the end of
  unfoldable pub delete_in_batches : (A → Bool) → ℕ → ℕ → ℕ → List A → Option (ℕ × List A)
  delete_in_batches p batch zero total rows = none
  delete_in_batches p batch (suc fuel) total rows =
      let (n, left) = delete_batch p batch rows in
      let rest = delete_in_batches p batch fuel (total + n) left in
      if ltb n batch then some (total + n, left) else rest

-- `published_at IS NOT NULL AND published_at < $1`
abbrev pub is_outdated : ℕ → ℕ → OutboxRow → Bool
is_outdated now retention row = elim row.published_at [
  | none ↦ false
  | some published_at ↦ ltb (published_at + retention) now
]

-- `processed_at < $1`
abbrev pub is_forgotten : ℕ → ℕ → ProcessedMessage → Bool
is_forgotten now retention mark = ltb (mark.processed_at + retention) now

abbrev pub outbox_age : PurgeOptions → ℕ
outbox_age opts = or_else opts.outbox_retention_ms outbox_retention_ms

abbrev pub inbox_age : PurgeOptions → ℕ
inbox_age opts = or_else opts.inbox_retention_ms inbox_retention_ms

unfoldable pub purge_outbox : ℕ → ℕ → PurgeOptions → Db → Option (PurgeResult × Db)
purge_outbox fuel now opts db =
    let batch = or_else opts.batch_size purge_batch_size in
    elim (delete_in_batches (is_outdated now (outbox_age opts)) batch fuel 0 db.outbox) [
      | none ↦ none
      | some (outbox, rows) ↦
          elim (delete_in_batches (is_forgotten now (inbox_age opts)) batch fuel 0
            db.processed_messages) [
              | none ↦ none
              | some (processed, marks) ↦ some (
                record { outbox = outbox; processed = processed },
                record { outbox = rows; processed_messages = marks },
              )
            ]
    ]
