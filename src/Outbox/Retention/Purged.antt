-- ===== src/Outbox/Retention/Purged.antt =====
-- src/outbox/retention.ts: the batches end, and what they delete.
use nodejs_advanced_homework.Prelude.{
  zero, ◌∙◌, ap, sym, inr, ltb, inl, refl, Bool-cases, [], some, ◌+◌, arith, or_else, ◌∷◌, ◌<◌,
  length, min, ◌≤◌, is_some, ◌≡◌, filter, not, count, List, Bool, ℕ, suc,
}
use nodejs_advanced_homework.Outbox.Retention.{
  inbox_age, is_forgotten, outbox_age, PurgeResult, purge_batch_size, is_outdated, PurgeOptions,
  delete_in_batches, delete_batch, purge_outbox, OutboxRow, Db,
}

module _ {A : Type 0} (p : A → Bool) where
  -- A batch deletes as many rows as there are, up to its size, and only eligible ones.
  delete_batch-count :
      (n : ℕ) (rows : List A)
      → ((delete_batch p n rows).0 ≡ min n (count p rows))
        × (count p (delete_batch p n rows).1 + (delete_batch p n rows).0 ≡ count p rows)
        × (filter (λ x. not (p x)) (delete_batch p n rows).1 ≡ filter (λ x. not (p x)) rows)
  unfolding delete_batch
  delete_batch-count zero rows = (omega arith, omega arith, refl)
  delete_batch-count (suc n) [] = (omega arith, omega arith, refl)
  delete_batch-count (suc n) (x ∷ xs) = elim (Bool-cases (p x)) [
    | inl t ↦
        let (a, b, c) = delete_batch-count n xs in
        (ground (arith, a), ground (arith, b), ground (arith, c))
    | inr f ↦
        let (a, b, c) = delete_batch-count (suc n) xs in
        (ground (arith, a), ground (arith, b), ground (arith, c))
  ]

  count-length :
      (rows : List A)
      → (count p rows ≤ length rows)
        × (count p rows + length (filter (λ x. not (p x)) rows) ≡ length rows)
  count-length [] = (omega arith, omega arith)
  count-length (x ∷ xs) = ground (arith, count-length xs)

  filter-count_zero : (rows : List A) → count p rows ≡ 0 → filter (λ x. not (p x)) rows ≡ rows
  filter-count_zero [] h = refl
  filter-count_zero (x ∷ xs) h = ground (arith, filter-count_zero xs)

  delete_in_batches-eq :
      (batch fuel total : ℕ) (rows : List A)
      → 1 ≤ batch
      → count p rows < fuel
      → delete_in_batches p batch fuel total rows
        ≡ some (total + count p rows, filter (λ x. not (p x)) rows)
  unfolding delete_in_batches
  delete_in_batches-eq batch zero total rows pos enough = absurd (omega arith)
  delete_in_batches-eq batch (suc fuel) total rows pos enough =
      let (a, b, c) = delete_batch-count batch rows in
      let left = (delete_batch p batch rows).1 in
      elim (Bool-cases (ltb (delete_batch p batch rows).0 batch)) [
        | inl t ↦
            let none_left : count p left ≡ 0 = ground arith in
            let is : (delete_batch p batch rows).0 ≡ count p rows = omega arith in
            rw (t, is, sym (filter-count_zero left none_left), c) refl
        | inr f ↦
            let more =
              delete_in_batches-eq batch fuel (total + (delete_batch p batch rows).0) left pos
                (ground arith) in
            let sum : (total + (delete_batch p batch rows).0) + count p left
                ≡ total + count p rows =
              omega arith in
            rw f (
              more
              ∙ ap (λ n. some (n, filter (λ x. not (p x)) left)) sum
              ∙ ap (λ r. some (total + count p rows, r)) c)
      ]

-- A row that a purge must keep: one that is not published, pending or parked.
abbrev pub is_unpublished : OutboxRow → Bool
is_unpublished row = not (is_some row.published_at)

purge-unpublished :
    (now retention : ℕ) (rows : List OutboxRow)
    → filter is_unpublished (filter (λ r. not (is_outdated now retention r)) rows)
      ≡ filter is_unpublished rows
purge-unpublished now retention [] = refl
purge-unpublished now retention (r ∷ rs) = ground (arith, purge-unpublished now retention rs)

-- With a batch size of one at least, and fuel for every row, a purge ends. It deletes exactly the outbox rows that were
-- published before the cut-off and the inbox marks that are older than theirs, reports how many, and
-- keeps every row that is not published.
pub purge_outbox-eq :
    (fuel now : ℕ) (opts : PurgeOptions) (db : Db)
    → 1 ≤ or_else opts.batch_size purge_batch_size
    → length db.outbox < fuel
    → length db.processed_messages < fuel
    → (r : PurgeResult) × (db' : Db) × (purge_outbox fuel now opts db ≡ some (r, db'))
      × (db'.outbox ≡ filter (λ x. not (is_outdated now (outbox_age opts) x)) db.outbox)
      × (db'.processed_messages
          ≡ filter (λ x. not (is_forgotten now (inbox_age opts) x)) db.processed_messages)
      × (r.outbox + length db'.outbox ≡ length db.outbox)
      × (r.processed + length db'.processed_messages ≡ length db.processed_messages)
      × (filter is_unpublished db'.outbox ≡ filter is_unpublished db.outbox)
unfolding purge_outbox
purge_outbox-eq fuel now opts db pos f g =
    let p = is_outdated now (outbox_age opts) in
    let q = is_forgotten now (inbox_age opts) in
    let (lp, sp) = count-length p db.outbox in
    let (lq, sq) = count-length q db.processed_messages in
    let a =
      delete_in_batches-eq p (or_else opts.batch_size purge_batch_size) fuel 0 db.outbox pos
        (omega arith) in
    let b =
      delete_in_batches-eq q (or_else opts.batch_size purge_batch_size) fuel 0 db.processed_messages
        pos (omega arith) in
    (
      record { outbox = 0 + count p db.outbox; processed = 0 + count q db.processed_messages },
      record {
        outbox = filter (λ x. not (p x)) db.outbox;
        processed_messages = filter (λ x. not (q x)) db.processed_messages;
      },
      ground (arith, a, b),
      refl,
      refl,
      omega arith,
      omega arith,
      purge-unpublished now (outbox_age opts) db.outbox,
    )
