-- ===== src/Files/Orphans.antt =====
-- src/files/orphans.ts: the sweep of intents that were never committed, storage first and row last. The rows that
-- another worker has locked are the environment's.
use nodejs_advanced_homework.Prelude.{
  ℕ, ◌+◌, ◌*◌, Bool, not, ◌&&◌, Option, none, some, List, [], ◌∷◌, String, leb, ltb, length, take,
  any, filter, sort_by, ok, err,
}
use nodejs_advanced_homework.Prelude.Actions.{◌>>◌, done}
use nodejs_advanced_homework.Storage.{S3, StorageAct, truthy, abort_multipart, delete_object}
use nodejs_advanced_homework.Files.Service.{
  FilesAct, FileRow, is_completed, on_storage, change_files, uuid_eq,
}

abbrev pub orphan_age_hours : ℕ
orphan_age_hours = 24

abbrev pub batch : ℕ
batch = 100

-- `status = 'PENDING' AND created_at < now() - make_interval(hours => $1)`
abbrev pub is_orphan : ℕ → ℕ → FileRow → Bool
is_orphan now older_than_hours row =
    not (is_completed row.status) && ltb (row.created_at + older_than_hours * 3600) now

-- `ORDER BY created_at LIMIT 100 FOR UPDATE SKIP LOCKED`
unfoldable pub claim_orphans : ℕ → ℕ → (FileRow → Bool) → List FileRow → List FileRow
claim_orphans now older_than_hours locked rows = take batch (
    sort_by (λ a b. leb a.created_at b.created_at)
      (filter (λ r. is_orphan now older_than_hours r && not (locked r)) rows))

-- `DELETE FROM files WHERE id = ANY($1::uuid[])`
unfoldable pub delete_rows : List FileRow → List FileRow → List FileRow
delete_rows claimed rows = filter (λ r. not (any (λ c. uuid_eq c.id r.id) claimed)) rows

module _ (s3 : S3) where
  abbrev abort_open : FileRow → Option String → StorageAct s3 (Unit {0})
  abort_open row none = done tt
  abort_open row (some upload_id) = abort_multipart s3 row.key upload_id

  unfoldable pub purge_files : List FileRow → StorageAct s3 (Unit {0})
  purge_files [] = done tt
  purge_files (row ∷ rows) = do
    abort_open row (truthy row.upload_id)
    delete_object s3 row.key
    purge_files rows

  -- `ROLLBACK` gives the table back; what was sent to the storage stays sent.
  abbrev pub rolling_back : {A : Type 0} → FilesAct s3 A → FilesAct s3 A
  rolling_back m w = elim (m w).0 [
    | ok a ↦ (ok a, (m w).1)
    | err e ↦ (err e, record (m w).1 { files = w.files })
  ]

  abbrev pub delete_if_any : List FileRow → FilesAct s3 (Unit {0})
  delete_if_any [] = done tt
  delete_if_any (c ∷ cs) = change_files s3 (delete_rows (c ∷ cs))

  -- storage first, rows last
  unfoldable pub sweep_claimed : List FileRow → FilesAct s3 ℕ
  unfolding delete_rows purge_files
  sweep_claimed claimed = do
    on_storage s3 (purge_files claimed)
    delete_if_any claimed
    done (length claimed)

  -- how many were swept
  unfoldable pub sweep_orphan_files : ℕ → ℕ → (FileRow → Bool) → FilesAct s3 ℕ
  unfolding claim_orphans sweep_claimed
  sweep_orphan_files now older_than_hours locked w =
      rolling_back (sweep_claimed (claim_orphans now older_than_hours locked w.files)) w
