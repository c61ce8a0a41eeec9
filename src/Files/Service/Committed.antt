-- ===== src/Files/Service/Committed.antt =====
-- src/files/files.service.ts: what a commit has looked at when it says COMPLETED, and what it changes.
use nodejs_advanced_homework.Prelude.{
  ◌≡◌, err, ◌⊎◌, or_else, Result, false, true, List, String, some, ℕ, ok,
}
use nodejs_advanced_homework.Auth.Tables.{AccessClaims}
use nodejs_advanced_homework.Storage.{S3, ObjectHead, head, read_range}
use nodejs_advanced_homework.Files.Policy.{magic_matches}
use nodejs_advanced_homework.Files.Service.{
  find_owned, is_completed, World, FilesAct, FileRow, FileError, FileEnv, CommitResponse,
  magic_bytes, complete_row,
}

module _ (s3 : S3) where
  -- The storage was asked for the object, which has the size of the row, and then for its first bytes,
  -- which fit the content type; nothing was sent to it afterwards.
  pub record WasChecked (row : FileRow) (h : ObjectHead) (last : s3.State) : Type 0 where
    pub before : s3.State
    pub between : s3.State
    pub magic : List ℕ
    pub headed : head s3 row.key before ≡ (ok (some h), between)
    pub sized : h.size ≡ row.size
    pub read : read_range s3 row.key magic_bytes between ≡ (ok magic, last)
    pub matched : magic_matches row.content_type magic ≡ true

  -- An error leaves the table as it was.
  abbrev FailsQuietly : {A : Type 0} → FilesAct s3 A → Type 0
  FailsQuietly m = (w u : World s3) (e : FileError) → m w ≡ (err e, u) → u.files ≡ w.files

  -- What the answer says of the row, of the table and of the storage.
  abbrev pub Committed :
      FileEnv
      → AccessClaims
      → String
      → World s3
      → Result FileError CommitResponse × World s3
      → Type 0
  Committed env viewer id w (ok r, u) =
      (row : FileRow) × (find_owned viewer id w.files ≡ ok row)
      × (((is_completed row.status ≡ true)
            × (u ≡ w)
            × (r ≡ record {
              file_id = row.id;
              key = row.key;
              size = row.size;
              etag = or_else row.etag "";
            }))
          ⊎ ((is_completed row.status ≡ false)
              × (h : ObjectHead) × WasChecked row h u.storage
              × (r ≡ record { file_id = row.id; key = row.key; size = row.size; etag = h.etag })
              × (u.files ≡ complete_row env.now row.id h.etag w.files)))
  Committed env viewer id w (err e, u) = u.files ≡ w.files
