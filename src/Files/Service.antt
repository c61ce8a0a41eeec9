-- ===== src/Files/Service.antt =====
-- src/files/files.service.ts: intent, resume, commit and download of an upload, over the table `files` and the
-- storage. Every query commits by itself; only what the storage says can fail on the way.
pub mod Keeping
pub mod Committed
pub mod Placed
pub mod Sent
pub mod Resumed
pub mod Tests
use Prim.Native.String.{◌++◌ as ◌<>◌}
use nodejs_advanced_homework.Prelude.{
  ℕ, zero, suc, ◌+◌, Bool, true, false, not, ◌&&◌, ◌||◌, Option, none, some, List, [], ◌∷◌, String,
  str_eq, leb, ltb, ◌==◌, if◌then◌else◌, map, length, any, find?, update_where, sort_by, is_some,
  Result, ok, err,
}
use nodejs_advanced_homework.Prelude.Actions.{Act, ◌>>=◌, ◌>>◌, done, fail, ensure, catching}
use nodejs_advanced_homework.Auth.Tables.{AccessClaims, buyer, seller, admin}
use nodejs_advanced_homework.Storage.{
  ObjectHead, delete_object, S3, StorageAct, UploadedPart, is_not_found, truthy, head, read_range,
  create_multipart, list_parts, complete_multipart,
}
use nodejs_advanced_homework.Files.Policy.{
  allowed_type, PartPlan, PlanError, plan_parts, part_length, magic_matches,
}
pub use nodejs_advanced_homework.Files.Tables.{
  FileRow, Status, pending, completed, is_completed, UploadIntent, PartUrl, SingleUpload,
  MultipartUpload, IntentResponse, single, multipart, finished, CommitResponse, FileError, FileEnv,
  unsupported_media_type, payload_too_large, key_reused, in_progress, not_multipart, not_uploaded,
  content_mismatch, file_not_found, not_your_file, upload_expired, size_mismatch, parts_missing,
  part_wrong, plan_refused, storage_failed, nil_uuid,
}
unfoldable pub use nodejs_advanced_homework.Files.Tables.{is_uuid, uuid_eq}
unfoldable pub use nodejs_advanced_homework.Files.Rows.{
  put_url_ttl_sec, part_url_ttl_sec, download_url_ttl_sec, magic_bytes, multipart_threshold_bytes,
  number_of, plan_of_row, is_admin, owns, plan_for, has_key, new_file, owned, find_owned,
  find_by_key, distinct, with_upload, with_etag, is_pending, set_upload_id, complete_row, has_count,
  is_wrong, check_sizes, is_missing,
}

module _ (s3 : S3) where
  pub record World : Type 0 where
    pub storage : s3.State
    pub files : List FileRow

  abbrev pub FilesAct : Type 0 → Type 0
  FilesAct A = Act World FileError A

  -- a call of the storage
  abbrev pub on_storage : {A : Type 0} → StorageAct s3 A → FilesAct A
  on_storage m w = elim (m w.storage).0 [
    | ok a ↦ (ok a, record w { storage = (m w.storage).1 })
    | err e ↦ (err (storage_failed e), record w { storage = (m w.storage).1 })
  ]

  -- a query that may throw
  abbrev pub on_files : {A : Type 0} → (List FileRow → Result FileError A) → FilesAct A
  on_files q w = (q w.files, w)

  abbrev pub change_files : (List FileRow → List FileRow) → FilesAct (Unit {0})
  change_files f w = (ok tt, record w { files = f w.files })

  -- the parts `n`, `n + 1`, … that the storage does not have, each with a URL for its length
  unfoldable pub part_urls : FileRow → String → List ℕ → ℕ → ℕ → List PartUrl
  part_urls row upload_id have n zero = []
  part_urls row upload_id have n (suc left) =
      let rest = part_urls row upload_id have (n + 1) left in
      let length = part_length (plan_of_row row) row.size n in
      let signed = s3.signed_part row.key upload_id n length part_url_ttl_sec in
      if any (◌==◌ n) have then rest else (record { part_number = n; url = signed }) ∷ rest

  unfoldable pub list_parts_or_gone : FileRow → String → FilesAct (List UploadedPart)
  list_parts_or_gone row upload_id =
      catching (on_storage (list_parts s3 row.key upload_id))
        (λ e. fail (if is_missing e then upload_expired else e))

  unfoldable pub sign_single : FileRow → FilesAct IntentResponse
  sign_single row = done (
      single (record {
        file_id = row.id;
        key = row.key;
        expires_in = put_url_ttl_sec;
        url = s3.signed_put row.key row.content_type row.size put_url_ttl_sec;
        content_type = row.content_type;
      }))

  -- the answer, from the numbers of the parts that the storage has
  unfoldable pub multipart_of : FileRow → String → List ℕ → MultipartUpload
  unfolding part_urls
  multipart_of row upload_id have = record {
    file_id = row.id;
    key = row.key;
    expires_in = part_url_ttl_sec;
    part_size = number_of row.part_size;
    part_count = number_of row.part_count;
    uploaded_parts = sort_by leb have;
    parts = part_urls row upload_id have 1 (number_of row.part_count);
  }

  unfoldable pub sign_parts : FileRow → String → FilesAct IntentResponse
  unfolding list_parts_or_gone multipart_of
  sign_parts row upload_id = do
    uploaded ← list_parts_or_gone row upload_id
    done (multipart (multipart_of row upload_id (distinct (map (λ p. p.part_number) uploaded))))

  unfoldable pub sign_for : FileRow → FilesAct IntentResponse
  unfolding sign_single sign_parts
  sign_for row = elim (truthy row.upload_id) [
    | none ↦ sign_single row
    | some upload_id ↦ sign_parts row upload_id
  ]

  -- `INSERT … ON CONFLICT (owner_id, idempotency_key) DO NOTHING`: whether the row is new
  unfoldable pub insert_file : FileRow → FilesAct Bool
  insert_file row w =
      if any (has_key row.owner_id row.idempotency_key) w.files
      then (ok false, w)
      else (ok true, record w { files = row ∷ w.files })

  -- a double tap with the same Idempotency-Key
  unfoldable pub replay_intent :
      AccessClaims → UploadIntent → Option String → FilesAct IntentResponse
  unfolding find_by_key
  replay_intent viewer input key = do
    row ← on_files (find_by_key viewer key)
    ensure (str_eq row.content_type input.content_type && row.size == input.size) key_reused
    elim (is_completed row.status) [
      | true ↦ done (finished row.id row.key)
      | false ↦ do
        ensure (not (is_some row.part_count && not (is_some row.upload_id))) in_progress
        sign_for row
    ]

  -- the row of a new intent, with its multipart upload if the file is large
  unfoldable pub open_upload : Option PartPlan → FileRow → FilesAct FileRow
  unfolding set_upload_id
  open_upload none row = done row
  open_upload (some plan) row = do
    upload_id ← on_storage (create_multipart s3 row.key row.content_type)
    change_files (set_upload_id row.id upload_id)
    done (with_upload upload_id row)

  -- a new row gets its upload and its URLs; a row that was there is answered again
  unfoldable pub place_intent :
      AccessClaims
      → UploadIntent
      → Option String
      → Option PartPlan
      → FileRow
      → FilesAct IntentResponse
  unfolding insert_file open_upload replay_intent
  place_intent viewer input key plan row = do
    inserted ← insert_file row
    elim inserted [
      | true ↦ do opened ← open_upload plan row; sign_for opened
      | false ↦ replay_intent viewer input key
    ]

  unfoldable pub intent :
      FileEnv → AccessClaims → UploadIntent → Option String → FilesAct IntentResponse
  unfolding plan_for new_file place_intent
  intent env viewer input key = elim (allowed_type input.content_type) [
    | none ↦ fail unsupported_media_type
    | some type ↦ do
      ensure (leb input.size type.max_bytes) payload_too_large
      plan ← on_files (λ _. plan_for input.size)
      place_intent viewer input key plan (new_file env viewer input type.ext plan key)
  ]

  unfoldable pub resume : AccessClaims → String → FilesAct IntentResponse
  unfolding find_owned
  resume viewer id = do
    row ← on_files (find_owned viewer id)
    elim (is_completed row.status) [
      | true ↦ done (finished row.id row.key)
      | false ↦ elim (truthy row.upload_id) [ none ↦ fail not_multipart | some _ ↦ sign_for row ]
    ]

  unfoldable pub download_url : AccessClaims → String → FilesAct String
  unfolding find_owned
  download_url viewer id = do
    row ← on_files (find_owned viewer id)
    ensure (is_completed row.status) file_not_found
    done (s3.signed_get row.key download_url_ttl_sec)

  -- a multipart upload that is gone while its object is there: another commit has completed it
  unfoldable pub if_completed : FileRow → FileError → FilesAct (Option (List UploadedPart))
  if_completed row e = elim (is_missing e) [
    | true ↦ do
      found ← on_storage (head s3 row.key)
      elim found [ none ↦ fail e | some _ ↦ done none ]
    | false ↦ fail e
  ]

  unfoldable pub parts_or_completed : FileRow → String → FilesAct (Option (List UploadedPart))
  unfolding if_completed
  parts_or_completed row upload_id =
      catching (do parts ← on_storage (list_parts s3 row.key upload_id); done (some parts))
        (if_completed row)

  abbrev pub unless_missing : FileError → FilesAct (Unit {0})
  unless_missing e = elim (is_missing e) [ true ↦ done tt | false ↦ fail e ]

  -- no error if another commit was faster
  unfoldable pub complete_once : FileRow → String → List UploadedPart → FilesAct (Unit {0})
  complete_once row upload_id parts =
      catching (on_storage (complete_multipart s3 row.key upload_id parts)) unless_missing

  unfoldable pub complete_listed : FileRow → String → List UploadedPart → FilesAct (Unit {0})
  unfolding complete_once
  complete_listed row upload_id parts = do
    ensure (has_count row.part_count (length parts)) (parts_missing (length parts) row.part_count)
    on_files (λ _. check_sizes row parts)
    complete_once row upload_id parts

  abbrev pub complete_if_listed :
      FileRow → String → Option (List UploadedPart) → FilesAct (Unit {0})
  complete_if_listed row upload_id none = done tt
  complete_if_listed row upload_id (some parts) = complete_listed row upload_id parts

  unfoldable pub complete_from_storage : FileRow → String → FilesAct (Unit {0})
  unfolding parts_or_completed complete_listed
  complete_from_storage row upload_id = do
    listed ← parts_or_completed row upload_id
    complete_if_listed row upload_id listed

  -- `if (row.upload_id) await this.completeFromStorage(row, row.upload_id)`
  unfoldable pub complete_open : FileRow → Option String → FilesAct (Unit {0})
  unfolding complete_from_storage
  complete_open row none = done tt
  complete_open row (some upload_id) = complete_from_storage row upload_id

  -- an object that is not what the intent said is deleted
  unfoldable pub reject_unless : Bool → String → FileError → FilesAct (Unit {0})
  reject_unless true key e = done tt
  reject_unless false key e = do on_storage (delete_object s3 key); fail e

  -- `UPDATE … SET status = 'COMPLETED'`, once the first bytes fit the content type
  unfoldable pub commit_read : FileEnv → FileRow → ObjectHead → List ℕ → FilesAct CommitResponse
  unfolding complete_row reject_unless
  commit_read env row h magic = do
    reject_unless (magic_matches row.content_type magic) row.key content_mismatch
    change_files (complete_row env.now row.id h.etag)
    done (record { file_id = row.id; key = row.key; size = h.size; etag = h.etag })

  unfoldable pub commit_found : FileEnv → FileRow → ObjectHead → FilesAct CommitResponse
  unfolding commit_read
  commit_found env row h = do
    reject_unless (h.size == row.size) row.key (size_mismatch row.size h.size)
    magic ← on_storage (read_range s3 row.key magic_bytes)
    commit_read env row h magic

  unfoldable pub commit_row : FileEnv → FileRow → FilesAct CommitResponse
  unfolding commit_found
  commit_row env row = do
    found ← on_storage (head s3 row.key)
    elim found [ none ↦ fail not_uploaded | some h ↦ commit_found env row h ]

  unfoldable pub commit : FileEnv → AccessClaims → String → FilesAct CommitResponse
  unfolding find_owned complete_open commit_row
  commit env viewer id = do
    row ← on_files (find_owned viewer id)
    elim (is_completed row.status) [
      | true ↦ done (record {
        file_id = row.id;
        key = row.key;
        size = row.size;
        etag = elim row.etag [ none ↦ "" | some e ↦ e ];
      })
      | false ↦ do complete_open row (truthy row.upload_id); commit_row env row
    ]
