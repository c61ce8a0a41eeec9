-- ===== src/Files/Requests.antt =====
-- src/files: the requests of the upload contract and the sweeps, one after another. Between two of them the clients
-- and the storage may do anything: each finds the storage in a state of its own.
pub mod Unique
pub mod Stored
pub mod Kept
pub mod Tests
use nodejs_advanced_homework.Prelude.{ℕ, Bool, Option, List, [], ◌∷◌, String, any, ◌≡◌, true, false}
use nodejs_advanced_homework.Auth.Tables.{AccessClaims}
use nodejs_advanced_homework.Storage.{S3}
use nodejs_advanced_homework.Files.Service.{
  World, FileRow, FileEnv, UploadIntent, intent, resume, commit, download_url, uuid_eq,
}
use nodejs_advanced_homework.Files.Orphans.{sweep_orphan_files}

pub data Request : Type 0 where
  intends :
      (env : FileEnv) (viewer : AccessClaims) (input : UploadIntent) (key : Option String) → Request
  resumes : (viewer : AccessClaims) (id : String) → Request
  commits : (env : FileEnv) (viewer : AccessClaims) (id : String) → Request
  downloads : (viewer : AccessClaims) (id : String) → Request
  sweeps : (now older_than_hours : ℕ) (locked : FileRow → Bool) → Request

-- `gen_random_uuid()` gives an id that no row has.
abbrev pub IsFresh : Request → List FileRow → Type 0
IsFresh (intends env viewer input key) files = any (λ r. uuid_eq r.id env.file_id) files ≡ false
IsFresh other files = Unit {0}

module _ (s3 : S3) where
  unfoldable pub files_after : Request → World s3 → List FileRow
  files_after (intends env viewer input key) w = (intent s3 env viewer input key w).1.files
  files_after (resumes viewer id) w = (resume s3 viewer id w).1.files
  files_after (commits env viewer id) w = (commit s3 env viewer id w).1.files
  files_after (downloads viewer id) w = (download_url s3 viewer id w).1.files
  files_after (sweeps now hours locked) w = (sweep_orphan_files s3 now hours locked w).1.files

  unfoldable pub files_after_all : List (Request × s3.State) → List FileRow → List FileRow
  unfolding files_after
  files_after_all [] files = files
  files_after_all ((r, storage) ∷ more) files =
      files_after_all more (files_after r (record { storage = storage; files = files }))

  abbrev pub AreFresh : List (Request × s3.State) → List FileRow → Type 0
  AreFresh [] files = Unit {0}
  AreFresh ((r, storage) ∷ more) files =
      IsFresh r files × AreFresh more (files_after r (record { storage = storage; files = files }))
