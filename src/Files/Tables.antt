-- ===== src/Files/Tables.antt =====
-- src/files/files.service.ts: the rows of the table `files`, the answers of the service, and its errors.
use nodejs_advanced_homework.Prelude.{
  ℕ, Bool, true, false, ◌&&◌, ◌||◌, Option, List, [], ◌∷◌, String, leb, ◌==◌, if◌then◌else◌, map,
  codes, lower,
}
use nodejs_advanced_homework.Storage.{StorageError}
use nodejs_advanced_homework.Files.Policy.{PlanError}

pub data Status : Type 0 where
  pending completed : Status

abbrev pub is_completed : Status → Bool
is_completed pending = false
is_completed completed = true

pub record FileRow : Type 0 where
  pub id : String
  pub owner_id : String
  pub key : String
  pub content_type : String
  pub size : ℕ
  pub status : Status
  pub upload_id : Option String
  pub part_size : Option ℕ
  pub part_count : Option ℕ
  pub etag : Option String
  pub idempotency_key : Option String
  pub created_at : ℕ
  pub completed_at : Option ℕ

pub record UploadIntent : Type 0 where
  pub content_type : String
  pub size : ℕ

pub record PartUrl : Type 0 where
  pub part_number : ℕ
  pub url : String

pub record SingleUpload : Type 0 where
  pub file_id : String
  pub key : String
  pub expires_in : ℕ
  pub url : String
  pub content_type : String

pub record MultipartUpload : Type 0 where
  pub file_id : String
  pub key : String
  pub expires_in : ℕ
  pub part_size : ℕ
  pub part_count : ℕ
  pub uploaded_parts : List ℕ
  pub parts : List PartUrl

pub data IntentResponse : Type 0 where
  single : SingleUpload → IntentResponse
  multipart : MultipartUpload → IntentResponse
  finished : String → String → IntentResponse

pub record CommitResponse : Type 0 where
  pub file_id : String
  pub key : String
  pub size : ℕ
  pub etag : String

pub data FileError : Type 0 where
  unsupported_media_type payload_too_large key_reused in_progress not_multipart : FileError
  not_uploaded content_mismatch file_not_found not_your_file upload_expired : FileError
  size_mismatch : ℕ → ℕ → FileError
  parts_missing : ℕ → Option ℕ → FileError
  part_wrong : ℕ → FileError
  plan_refused : PlanError → FileError
  storage_failed : StorageError → FileError

-- the time of the request, `gen_random_uuid()` of the row and `randomUUID()` of the key
pub record FileEnv : Type 0 where
  pub now : ℕ
  pub file_id : String
  pub uuid : String

abbrev is_hex : ℕ → Bool
is_hex c = (leb b'0' c && leb c b'9') || (leb b'a' (lower c) && leb (lower c) b'f')

-- the regular expression, with `x` for a hexadecimal digit
abbrev fits : List ℕ → List ℕ → Bool
fits [] [] = true
fits [] (c ∷ cs) = false
fits (p ∷ ps) [] = false
fits (p ∷ ps) (c ∷ cs) = (if p == b'x' then is_hex c else c == p) && fits ps cs

unfoldable pub is_uuid : String → Bool
is_uuid value = fits (codes "xxxxxxxx-xxxx-xxxx-xxxx-xxxxxxxxxxxx") (codes value)

abbrev pub same_codes : List ℕ → List ℕ → Bool
same_codes [] [] = true
same_codes [] (c ∷ cs) = false
same_codes (p ∷ ps) [] = false
same_codes (p ∷ ps) (c ∷ cs) = p == c && same_codes ps cs

-- equality of the type `uuid`, whose digits may be of either case
unfoldable pub uuid_eq : String → String → Bool
uuid_eq a b = same_codes (map lower (codes a)) (map lower (codes b))

abbrev pub nil_uuid : String
nil_uuid = "00000000-0000-0000-0000-000000000000"
