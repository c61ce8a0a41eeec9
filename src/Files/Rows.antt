-- ===== src/Files/Rows.antt =====
-- src/files/files.service.ts: the rows of the table `files`, the queries on it, and what the service makes
-- of a row.
use Prim.Native.String.{◌++◌ as ◌<>◌}
use nodejs_advanced_homework.Prelude.{
  ℕ, Bool, true, false, not, ◌&&◌, ◌||◌, Option, none, some, List, [], ◌∷◌, String, str_eq, ltb,
  ◌==◌, if◌then◌else◌, any, find?, update_where, Result, ok, err,
}
use nodejs_advanced_homework.Auth.Tables.{AccessClaims, buyer, seller, admin}
use nodejs_advanced_homework.Storage.{UploadedPart, is_not_found}
use nodejs_advanced_homework.Files.Policy.{PartPlan, PlanError, plan_parts, part_length}
use nodejs_advanced_homework.Files.Tables.{
  FileRow, pending, completed, is_completed, UploadIntent, FileError, FileEnv, file_not_found,
  not_your_file, part_wrong, plan_refused, storage_failed, nil_uuid,
}
use nodejs_advanced_homework.Files.Tables.{is_uuid, uuid_eq}

abbrev pub put_url_ttl_sec : ℕ
put_url_ttl_sec = 300

abbrev pub part_url_ttl_sec : ℕ
part_url_ttl_sec = 900

abbrev pub download_url_ttl_sec : ℕ
download_url_ttl_sec = 60

abbrev pub magic_bytes : ℕ
magic_bytes = 16

-- 64 seconds at 128 KiB per second
abbrev pub multipart_threshold_bytes : ℕ
multipart_threshold_bytes = 8388608

-- `Number(row.part_size)` and `row.part_count!`
abbrev pub number_of : Option ℕ → ℕ
number_of none = 0
number_of (some n) = n

abbrev pub plan_of_row : FileRow → PartPlan
plan_of_row row = record {
  part_size = number_of row.part_size;
  part_count = number_of row.part_count;
}

abbrev pub is_admin : AccessClaims → Bool
is_admin viewer = elim viewer.role [ buyer ↦ false | seller ↦ false | admin ↦ true ]

abbrev pub owns : AccessClaims → FileRow → Bool
owns viewer row = str_eq row.owner_id viewer.sub || is_admin viewer

abbrev planned : Result PlanError PartPlan → Result FileError (Option PartPlan)
planned (ok plan) = ok (some plan)
planned (err e) = err (plan_refused e)

-- `multipart ? planParts(input.size) : null`
unfoldable pub plan_for : ℕ → Result FileError (Option PartPlan)
plan_for size = if ltb multipart_threshold_bytes size then planned (plan_parts size) else ok none

abbrev pub has_key : String → Option String → FileRow → Bool
has_key owner_id none row = false
has_key owner_id (some k) row =
    str_eq row.owner_id owner_id && elim row.idempotency_key [ none ↦ false | some j ↦ str_eq j k ]

unfoldable pub new_file :
    FileEnv → AccessClaims → UploadIntent → String → Option PartPlan → Option String → FileRow
new_file env viewer input ext plan idempotency_key = record {
  id = env.file_id;
  owner_id = viewer.sub;
  key = "uploads/" <> viewer.sub <> "/" <> env.uuid <> "." <> ext;
  content_type = input.content_type;
  size = input.size;
  status = pending;
  upload_id = none;
  part_size = elim plan [ none ↦ none | some p ↦ some p.part_size ];
  part_count = elim plan [ none ↦ none | some p ↦ some p.part_count ];
  etag = none;
  idempotency_key = idempotency_key;
  created_at = env.now;
  completed_at = none;
}

-- `rows[0]`, of which the viewer must be the owner or an admin
unfoldable pub owned : AccessClaims → Option FileRow → Result FileError FileRow
owned viewer none = err file_not_found
owned viewer (some row) = if owns viewer row then ok row else err not_your_file

unfoldable pub find_owned : AccessClaims → String → List FileRow → Result FileError FileRow
unfolding owned
find_owned viewer value rows =
    owned viewer (find? (λ r. uuid_eq r.id (if is_uuid value then value else nil_uuid)) rows)

unfoldable pub find_by_key : AccessClaims → Option String → List FileRow → Result FileError FileRow
unfolding owned
find_by_key viewer key rows = owned viewer (find? (has_key viewer.sub key) rows)

-- `new Set(numbers)`
abbrev pub distinct : List ℕ → List ℕ
distinct [] = []
distinct (n ∷ ns) = let rest = distinct ns in if any (◌==◌ n) ns then rest else n ∷ rest

abbrev pub with_upload : String → FileRow → FileRow
with_upload upload_id row = record row { upload_id = some upload_id }

abbrev pub with_etag : ℕ → String → FileRow → FileRow
with_etag now etag row = record row {
  status = completed;
  etag = some etag;
  completed_at = some now;
}

abbrev pub is_pending : String → FileRow → Bool
is_pending id row = uuid_eq row.id id && not (is_completed row.status)

-- `UPDATE files SET upload_id = $2 WHERE id = $1`
unfoldable pub set_upload_id : String → String → List FileRow → List FileRow
set_upload_id id upload_id rows = update_where (λ r. uuid_eq r.id id) (with_upload upload_id) rows

-- `UPDATE files SET status = 'COMPLETED' … WHERE id = $1 AND status = 'PENDING'`
unfoldable pub complete_row : ℕ → String → String → List FileRow → List FileRow
complete_row now id etag rows = update_where (is_pending id) (with_etag now etag) rows

abbrev pub has_count : Option ℕ → ℕ → Bool
has_count none n = false
has_count (some c) n = n == c

abbrev pub is_wrong : FileRow → UploadedPart → Bool
is_wrong row p = not (p.size == part_length (plan_of_row row) row.size p.part_number)

-- `parts.find(…)`, which throws when it finds
abbrev pub check_sizes : FileRow → List UploadedPart → Result FileError (Unit {0})
check_sizes row parts = elim (find? (is_wrong row) parts) [
  | none ↦ ok tt
  | some p ↦ err (part_wrong p.part_number)
]

-- `isNotFound(err)`
unfoldable pub is_missing : FileError → Bool
is_missing (storage_failed e) = is_not_found e
is_missing other = false
