-- ===== src/Files/Service/Tests.antt =====
-- src/files/files.service.ts: an archive of 12 MiB in three parts, of which the storage has the second.
use nodejs_advanced_homework.Prelude.{
  ◌==◌, ◌||◌, Bool, ◌&&◌, str_eq, ◌≡◌, refl, ok, List, [], ◌∷◌, String, none, some, ℕ,
}
use nodejs_advanced_homework.Auth.Tables.{AccessClaims, buyer}
use nodejs_advanced_homework.Storage.{
  UploadedPart, list_parts, list_parts_from, head, read_range, complete_multipart,
}
use nodejs_advanced_homework.Storage.Bucket.{bucket, twelve_mib}
use nodejs_advanced_homework.Files.Policy.{part_length, multipart_threshold, magic_matches}
use nodejs_advanced_homework.Files.Service.{
  World, FileRow, FileEnv, MultipartUpload, pending, find_owned, commit, complete_once,
  multipart_threshold_bytes, uuid_eq, is_uuid, complete_listed,
}
use nodejs_advanced_homework.Files.Service.Committed.{Committed}

threshold : multipart_threshold 64 131072 ≡ multipart_threshold_bytes
unfolding multipart_threshold
threshold = refl

abbrev file_id : String
file_id = "0d6e7c62-9a3f-4f2b-8a53-3c1f5a0b7e11"

abbrev alice : AccessClaims
alice = record { sub = "7"; role = buyer; jti = "j"; fid = "f"; exp = 900 }

abbrev archive : FileRow
archive = record {
  id = file_id;
  owner_id = "7";
  key = "uploads/7/u.gz";
  content_type = "application/gzip";
  size = twelve_mib;
  status = pending;
  upload_id = some "u1";
  part_size = some 5242880;
  part_count = some 3;
  etag = none;
  idempotency_key = none;
  created_at = 0;
  completed_at = none;
}

abbrev part : ℕ → ℕ → UploadedPart
part n size = record { part_number = n; etag = "e"; size = size }

abbrev before : World bucket
before = record { storage = part 2 5242880 ∷ []; files = archive ∷ [] }

abbrev sent : List UploadedPart
sent = part 1 5242880 ∷ part 3 2097152 ∷ []

abbrev afterwards : World bucket
afterwards = record {
  storage = part 1 5242880 ∷ part 2 5242880 ∷ part 3 2097152 ∷ [];
  files = archive ∷ [];
}

abbrev answer : MultipartUpload
answer = record {
  file_id = file_id;
  key = "uploads/7/u.gz";
  expires_in = 900;
  part_size = 5242880;
  part_count = 3;
  uploaded_parts = 2 ∷ [];
  parts =
      (record { part_number = 1; url = "5 MiB" })
      ∷ (record { part_number = 3; url = "2 MiB" })
      ∷ [];
}

-- what the storage takes at a URL
abbrev takes : String → ℕ → Bool
takes url size = (str_eq url "5 MiB" && size == 5242880) || (str_eq url "2 MiB" && size == 2097152)

abbrev env : FileEnv
env = record { now = 60; file_id = "1"; uuid = "v" }

committed :
    (commit bucket env alice file_id afterwards).0
    ≡ ok (record { file_id = file_id; key = "uploads/7/u.gz"; size = twelve_mib; etag = "tag" })
unfolding commit find_owned uuid_eq is_uuid list_parts list_parts_from complete_listed complete_once
    complete_multipart head read_range part_length magic_matches
committed = refl
