-- ===== src/Files/Requests/Tests.antt =====
-- src/files: an intent for an archive of 12 MiB, its commit, and a sweep.
use nodejs_advanced_homework.Prelude.{List, [], ◌∷◌, String, some, ℕ, false}
use nodejs_advanced_homework.Auth.Tables.{AccessClaims, buyer}
use nodejs_advanced_homework.Storage.Bucket.{twelve_mib}
use nodejs_advanced_homework.Storage.{UploadedPart}
use nodejs_advanced_homework.Files.Requests.{Request, intends, commits, sweeps}

abbrev file_id : String
file_id = "0d6e7c62-9a3f-4f2b-8a53-3c1f5a0b7e11"

abbrev alice : AccessClaims
alice = record { sub = "7"; role = buyer; jti = "j"; fid = "f"; exp = 900 }

abbrev part : ℕ → ℕ → UploadedPart
part n size = record { part_number = n; etag = "e"; size = size }

abbrev a_day : List (Request × List UploadedPart)
a_day =
    (
      intends (record { now = 0; file_id = file_id; uuid = "u" }) alice
          (record { content_type = "application/gzip"; size = twelve_mib }) (some "k"),
      [],
    )
    ∷ (
      commits (record { now = 9; file_id = ""; uuid = "" }) alice file_id,
      part 1 5242880 ∷ part 2 5242880 ∷ part 3 2097152 ∷ [],
    )
    ∷ (sweeps 100000 24 (λ r. false), [])
    ∷ []
