-- ===== src/Files/Requests/Stored.antt =====
-- src/files: each row of the table `files` is what an intent made it, whatever was asked since.
use Prim.Native.String.{◌++◌ as ◌<>◌}
use nodejs_advanced_homework.Prelude.{
  ◌≡◌, refl, arith, true, false, List, String, Option, none, some, ℕ, ok, inl, inr, ◌⊎◌, Bool-cases,
  ◌≤◌, ◌<◌, is_some, ltb, any, All, All-update_where, update_where-none,
}
use nodejs_advanced_homework.Auth.Tables.{AccessClaims}
use nodejs_advanced_homework.Files.Policy.{
  allowed_type, AllowedType, PartPlan, total_length, max_object_bytes,
}
use nodejs_advanced_homework.Files.Policy.Bounds.{FitsS3, plan_parts-FitsS3}
use nodejs_advanced_homework.Files.Service.{
  FileRow, FileEnv, UploadIntent, is_completed, multipart_threshold_bytes, plan_for, new_file,
  set_upload_id, complete_row, uuid_eq, with_upload, with_etag, is_pending,
}
use nodejs_advanced_homework.Files.Service.Placed.{IsNew, new_row, Placed, kept, added, opened}

-- A small file is sent whole; a large one has a plan within the limits of S3, whose parts add up to it.
abbrev pub IsPlanned : FileRow → Type 0
IsPlanned row =
    ((row.size ≤ multipart_threshold_bytes)
      × (row.part_size ≡ none)
      × (row.part_count ≡ none)
      × (row.upload_id ≡ none))
    ⊎ ((multipart_threshold_bytes < row.size)
        × (p : PartPlan) × (row.part_size ≡ some p.part_size)
        × (row.part_count ≡ some p.part_count)
        × FitsS3 row.size p
        × (total_length p row.size p.part_count ≡ row.size))

pub record IsStored (row : FileRow) : Type 0 where
  pub type : AllowedType
  pub uuid : String
  pub allowed : allowed_type row.content_type ≡ some type
  pub capped : row.size ≤ type.max_bytes
  pub named : row.key ≡ "uploads/" <> row.owner_id <> "/" <> uuid <> "." <> type.ext
  pub planned : IsPlanned row
  pub tagged : is_some row.etag ≡ is_completed row.status

allowed_type-max :
    (s : String) (t : AllowedType) → allowed_type s ≡ some t → t.max_bytes ≤ max_object_bytes
unfolding allowed_type
allowed_type-max s t h = ground arith

plan_for-IsPlanned :
    (env : FileEnv) (viewer : AccessClaims) (input : UploadIntent) (ext : String)
    (plan : Option PartPlan) (key : Option String)
    → input.size ≤ max_object_bytes
    → plan_for input.size ≡ ok plan
    → IsPlanned (new_file env viewer input ext plan key)
unfolding plan_for new_file
plan_for-IsPlanned env viewer input ext plan key small e =
    elim (Bool-cases (ltb multipart_threshold_bytes input.size)) [
      | inl t ↦
          let (p, q, f, total) = plan_parts-FitsS3 input.size (ground arith) small in
          let is : plan ≡ some p = ground arith in
          rw is (inr (ground arith, p, refl, refl, f, total))
      | inr f ↦ let is : plan ≡ none = ground arith in rw is (inl (ground arith, refl, refl, refl))
    ]

IsNew-IsStored :
    (env : FileEnv) (viewer : AccessClaims) (input : UploadIntent) (key : Option String)
    (row : FileRow) (plan : Option PartPlan)
    → IsNew env viewer input key row plan
    → IsStored row
unfolding new_file
IsNew-IsStored env viewer input key _ _ (new_row type plan a t e) =
    let small : input.size ≤ type.max_bytes = ground arith in
    record {
      type = type;
      uuid = env.uuid;
      allowed = a;
      capped = small;
      named = refl;
      planned =
          plan_for-IsPlanned env viewer input type.ext plan key
            (omega (arith, small, allowed_type-max input.content_type type a)) e;
      tagged = refl;
    }

pub IsNew-facts :
    (env : FileEnv) (viewer : AccessClaims) (input : UploadIntent) (key : Option String)
    (row : FileRow) (plan : Option PartPlan)
    → IsNew env viewer input key row plan
    → (row.id ≡ env.file_id) × (is_some plan ≡ true → is_some row.part_count ≡ true)
unfolding new_file
IsNew-facts env viewer input key _ _ (new_row type plan a t e) = (refl, λ s. ground arith)

-- The id of the upload is set in a row that has a plan.
set-IsStored :
    (row : FileRow) (upload_id : String)
    → is_some row.part_count ≡ true
    → IsStored row
    → IsStored (with_upload upload_id row)
set-IsStored row upload_id planned s = record {
  type = s.type;
  uuid = s.uuid;
  allowed = s.allowed;
  capped = s.capped;
  named = s.named;
  planned = elim s.planned [ inl small ↦ absurd (ground arith) | inr large ↦ inr large ];
  tagged = s.tagged;
}

pub complete_row-IsStored :
    (now : ℕ) (id etag : String) (rows : List FileRow)
    → All IsStored rows
    → All IsStored (complete_row now id etag rows)
unfolding complete_row
complete_row-IsStored now id etag rows all =
    All-update_where IsStored (is_pending id) (with_etag now etag) rows
      (λ row s. record {
        type = s.type;
        uuid = s.uuid;
        allowed = s.allowed;
        capped = s.capped;
        named = s.named;
        planned = s.planned;
        tagged = refl;
      })
      all

pub Placed-IsStored :
    (env : FileEnv) (viewer : AccessClaims) (input : UploadIntent) (key : Option String)
    (row : FileRow) (plan : Option PartPlan) (old new : List FileRow)
    → IsNew env viewer input key row plan
    → Placed row plan old new
    → any (λ r. uuid_eq r.id env.file_id) old ≡ false
    → All IsStored old
    → All IsStored new
unfolding set_upload_id
Placed-IsStored env viewer input key row plan old new n (kept e) fresh all = rw e all
Placed-IsStored env viewer input key row plan old new n (added f e) fresh all =
    rw e (IsNew-IsStored env viewer input key row plan n, all)
Placed-IsStored env viewer input key row plan old new n (opened f u s e) fresh all =
    let stored = IsNew-IsStored env viewer input key row plan n in
    let (same, counted) = IsNew-facts env viewer input key row plan n in
    let untouched =
      update_where-none (λ r. uuid_eq r.id row.id) (with_upload u) old (rw same fresh) in
    rw (e, untouched)
      (
        elim (Bool-cases (uuid_eq row.id row.id)) [
          | inl y ↦ rw y (set-IsStored row u (counted s) stored)
          | inr no_match ↦ rw no_match stored
        ],
        all,
      )
