-- ===== src/Files/Service/Placed.antt =====
-- src/files/files.service.ts: what an intent does to the table `files`.
use nodejs_advanced_homework.Prelude.{
  subst, ◌≡◌, refl, arith, true, false, List, String, Option, none, some, ok, inl, inr, ◌⊎◌,
  Result-cases, Option-cases, Bool-cases, any, ◌∷◌, is_some, sym, ◌∙◌, leb,
}
use nodejs_advanced_homework.Prelude.Actions.{after_act, after_act-keeps}
use nodejs_advanced_homework.Auth.Tables.{AccessClaims}
use nodejs_advanced_homework.Storage.{S3, create_multipart}
use nodejs_advanced_homework.Files.Policy.{allowed_type, AllowedType, PartPlan}
use nodejs_advanced_homework.Files.Service.{
  World, FileRow, FileEnv, UploadIntent, find_by_key, has_key, set_upload_id, open_upload,
  insert_file, replay_intent, place_intent, plan_for, new_file, intent, sign_for,
}
use nodejs_advanced_homework.Files.Service.Keeping.{IsQuiet, sign_for-IsQuiet}

-- The row that an intent with an allowed content type and size adds.
pub data IsNew (env : FileEnv) (viewer : AccessClaims) (input : UploadIntent) (key : Option String)
    : FileRow → Option PartPlan → Type 0 where
  new_row :
      (type : AllowedType) (plan : Option PartPlan)
      → allowed_type input.content_type ≡ some type
      → leb input.size type.max_bytes ≡ true
      → plan_for input.size ≡ ok plan
      → IsNew env viewer input key (new_file env viewer input type.ext plan key) plan

-- How a table may have changed.
pub data Placed (row : FileRow) (plan : Option PartPlan) (old new : List FileRow) : Type 0 where
  kept : new ≡ old → Placed row plan old new
  added :
      any (has_key row.owner_id row.idempotency_key) old ≡ false
      → new ≡ row ∷ old
      → Placed row plan old new
  opened :
      any (has_key row.owner_id row.idempotency_key) old ≡ false
      → (upload_id : String) → is_some plan ≡ true
      → new ≡ set_upload_id row.id upload_id (row ∷ old)
      → Placed row plan old new

module _ (s3 : S3) where
  open_upload-files :
      (plan : Option PartPlan) (row : FileRow) (w : World s3)
      → ((open_upload s3 plan row w).1.files ≡ w.files)
        ⊎ ((upload_id : String) × (is_some plan ≡ true)
            × ((open_upload s3 plan row w).1.files ≡ set_upload_id row.id upload_id w.files))
  unfolding open_upload
  open_upload-files none row w = inl refl
  open_upload-files (some plan) row w =
      elim (Result-cases (create_multipart s3 row.key row.content_type w.storage).0) [
        | inl (u, e) ↦ inr (u, refl, ground arith)
        | inr (x, e) ↦ inl (ground arith)
      ]

  replay_intent-IsQuiet :
      (viewer : AccessClaims) (input : UploadIntent) (key : Option String)
      → IsQuiet s3 (replay_intent s3 viewer input key)
  unfolding replay_intent
  replay_intent-IsQuiet viewer input key w = elim (Result-cases (find_by_key viewer key w.files)) [
    | inl (row, e) ↦ ground (arith, sign_for-IsQuiet s3 row w)
    | inr (x, e) ↦ ground arith
  ]

  signed-files :
      (plan : Option PartPlan) (row : FileRow) (w : World s3)
      → (after_act (open_upload s3 plan row w) (sign_for s3)).1.files
        ≡ (open_upload s3 plan row w).1.files
  signed-files plan row w =
      after_act-keeps (λ u. u.files ≡ (open_upload s3 plan row w).1.files) (open_upload s3 plan row)
        (sign_for s3) w refl (λ a t _ e. sign_for-IsQuiet s3 a t ∙ e)

  place_intent-Placed :
      (viewer : AccessClaims) (input : UploadIntent) (key : Option String) (plan : Option PartPlan)
      (row : FileRow) (w : World s3)
      → Placed row plan w.files (place_intent s3 viewer input key plan row w).1.files
  unfolding place_intent insert_file
  place_intent-Placed viewer input key plan row w =
      elim (Bool-cases (any (has_key row.owner_id row.idempotency_key) w.files)) [
        | inl t ↦ kept (rw t (replay_intent-IsQuiet viewer input key w))
        | inr f ↦
            let v : World s3 = record w { files = row ∷ w.files } in
            elim (open_upload-files plan row v) [
              | inl e ↦ added f (rw f (signed-files plan row v ∙ e))
              | inr (u, s, e) ↦ opened f u s (rw f (signed-files plan row v ∙ e))
            ]
      ]

  -- An intent that is refused for its type or its size changes nothing; any other adds its row, unless the key was used.
  pub intent-Placed :
      (env : FileEnv) (viewer : AccessClaims) (input : UploadIntent) (key : Option String)
      (w : World s3)
      → ((intent s3 env viewer input key w).1.files ≡ w.files)
        ⊎ ((row : FileRow) × (plan : Option PartPlan) × IsNew env viewer input key row plan
            × Placed row plan w.files (intent s3 env viewer input key w).1.files)
  unfolding intent
  intent-Placed env viewer input key w = elim (Option-cases (allowed_type input.content_type)) [
    | inl n ↦ inl (ground arith)
    | inr (type, a) ↦ elim (Bool-cases (leb input.size type.max_bytes)) [
      | inr f ↦ inl (ground arith)
      | inl t ↦ elim (Result-cases (plan_for input.size)) [
        | inr (x, e) ↦ inl (ground arith)
        | inl (plan, e) ↦
            let row = new_file env viewer input type.ext plan key in
            let same : intent s3 env viewer input key w
                ≡ place_intent s3 viewer input key plan row w =
              ground arith in
            inr (
              row,
              plan,
              new_row type plan a t e,
              subst (λ r. Placed row plan w.files r.1.files) (sym same)
                  (place_intent-Placed viewer input key plan row w),
            )
      ]
    ]
  ]
