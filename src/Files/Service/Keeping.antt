-- ===== src/Files/Service/Keeping.antt =====
-- src/files/files.service.ts: the calls of the storage leave the table `files` alone.
use nodejs_advanced_homework.Prelude.{
  ◌≡◌, refl, arith, Bool, true, false, List, String, Option, none, some, inl, inr, ◌∙◌,
  Result-cases,
}
use nodejs_advanced_homework.Prelude.Actions.{after_act-keeps, caught-keeps, ◌>>=◌, catching}
use nodejs_advanced_homework.Storage.{
  S3, StorageAct, UploadedPart, list_parts, head, complete_multipart, delete_object,
}
use nodejs_advanced_homework.Files.Service.{
  done, complete_once, sign_single, sign_parts, complete_open, complete_if_listed, if_completed,
  World, FilesAct, FileRow, FileError, on_storage, parts_or_completed, complete_listed,
  complete_from_storage, reject_unless, list_parts_or_gone, sign_for,
}

module _ (s3 : S3) where
  -- An action that leaves the table alone.
  abbrev pub IsQuiet : {A : Type 0} → FilesAct s3 A → Type 0
  IsQuiet m = (w : World s3) → (m w).1.files ≡ w.files

  pub on_storage-IsQuiet : {A : Type 0} (m : StorageAct s3 A) → IsQuiet (on_storage s3 m)
  on_storage-IsQuiet m w = elim (Result-cases (m w.storage).0) [
    | inl (a, e) ↦ ground arith
    | inr (x, e) ↦ ground arith
  ]

  pub bind-IsQuiet :
      {A B : Type 0} (m : FilesAct s3 A) (f : A → FilesAct s3 B)
      → IsQuiet m
      → ((a : A) → IsQuiet (f a))
      → IsQuiet (m >>= f)
  bind-IsQuiet m f h k w =
      after_act-keeps (λ u. u.files ≡ w.files) m f w (h w) (λ a t _ e. k a t ∙ e)

  pub catching-IsQuiet :
      {A : Type 0} (m : FilesAct s3 A) (h : FileError → FilesAct s3 A)
      → IsQuiet m
      → ((e : FileError) → IsQuiet (h e))
      → IsQuiet (catching m h)
  catching-IsQuiet m h q k w =
      caught-keeps (λ u. u.files ≡ w.files) (m w) h (q w) (λ e t p. k e t ∙ p)

  if_completed-IsQuiet : (row : FileRow) (e : FileError) → IsQuiet (if_completed s3 row e)
  unfolding if_completed
  if_completed-IsQuiet row e w = ground (arith, on_storage-IsQuiet (head s3 row.key) w)

  parts_or_completed-IsQuiet :
      (row : FileRow) (upload_id : String) → IsQuiet (parts_or_completed s3 row upload_id)
  unfolding parts_or_completed
  parts_or_completed-IsQuiet row upload_id =
      let listed = list_parts s3 row.key upload_id in
      catching-IsQuiet (on_storage s3 listed >>= λ parts. done (some parts)) (if_completed s3 row)
        (λ w. ground (arith, on_storage-IsQuiet listed w)) (if_completed-IsQuiet row)

  complete_once-IsQuiet :
      (row : FileRow) (upload_id : String) (parts : List UploadedPart)
      → IsQuiet (complete_once s3 row upload_id parts)
  unfolding complete_once
  complete_once-IsQuiet row upload_id parts w =
      ground (arith, on_storage-IsQuiet (complete_multipart s3 row.key upload_id parts) w)

  complete_listed-IsQuiet :
      (row : FileRow) (upload_id : String) (parts : List UploadedPart)
      → IsQuiet (complete_listed s3 row upload_id parts)
  unfolding complete_listed
  complete_listed-IsQuiet row upload_id parts w =
      ground (arith, complete_once-IsQuiet row upload_id parts w)

  complete_if_listed-IsQuiet :
      (row : FileRow) (upload_id : String) (listed : Option (List UploadedPart))
      → IsQuiet (complete_if_listed s3 row upload_id listed)
  complete_if_listed-IsQuiet row upload_id none w = refl
  complete_if_listed-IsQuiet row upload_id (some parts) w =
      complete_listed-IsQuiet row upload_id parts w

  pub complete_open-IsQuiet :
      (row : FileRow) (upload : Option String) → IsQuiet (complete_open s3 row upload)
  unfolding complete_open complete_from_storage
  complete_open-IsQuiet row none w = refl
  complete_open-IsQuiet row (some upload_id) w =
      bind-IsQuiet (parts_or_completed s3 row upload_id) (complete_if_listed s3 row upload_id)
        (parts_or_completed-IsQuiet row upload_id) (complete_if_listed-IsQuiet row upload_id) w

  pub reject_unless-IsQuiet :
      (b : Bool) (key : String) (e : FileError) → IsQuiet (reject_unless s3 b key e)
  unfolding reject_unless
  reject_unless-IsQuiet true key e w = refl
  reject_unless-IsQuiet false key e w = ground (arith, on_storage-IsQuiet (delete_object s3 key) w)

  sign_parts-IsQuiet : (row : FileRow) (upload_id : String) → IsQuiet (sign_parts s3 row upload_id)
  unfolding sign_parts list_parts_or_gone
  sign_parts-IsQuiet row upload_id w =
      ground (arith, on_storage-IsQuiet (list_parts s3 row.key upload_id) w)

  pub sign_for-IsQuiet : (row : FileRow) → IsQuiet (sign_for s3 row)
  unfolding sign_for sign_single
  sign_for-IsQuiet row w = ground arith
