-- ===== src/Storage.antt =====
-- src/storage/storage.ts: the one client of S3, over the commands of the AWS SDK, which are a parameter.
-- The listings and purges follow the pages of S3 on fuel: each page is one round.
pub mod Bucket
pub mod Pages
pub mod Tests
use nodejs_advanced_homework.Prelude.{
  ℕ, zero, suc, ◌+◌, Bool, false, ◌&&◌, ◌||◌, Option, none, some, List, [], ◌∷◌, ◌++◌, String,
  str_eq, leb, ◌==◌, if◌then◌else◌, map, length, take, any, sort_by, Result, ok, err,
}
use nodejs_advanced_homework.Prelude.Actions.{Act, ◌>>=◌, ◌>>◌, done, fail, catching}

-- an exception that a command throws
pub record SdkError : Type 0 where
  pub is_service_exception : Bool
  pub http_status_code : Option ℕ
  pub name : String

pub record ObjectHead : Type 0 where
  pub size : ℕ
  pub etag : String

pub record UploadedPart : Type 0 where
  pub part_number : ℕ
  pub etag : String
  pub size : ℕ

-- one answer of ListParts
pub record PartsPage : Type 0 where
  pub parts : List UploadedPart
  pub is_truncated : Bool
  pub next_part_number_marker : Option String

pub record OpenUpload : Type 0 where
  pub key : String
  pub upload_id : String

pub record UploadsPage : Type 0 where
  pub uploads : List OpenUpload
  pub is_truncated : Bool
  pub next_key_marker : Option String
  pub next_upload_id_marker : Option String

pub record ObjectsPage : Type 0 where
  pub keys : List String
  pub is_truncated : Bool
  pub next_continuation_token : Option String

-- The commands of the SDK that the storage sends, on whatever S3 holds, and its signer.
pub record S3 : Type 1 where
  pub State : Type 0
  pub head_object : String → Act State SdkError ObjectHead
  pub get_range : String → ℕ → Act State SdkError (List ℕ)
  pub create_multipart_upload : String → String → Act State SdkError (Option String)
  pub list_parts_page : String → String → Option String → Act State SdkError PartsPage
  pub complete_multipart_upload :
      String → String → List (ℕ × String) → Act State SdkError (Unit {0})
  pub abort_multipart_upload : String → String → Act State SdkError (Unit {0})
  pub delete_objects : List String → Act State SdkError (Unit {0})
  pub list_multipart_uploads :
      String → Option String → Option String → Act State SdkError UploadsPage
  pub list_objects : String → Option String → Act State SdkError ObjectsPage
  pub signed_put : String → String → ℕ → ℕ → String
  pub signed_get : String → ℕ → String
  pub signed_part : String → String → ℕ → ℕ → ℕ → String

-- what a method of the storage throws; `unfinished` is the end of the fuel
pub data StorageError : Type 0 where
  sdk : SdkError → StorageError
  no_upload_id unfinished : StorageError

unfoldable pub is_not_found : StorageError → Bool
is_not_found (sdk e) =
    e.is_service_exception
    && (elim e.http_status_code [ none ↦ false | some status ↦ status == 404 ]
        || any (str_eq e.name) (
            "NotFound" ∷ "NoSuchKey" ∷ "NoSuchBucket" ∷ "NoSuchUpload" ∷ "NoSuchBucketPolicy" ∷ []))
is_not_found no_upload_id = false
is_not_found unfinished = false

-- `client.send(…)`
abbrev sent : {S A : Type 0} → Result SdkError A × S → Result StorageError A × S
sent (ok a, s) = (ok a, s)
sent (err e, s) = (err (sdk e), s)

abbrev pub send : {S A : Type 0} → Act S SdkError A → Act S StorageError A
send command s = sent (command s)

abbrev drop : {A : Type 0} → ℕ → List A → List A
drop zero xs = xs
drop (suc n) [] = []
drop (suc n) (x ∷ xs) = drop n xs

-- `while (marker)`: there is a text, and it is not empty
abbrev pub truthy : Option String → Option String
truthy none = none
truthy (some s) = if str_eq s "" then none else some s

-- `.sort((a, b) => a.partNumber - b.partNumber)`
abbrev pub by_part_number : UploadedPart → UploadedPart → Bool
by_part_number a b = leb a.part_number b.part_number

-- `DeleteObjects` takes a thousand keys
abbrev pub delete_batch : ℕ
delete_batch = 1000

-- one page for each part at most
abbrev pub page_fuel : ℕ
page_fuel = 10001

module _ (s3 : S3) where
  open s3 use {State}

  abbrev pub StorageAct : Type 0 → Type 0
  StorageAct A = Act State StorageError A

  unfoldable pub head : String → StorageAct (Option ObjectHead)
  unfolding is_not_found
  head key =
      catching (do res ← send (s3.head_object key); done (some res))
        (λ e. if is_not_found e then done none else fail e)

  unfoldable pub read_range : String → ℕ → StorageAct (List ℕ)
  read_range key bytes = send (s3.get_range key bytes)

  unfoldable pub create_multipart : String → String → StorageAct String
  create_multipart key content_type = do
    res ← send (s3.create_multipart_upload key content_type)
    elim (truthy res) [ none ↦ fail no_upload_id | some upload_id ↦ done upload_id ]

  abbrev pub next_marker : PartsPage → Option String
  next_marker page = if page.is_truncated then truthy page.next_part_number_marker else none

  -- the pages from a marker on
  unfoldable pub list_parts_from :
      ℕ → String → String → Option String → StorageAct (List UploadedPart)
  list_parts_from zero key upload_id marker = fail unfinished
  list_parts_from (suc fuel) key upload_id marker = do
    page ← send (s3.list_parts_page key upload_id marker)
    elim (next_marker page) [
      | none ↦ done page.parts
      | some next ↦ do
        rest ← list_parts_from fuel key upload_id (some next)
        done (page.parts ++ rest)
    ]

  unfoldable pub list_parts : String → String → StorageAct (List UploadedPart)
  list_parts key upload_id = do
    parts ← list_parts_from page_fuel key upload_id none
    done (sort_by by_part_number parts)

  unfoldable pub complete_multipart : String → String → List UploadedPart → StorageAct (Unit {0})
  complete_multipart key upload_id parts =
      send (s3.complete_multipart_upload key upload_id (map (λ p. (p.part_number, p.etag)) parts))

  unfoldable pub abort_multipart : String → String → StorageAct (Unit {0})
  unfolding is_not_found
  abort_multipart key upload_id =
      catching (send (s3.abort_multipart_upload key upload_id))
        (λ e. if is_not_found e then done tt else fail e)

  -- the batches of `keys`, of which there are no more than keys
  unfoldable delete_batches : ℕ → List String → StorageAct (Unit {0})
  delete_batches zero keys = done tt
  delete_batches (suc fuel) [] = done tt
  delete_batches (suc fuel) (k ∷ ks) = do
    send (s3.delete_objects (take delete_batch (k ∷ ks)))
    delete_batches fuel (drop delete_batch (k ∷ ks))

  unfoldable pub delete_keys : List String → StorageAct (Unit {0})
  unfolding delete_batches
  delete_keys keys = delete_batches (length keys) keys

  unfoldable pub delete_object : String → StorageAct (Unit {0})
  unfolding delete_keys
  delete_object key = delete_keys (key ∷ [])

  unfoldable abort_all : List OpenUpload → StorageAct ℕ
  unfolding abort_multipart
  abort_all [] = done 0
  abort_all (u ∷ us) = do abort_multipart u.key u.upload_id; n ← abort_all us; done (suc n)

  unfoldable purge_uploads : ℕ → String → Option String → Option String → StorageAct ℕ
  unfolding abort_all
  purge_uploads zero prefix key_marker id_marker = fail unfinished
  purge_uploads (suc fuel) prefix key_marker id_marker = do
    page ← send (s3.list_multipart_uploads prefix key_marker id_marker)
    n ← abort_all page.uploads
    elim (if page.is_truncated then truthy page.next_key_marker else none) [
      | none ↦ done n
      | some next ↦ do
        more ← purge_uploads fuel prefix (some next) page.next_upload_id_marker
        done (n + more)
    ]

  unfoldable purge_objects : ℕ → String → Option String → StorageAct ℕ
  unfolding delete_keys
  purge_objects zero prefix token = fail unfinished
  purge_objects (suc fuel) prefix token = do
    page ← send (s3.list_objects prefix token)
    delete_keys page.keys
    elim (if page.is_truncated then truthy page.next_continuation_token else none) [
      | none ↦ done (length page.keys)
      | some next ↦ do more ← purge_objects fuel prefix (some next); done (length page.keys + more)
    ]

  -- how many objects were deleted, and how many uploads aborted
  unfoldable pub purge_prefix : ℕ → String → StorageAct (ℕ × ℕ)
  unfolding purge_uploads purge_objects
  purge_prefix fuel prefix = do
    uploads ← purge_uploads fuel prefix none none
    objects ← purge_objects fuel prefix none
    done (objects, uploads)
