-- ===== src/Storage/Bucket.antt =====
-- src/storage/storage.ts: an S3 for tests, with one object of 12 MiB and one upload, whose parts it lists on two pages.
use nodejs_advanced_homework.Prelude.{
  ◌==◌, if◌then◌else◌, ℕ, true, false, Option, none, some, List, [], ◌∷◌, String, ok,
}
use nodejs_advanced_homework.Storage.{S3, UploadedPart, PartsPage}

abbrev pub twelve_mib : ℕ
twelve_mib = 12582912

abbrev page_of : List UploadedPart → Option String → PartsPage
page_of [] marker = record { parts = []; is_truncated = false; next_part_number_marker = none }
page_of (p ∷ []) marker = record {
  parts = p ∷ [];
  is_truncated = false;
  next_part_number_marker = none;
}
page_of (p ∷ q ∷ ps) none = record {
  parts = p ∷ [];
  is_truncated = true;
  next_part_number_marker = some "1";
}
page_of (p ∷ q ∷ ps) (some marker) = record {
  parts = q ∷ ps;
  is_truncated = false;
  next_part_number_marker = none;
}

-- a URL names the length that it is signed for
abbrev pub url_for : ℕ → String
url_for size = if size == 5242880 then "5 MiB" else if size == 2097152 then "2 MiB" else "other"

abbrev pub bucket : S3
bucket = record {
  State = List UploadedPart;
  head_object = λ key st. (ok (record { size = twelve_mib; etag = "tag" }), st);
  get_range = λ key n st. (ok (31 ∷ 139 ∷ 8 ∷ []), st);
  create_multipart_upload = λ key type st. (ok (some "u1"), []);
  list_parts_page = λ key id marker st. (ok (page_of st marker), st);
  complete_multipart_upload = λ key id parts st. (ok tt, []);
  abort_multipart_upload = λ key id st. (ok tt, []);
  delete_objects = λ keys st. (ok tt, st);
  list_multipart_uploads = λ prefix key id st. (
    ok (record {
      uploads = [];
      is_truncated = false;
      next_key_marker = none;
      next_upload_id_marker = none;
    }),
    st,
  );
  list_objects = λ prefix token st.
      (ok (record { keys = []; is_truncated = false; next_continuation_token = none }), st);
  signed_put = λ key type size ttl. "put";
  signed_get = λ key ttl. "get";
  signed_part = λ key id n size ttl. url_for size;
}
