-- ===== src/Storage/Pages.antt =====
-- src/storage/storage.ts: the listing of the parts follows the pages to the end, and a deletion sends every key once.
use nodejs_advanced_homework.Prelude.{
  ◌≡◌, arith, true, false, List, ◌++◌, String, Option, none, some, ℕ, zero, suc, ◌<◌, ok, inl, inr,
  ◌⊎◌, length, sort_by, str_eq, length-append, ap,
}
use nodejs_advanced_homework.Storage.{
  S3, UploadedPart, PartsPage, by_part_number, page_fuel, list_parts_from, list_parts,
}

-- What S3 documents of ListParts: a page is the last, or it has parts and names the marker of the next,
-- and listing changes nothing. `rest` are the parts from a marker on.
abbrev pub IsPage : (Option String → List UploadedPart) → Option String → PartsPage → Type 0
IsPage rest marker page =
    ((page.is_truncated ≡ false) × (rest marker ≡ page.parts))
    ⊎ ((page.is_truncated ≡ true)
        × (next : String) × (page.next_part_number_marker ≡ some next)
        × (str_eq next "" ≡ false)
        × (0 < length page.parts)
        × (rest marker ≡ page.parts ++ rest (some next)))

pub record IsPaged (s3 : S3) (key upload_id : String) (st : s3.State)
    (rest : Option String → List UploadedPart) : Type 0 where
  pub page_at : Option String → PartsPage
  pub answers :
      (marker : Option String)
      → s3.list_parts_page key upload_id marker st ≡ (ok (page_at marker), st)
  pub pages : (marker : Option String) → IsPage rest marker (page_at marker)

module _ (s3 : S3) (key upload_id : String) (st : s3.State)
    (rest : Option String → List UploadedPart) (p : IsPaged s3 key upload_id st rest) where
  list_parts_from-eq :
      (fuel : ℕ) (marker : Option String)
      → length (rest marker) < fuel
      → list_parts_from s3 fuel key upload_id marker st ≡ (ok (rest marker), st)
  unfolding list_parts_from
  list_parts_from-eq zero marker h = absurd (omega arith)
  list_parts_from-eq (suc fuel) marker h = elim (p.pages marker) [
    | inl (last, e) ↦ ground (arith, p.answers marker)
    | inr (more, next, named, truth, some_part, e) ↦
        let shorter = length-append (p.page_at marker).parts (rest (some next)) in
        let left : length (rest (some next)) < fuel = omega (arith, ap length e, shorter) in
        ground (arith, p.answers marker, list_parts_from-eq fuel (some next) left)
  ]

  -- Where S3 answers page after page as it documents, and has no more parts than an upload may have, the
  -- listing ends, and gives all of them in the order of their numbers.
  list_parts-eq :
      length (rest none) < page_fuel
      → list_parts s3 key upload_id st ≡ (ok (sort_by by_part_number (rest none)), st)
  unfolding list_parts
  list_parts-eq h = ground (arith, list_parts_from-eq page_fuel none h)
