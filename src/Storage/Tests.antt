-- ===== src/Storage/Tests.antt =====
-- src/storage/storage.ts: two pages of parts.
use nodejs_advanced_homework.Prelude.{
  false, true, refl, arith, List, [], ◌∷◌, String, Option, none, some, inl, inr,
}
use nodejs_advanced_homework.Storage.{UploadedPart, PartsPage}
use nodejs_advanced_homework.Storage.Bucket.{bucket}
use nodejs_advanced_homework.Storage.Pages.{IsPaged, IsPage}

abbrev first : UploadedPart
first = record { part_number = 1; etag = "a"; size = 5242880 }

abbrev second : UploadedPart
second = record { part_number = 2; etag = "b"; size = 5242880 }

abbrev rest : Option String → List UploadedPart
rest none = second ∷ first ∷ []
rest (some s) = first ∷ []

abbrev pages : Option String → PartsPage
pages none = record { parts = second ∷ []; is_truncated = true; next_part_number_marker = some "1" }
pages (some s) = record { parts = first ∷ []; is_truncated = false; next_part_number_marker = none }

is_page : (marker : Option String) → IsPage rest marker (pages marker)
is_page none = inr (refl, "1", refl, refl, omega arith, refl)
is_page (some s) = inl (refl, refl)

two_pages : IsPaged bucket "k" "u1" (second ∷ first ∷ []) rest
two_pages = record {
  page_at = pages;
  answers = λ marker. elim marker [ none ↦ refl | some s ↦ refl ];
  pages = is_page;
}
