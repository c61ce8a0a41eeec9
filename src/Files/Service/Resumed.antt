-- ===== src/Files/Service/Resumed.antt =====
-- src/files/files.service.ts: a client that uploads the parts it is told to has a complete upload.
use nodejs_advanced_homework.Prelude.{
  ◌≡◌, false, List, [], ◌∷◌, ℕ, zero, suc, ◌+◌, ◌≤◌, ◌<◌, any, ◌==◌, if◌then◌else◌,
}
use nodejs_advanced_homework.Storage.{UploadedPart}
use nodejs_advanced_homework.Files.Policy.{part_length}
use nodejs_advanced_homework.Files.Service.{number_of, FileRow, plan_of_row}

abbrev pub AreDistinct : List ℕ → Type 0
AreDistinct [] = Unit {0}
AreDistinct (n ∷ ns) = (any (◌==◌ n) ns ≡ false) × AreDistinct ns

-- How many of `n`, `n + 1`, … are in the list.
in_range : List ℕ → ℕ → ℕ → ℕ
in_range ns n zero = 0
in_range ns n (suc left) = (if any (◌==◌ n) ns then 1 else 0) + in_range ns (n + 1) left

-- The part was sent through a URL that was signed for its length.
abbrev pub IsSigned : FileRow → UploadedPart → Type 0
IsSigned row p =
    (1 ≤ p.part_number)
    × (p.part_number < 1 + number_of row.part_count)
    × (p.size ≡ part_length (plan_of_row row) row.size p.part_number)
