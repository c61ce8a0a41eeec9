-- ===== src/Files/Tests.antt =====
-- src/files/policy.ts: the plan of an object of 100 MiB, and one above 5 TiB.
use nodejs_advanced_homework.Prelude.{[], true, ◌∷◌, List, arith, refl, ok, ◌≡◌, ℕ}
use nodejs_advanced_homework.Files.Policy.{magic_matches, total_length, PartPlan, plan_parts}
use nodejs_advanced_homework.Files.Policy.Bounds.{FitsS3, plan_parts-FitsS3}

abbrev hundred_mib : ℕ
hundred_mib = 104857600

abbrev six_tib : ℕ
six_tib = 6597069766656

hundred_mib_plan : plan_parts hundred_mib ≡ ok (record { part_size = 5242880; part_count = 20 })
unfolding plan_parts
hundred_mib_plan = refl

plan_parts-FitsS3_example :
    (p : PartPlan) × (plan_parts hundred_mib ≡ ok p)
    × FitsS3 hundred_mib p
    × (total_length p hundred_mib p.part_count ≡ hundred_mib)
plan_parts-FitsS3_example = plan_parts-FitsS3 hundred_mib (omega arith) (omega arith)

abbrev gzip_head : List ℕ
gzip_head = 31 ∷ 139 ∷ 8 ∷ []

gzip_matches : magic_matches "application/gzip" gzip_head ≡ true
unfolding magic_matches
gzip_matches = refl
