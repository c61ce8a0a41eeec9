-- ===== src/Files/Policy.antt =====
-- src/files/policy.ts: content types, the multipart threshold and the part plan.
pub mod Bounds
pub mod Magic
use nodejs_advanced_homework.Prelude.{
  ℕ, zero, suc, ◌+◌, ◌-◌, ◌*◌, ◌/◌, max, Bool, true, false, ◌&&◌, Option, none, some, List, [], ◌∷◌,
  String, str_eq, ltb, ◌==◌, if◌then◌else◌, take, Result, ok, err,
}

abbrev pub mib : ℕ
mib = 1048576

abbrev pub gib : ℕ
gib = 1073741824

abbrev pub max_parts : ℕ
max_parts = 10000

abbrev pub min_part_bytes : ℕ
min_part_bytes = 5 * mib

abbrev pub max_part_bytes : ℕ
max_part_bytes = 5 * gib

abbrev pub max_object_bytes : ℕ
max_object_bytes = 5 * 1024 * gib

-- `Math.ceil(a / b)` for a positive `b`
abbrev pub div_ceil : ℕ → ℕ → ℕ
div_ceil a b = (a + (b - 1)) / b

unfoldable pub multipart_threshold : ℕ → ℕ → ℕ
multipart_threshold budget_sec bytes_per_sec =
    max (div_ceil (budget_sec * bytes_per_sec) mib * mib) (min_part_bytes + mib)

pub record PartPlan : Type 0 where
  pub part_size : ℕ
  pub part_count : ℕ

pub data PlanError : Type 0 where
  object_too_large part_too_large : PlanError

abbrev by_count : ℕ → ℕ
by_count size = div_ceil (div_ceil size max_parts) mib * mib

unfoldable pub plan_parts : ℕ → Result PlanError PartPlan
plan_parts size =
    let part_size = max min_part_bytes (by_count size) in
    if ltb max_object_bytes size
    then err object_too_large
    else if ltb max_part_bytes part_size
    then err part_too_large
    else ok (record { part_size = part_size; part_count = div_ceil size part_size })

unfoldable pub part_length : PartPlan → ℕ → ℕ → ℕ
part_length p size n =
    if ltb n p.part_count then p.part_size else size - p.part_size * (p.part_count - 1)

-- `signFor` asks for the parts 1, …, partCount: the bytes of the first `n` of them
abbrev pub total_length : PartPlan → ℕ → ℕ → ℕ
total_length p size zero = 0
total_length p size (suc n) = total_length p size n + part_length p size (suc n)

pub record AllowedType : Type 0 where
  pub ext : String
  pub max_bytes : ℕ

-- `ALLOWED_TYPES[contentType]`
unfoldable pub allowed_type : String → Option AllowedType
allowed_type content_type =
    if str_eq content_type "image/png"
    then some (record { ext = "png"; max_bytes = 20 * mib })
    else if str_eq content_type "image/jpeg"
    then some (record { ext = "jpg"; max_bytes = 20 * mib })
    else if str_eq content_type "image/webp"
    then some (record { ext = "webp"; max_bytes = 20 * mib })
    else if str_eq content_type "application/pdf"
    then some (record { ext = "pdf"; max_bytes = 100 * mib })
    else if str_eq content_type "application/gzip"
    then some (record { ext = "gz"; max_bytes = 1024 * gib })
    else none

-- `b.subarray(0, n).equals(prefix)` for a prefix of `n` bytes
abbrev begins : List ℕ → List ℕ → Bool
begins [] bytes = true
begins (p ∷ ps) [] = false
begins (p ∷ ps) (b ∷ bs) = p == b && begins ps bs

abbrev skip : ℕ → List ℕ → List ℕ
skip zero bytes = bytes
skip (suc n) [] = []
skip (suc n) (b ∷ bs) = skip n bs

unfoldable pub magic_matches : String → List ℕ → Bool
magic_matches content_type head =
    if str_eq content_type "image/png"
    then begins (137 ∷ 80 ∷ 78 ∷ 71 ∷ 13 ∷ 10 ∷ 26 ∷ 10 ∷ []) head
    else if str_eq content_type "image/jpeg"
    then begins (255 ∷ 216 ∷ 255 ∷ []) head
    else if str_eq content_type "image/webp"
    then begins (82 ∷ 73 ∷ 70 ∷ 70 ∷ []) head && begins (87 ∷ 69 ∷ 66 ∷ 80 ∷ []) (skip 8 head)
    else if str_eq content_type "application/pdf"
    then begins (37 ∷ 80 ∷ 68 ∷ 70 ∷ 45 ∷ []) head
    else if str_eq content_type "application/gzip"
    then begins (31 ∷ 139 ∷ []) head
    else false
