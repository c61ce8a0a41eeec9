-- ===== src/Files/Policy/Bounds.antt =====
-- src/files/policy.ts: the part plan stays inside the limits of S3 and covers the object exactly.
use nodejs_advanced_homework.Prelude.{
  ◌↔◌, ℕ, zero, suc, ◌+◌, ◌-◌, ◌*◌, ◌≤◌, ◌<◌, ◌≡◌, max, refl, arith, ok, err,
}
use nodejs_advanced_homework.Files.Policy.{
  PlanError, object_too_large, max_parts, min_part_bytes, max_part_bytes, max_object_bytes,
  div_ceil, by_count, PartPlan, plan_parts, part_length, total_length,
}

div_ceil-bounds : (a b : ℕ) → 0 < b → (a ≤ b * div_ceil a b) × (b * div_ceil a b < a + b)
div_ceil-bounds a b h = grind arith

part_size_of : ℕ → ℕ
part_size_of size = max min_part_bytes (by_count size)

-- The part size is at least a ten-thousandth of the object, and far below the limit on parts.
part_size_of-bounds :
    (size : ℕ)
    → size ≤ max_object_bytes
    → (min_part_bytes ≤ part_size_of size)
      × (part_size_of size ≤ max_part_bytes)
      × (size ≤ max_parts * part_size_of size)
unfolding part_size_of
part_size_of-bounds size h = omega arith

div_ceil-le : (a b c : ℕ) → 0 < b → a ≤ c * b → div_ceil a b ≤ c
div_ceil-le a b c h k = grind (arith, div_ceil-bounds a b h)

div_ceil-pos : (a b : ℕ) → 0 < b → 0 < a → 0 < div_ceil a b
div_ceil-pos a b h k = grind (arith, div_ceil-bounds a b h)

mul_suc : (b c : ℕ) → b * suc c ≡ b * c + b
mul_suc b c = grind arith

sub_one : (c : ℕ) → suc c - 1 ≡ c
sub_one c = omega arith

before_last : (b c a : ℕ) → 0 < c → b * c < a + b → b * (c - 1) < a
before_last b zero a h k = elim h [ ]
before_last b (suc c) a h k = rw sub_one (omega (arith, rw mul_suc at k))

pub record FitsS3 (size : ℕ) (p : PartPlan) : Type 0 where
  pub part_min : min_part_bytes ≤ p.part_size
  pub part_max : p.part_size ≤ max_part_bytes
  pub some_part : 0 < p.part_count
  pub count_max : p.part_count ≤ max_parts
  pub last_starts : p.part_size * (p.part_count - 1) < size
  pub covered : size ≤ p.part_size * p.part_count

-- The plan of every object up to 5 TiB.
plan_of : ℕ → PartPlan
plan_of size = record {
  part_size = part_size_of size;
  part_count = div_ceil size (part_size_of size);
}

plan_parts-eq-ok : (size : ℕ) → size ≤ max_object_bytes → plan_parts size ≡ ok (plan_of size)
unfolding plan_parts plan_of part_size_of
plan_parts-eq-ok size h = ground (arith, part_size_of-bounds size h)

plan_of-FitsS3 : (size : ℕ) → 0 < size → size ≤ max_object_bytes → FitsS3 size (plan_of size)
unfolding plan_of
plan_of-FitsS3 size pos h =
    let (lo, hi, few) = part_size_of-bounds size h in
    let (covered, tight) = div_ceil-bounds size (part_size_of size) (omega arith) in
    record {
      part_min = lo;
      part_max = hi;
      some_part = div_ceil-pos size (part_size_of size) (omega arith) pos;
      count_max = div_ceil-le size (part_size_of size) max_parts (omega arith) few;
      last_starts =
          before_last (part_size_of size) (div_ceil size (part_size_of size)) size
            (div_ceil-pos size (part_size_of size) (omega arith) pos) tight;
      covered = covered;
    }

-- While parts before the last are asked for, each has the full size.
total_length-full :
    (p : PartPlan) (size n : ℕ) → n < p.part_count → total_length p size n ≡ p.part_size * n
unfolding part_length
total_length-full p size zero h = omega arith
total_length-full p size (suc n) h =
    ground (arith, total_length-full p size n (omega arith), mul_suc p.part_size n)

part_length-last :
    (p : PartPlan) (size n : ℕ)
    → p.part_count ≡ suc n
    → part_length p size (suc n) ≡ size - p.part_size * n
unfolding part_length
part_length-last p size n e = rw (e, sub_one) (ground arith)

total_length-eq :
    (p : PartPlan) (size c : ℕ)
    → p.part_count ≡ c
    → 0 < c
    → p.part_size * (c - 1) < size
    → total_length p size c ≡ size
total_length-eq p size zero e pos h = elim pos [ ]
total_length-eq p size (suc n) e pos h =
    omega (
      arith,
      total_length-full p size n (omega arith),
      part_length-last p size n e,
      rw sub_one at h,
    )

-- An object of 1 byte to 5 TiB gets a plan: parts of 5 MiB to 5 GiB, between 1 and 10 000 of them,
-- the last of which starts inside the object, and the lengths of all parts add up to the object's.
pub plan_parts-FitsS3 :
    (size : ℕ)
    → 0 < size
    → size ≤ max_object_bytes
    → (p : PartPlan) × (plan_parts size ≡ ok p)
      × FitsS3 size p
      × (total_length p size p.part_count ≡ size)
plan_parts-FitsS3 size pos h =
    let f = plan_of-FitsS3 size pos h in
    (
      plan_of size,
      plan_parts-eq-ok size h,
      f,
      total_length-eq (plan_of size) size (plan_of size).part_count refl f.some_part f.last_starts,
    )

-- An object is refused exactly when it is over 5 TiB, and then as too large: the check of the part
-- size is never what refuses.
plan_parts-eq-err_iff :
    (size : ℕ) (e : PlanError)
    → (plan_parts size ≡ err e) ↔ ((max_object_bytes < size) × (e ≡ object_too_large))
unfolding plan_parts part_size_of
plan_parts-eq-err_iff size e = grind (arith, part_size_of-bounds)
