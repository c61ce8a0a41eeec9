-- ===== src/Files/Requests/Unique.antt =====
-- src/files: the ids of the rows, and the idempotency keys of each owner, stay unique.
use nodejs_advanced_homework.Prelude.{
  ◌∙◌, ◌≡◌, refl, arith, Bool, true, false, List, [], ◌∷◌, String, Option, some, ℕ, inl, inr, ◌≤◌,
  Bool-cases, Option-cases, not, any, filter, map, codes, lower, count, count-update_where,
  count-filter, count_of_none, any-update_where, any-filter-false, update_where, Has, Has-any,
  str_eq_iff, sym,
}
use nodejs_advanced_homework.Files.Policy.{PartPlan}
use nodejs_advanced_homework.Files.Tables.{same_codes}
use nodejs_advanced_homework.Files.Service.{
  FileRow, has_key, uuid_eq, with_upload, with_etag, set_upload_id, complete_row, is_pending,
}
use nodejs_advanced_homework.Files.Orphans.{delete_rows}
use nodejs_advanced_homework.Files.Service.Placed.{Placed, kept, added, opened}

same_codes_sym : (a b : List ℕ) → same_codes a b ≡ same_codes b a
same_codes_sym [] [] = refl
same_codes_sym [] (y ∷ ys) = refl
same_codes_sym (x ∷ xs) [] = refl
same_codes_sym (x ∷ xs) (y ∷ ys) = ground (arith, same_codes_sym xs ys)

pub uuid_eq_sym : (a b : String) → uuid_eq a b ≡ uuid_eq b a
unfolding uuid_eq
uuid_eq_sym a b = same_codes_sym (map lower (codes a)) (map lower (codes b))

abbrev pub HaveIds : List FileRow → Type 0
HaveIds [] = Unit {0}
HaveIds (r ∷ rs) = (any (λ s. uuid_eq s.id r.id) rs ≡ false) × HaveIds rs

abbrev pub HaveKeys : List FileRow → Type 0
HaveKeys rows = (owner_id k : String) → count (has_key owner_id (some k)) rows ≤ 1

-- A row that shares its id with a row of the table is that row.
pub HaveIds-eq :
    (rows : List FileRow) (a b : FileRow)
    → HaveIds rows
    → Has a rows
    → Has b rows
    → uuid_eq a.id b.id ≡ true
    → a ≡ b
HaveIds-eq [] a b h m n e = absurd m
HaveIds-eq (r ∷ rs) a b h (inl p) (inl q) e = p ∙ sym q
HaveIds-eq (r ∷ rs) a b (new, h) (inl p) (inr n) e =
    let back = uuid_eq_sym a.id b.id in
    absurd (cc (Has-any (λ s. uuid_eq s.id r.id) rs b n (rw (← p) (ground arith)), new))
HaveIds-eq (r ∷ rs) a b (new, h) (inr m) (inl q) e =
    absurd (cc (Has-any (λ s. uuid_eq s.id r.id) rs a m (rw (← q) e), new))
HaveIds-eq (r ∷ rs) a b (new, h) (inr m) (inr n) e = HaveIds-eq rs a b h m n e

HaveIds-update_where :
    (p : FileRow → Bool) (f : FileRow → FileRow) (rows : List FileRow)
    → ((r : FileRow) → (f r).id ≡ r.id)
    → HaveIds rows
    → HaveIds (update_where p f rows)
HaveIds-update_where p f [] same h = tt
HaveIds-update_where p f (r ∷ rs) same (new, h) = elim (Bool-cases (p r)) [
  | inl t ↦
      rw (t, same r)
        (
          any-update_where (λ s. uuid_eq s.id r.id) p f rs (λ s. rw (same s) refl) ∙ new,
          HaveIds-update_where p f rs same h,
        )
  | inr n ↦ rw n (
    any-update_where (λ s. uuid_eq s.id r.id) p f rs (λ s. rw (same s) refl) ∙ new,
    HaveIds-update_where p f rs same h,
  )
]

HaveIds-filter : (p : FileRow → Bool) (rows : List FileRow) → HaveIds rows → HaveIds (filter p rows)
HaveIds-filter p [] h = tt
HaveIds-filter p (r ∷ rs) (new, h) = elim (Bool-cases (p r)) [
  | inl t ↦ rw t (any-filter-false (λ s. uuid_eq s.id r.id) p rs new, HaveIds-filter p rs h)
  | inr n ↦ rw n (HaveIds-filter p rs h)
]

has_key-eq :
    (owner_id k : String) (row : FileRow)
    → has_key owner_id (some k) row ≡ true
    → (row.owner_id ≡ owner_id) × (row.idempotency_key ≡ some k)
has_key-eq owner_id k row t = elim (Option-cases row.idempotency_key) [
  | inl n ↦ absurd (ground arith)
  | inr (j, e) ↦
      (ground (arith, str_eq_iff row.owner_id owner_id), ground (arith, e, str_eq_iff j k))
]

-- A row whose key no other row of the owner has keeps the keys unique.
HaveKeys-cons :
    (row : FileRow) (rows : List FileRow)
    → any (has_key row.owner_id row.idempotency_key) rows ≡ false
    → HaveKeys rows
    → HaveKeys (row ∷ rows)
HaveKeys-cons row rows free h owner_id k = elim (Bool-cases (has_key owner_id (some k) row)) [
  | inr n ↦ ground (arith, h owner_id k)
  | inl t ↦
      let (o, i) = has_key-eq owner_id k row t in
      ground (arith, count_of_none (has_key owner_id (some k)) rows (rw (o, i) at free))
]

HaveKeys-update_where :
    (p : FileRow → Bool) (f : FileRow → FileRow) (rows : List FileRow)
    → ((owner_id k : String) (r : FileRow)
        → has_key owner_id (some k) (f r) ≡ has_key owner_id (some k) r)
    → HaveKeys rows
    → HaveKeys (update_where p f rows)
HaveKeys-update_where p f rows same h owner_id k =
    rw (count-update_where (has_key owner_id (some k)) p f rows (same owner_id k)) (h owner_id k)

pub record AreUnique (rows : List FileRow) : Type 0 where
  pub ids : HaveIds rows
  pub keys : HaveKeys rows

AreUnique-update_where :
    (p : FileRow → Bool) (f : FileRow → FileRow) (rows : List FileRow)
    → ((r : FileRow) → (f r).id ≡ r.id)
    → ((owner_id k : String) (r : FileRow)
        → has_key owner_id (some k) (f r) ≡ has_key owner_id (some k) r)
    → AreUnique rows
    → AreUnique (update_where p f rows)
AreUnique-update_where p f rows same keyed u = record {
  ids = HaveIds-update_where p f rows same u.ids;
  keys = HaveKeys-update_where p f rows keyed u.keys;
}

pub complete_row-AreUnique :
    (now : ℕ) (id etag : String) (rows : List FileRow)
    → AreUnique rows
    → AreUnique (complete_row now id etag rows)
unfolding complete_row
complete_row-AreUnique now id etag rows u =
    AreUnique-update_where (is_pending id) (with_etag now etag) rows (λ r. refl) (λ o k r. refl) u

pub delete_rows-AreUnique :
    (claimed rows : List FileRow) → AreUnique rows → AreUnique (delete_rows claimed rows)
unfolding delete_rows
delete_rows-AreUnique claimed rows u =
    let p : FileRow → Bool = λ r. not (any (λ c. uuid_eq c.id r.id) claimed) in
    record {
      ids = HaveIds-filter p rows u.ids;
      keys = λ o k. omega (arith, count-filter (has_key o (some k)) p rows, u.keys o k);
    }

pub Placed-AreUnique :
    (row : FileRow) (plan : Option PartPlan) (old new : List FileRow)
    → Placed row plan old new
    → any (λ r. uuid_eq r.id row.id) old ≡ false
    → AreUnique old
    → AreUnique new
unfolding set_upload_id
Placed-AreUnique row plan old new (kept e) fresh u = rw e u
Placed-AreUnique row plan old new (added f e) fresh u =
    rw e (record { ids = (fresh, u.ids); keys = HaveKeys-cons row old f u.keys })
Placed-AreUnique row plan old new (opened f id s e) fresh u = rw e (
    AreUnique-update_where (λ r. uuid_eq r.id row.id) (with_upload id) (row ∷ old) (λ r. refl)
      (λ o k r. refl) (record { ids = (fresh, u.ids); keys = HaveKeys-cons row old f u.keys }))
