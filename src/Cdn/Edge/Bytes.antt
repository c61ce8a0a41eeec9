-- ===== src/Cdn/Edge/Bytes.antt =====
-- src/cdn/edge.ts: the byte counter is what the cache holds, and stays within the budget.
use nodejs_advanced_homework.Prelude.{
  Option, ◌∙◌, if◌then◌else◌, ap, sum_by-append, zero, Bool-cases, ◌++◌, ◌<◌, Bool, none, length,
  refl, not, false, [], ◌+◌, ltb, any-filter-false, some, any, inr, arith, ◌∷◌, inl, ◌≤◌, find?,
  true, Option-cases, count, sum_by, List, ◌≡◌, ℕ, suc,
}
use nodejs_advanced_homework.Cdn.Edge.{
  drop_first, evicted, with_bytes, store, evict, without, is_named, size, same_codes, drop,
  EdgeOptions, Edge, Entry,
}

pub same_codes-eq : (s t : List ℕ) → same_codes s t ≡ true → s ≡ t
same_codes-eq [] [] h = refl
same_codes-eq [] (d ∷ t) h = cc
same_codes-eq (c ∷ s) [] h = cc
same_codes-eq (c ∷ s) (d ∷ t) h = ground (arith, same_codes-eq s t)

pub same_codes_self : (s : List ℕ) → same_codes s s ≡ true
same_codes_self [] = refl
same_codes_self (c ∷ s) = ground (arith, same_codes_self s)

-- What holds between requests.
pub record IsConsistent (opts : EdgeOptions) (edge : Edge) : Type 0 where
  pub bytes : edge.stats.cached_bytes ≡ sum_by size edge.cache
  pub within : edge.stats.cached_bytes ≤ opts.max_bytes
  pub keyed : (k : List ℕ) → count (is_named k) edge.cache ≤ 1
  pub small : any (λ e. ltb opts.max_object_bytes (size e)) edge.cache ≡ false

-- The same, but for the budget.
pub record IsCounted (opts : EdgeOptions) (edge : Edge) : Type 0 where
  pub bytes : edge.stats.cached_bytes ≡ sum_by size edge.cache
  pub keyed : (k : List ℕ) → count (is_named k) edge.cache ≤ 1
  pub small : any (λ e. ltb opts.max_object_bytes (size e)) edge.cache ≡ false

count-without_zero : (k : List ℕ) (es : List Entry) → count (is_named k) es ≡ 0 → without k es ≡ es
count-without_zero k [] h = refl
count-without_zero k (e ∷ es) h = ground (arith, count-without_zero k es)

count-without :
    (k j : List ℕ) (es : List Entry) → count (is_named j) (without k es) ≤ count (is_named j) es
count-without k j [] = omega arith
count-without k j (e ∷ es) = ground (arith, count-without k j es)

count-without_self : (k : List ℕ) (es : List Entry) → count (is_named k) (without k es) ≡ 0
count-without_self k [] = refl
count-without_self k (e ∷ es) = ground (arith, count-without_self k es)

length-without_le : (k : List ℕ) (es : List Entry) → length (without k es) ≤ length es
length-without_le k [] = omega arith
length-without_le k (e ∷ es) = ground (arith, length-without_le k es)

sum-without :
    (k : List ℕ) (es : List Entry) (e : Entry)
    → count (is_named k) es ≤ 1
    → find? (is_named k) es ≡ some e
    → sum_by size (without k es) + size e ≡ sum_by size es
sum-without k [] e u h = cc
sum-without k (x ∷ xs) e u h = ground (arith, sum-without k xs e, count-without_zero k xs)

module _ (opts : EdgeOptions) where
  pub drop-IsCounted :
      (k : List ℕ) (edge : Edge) → IsCounted opts edge → IsCounted opts (drop k edge)
  unfolding drop
  drop-IsCounted k edge i = elim (Option-cases (find? (is_named k) edge.cache)) [
    | inl n ↦ rw (n, drop) i
    | inr (e, f) ↦
        rw (f, drop)
          (record {
            bytes = omega (arith, i.bytes, sum-without k edge.cache e (i.keyed k) f);
            keyed = λ j. omega (arith, i.keyed j, count-without k j edge.cache);
            small =
                any-filter-false (λ e. ltb opts.max_object_bytes (size e)) (λ e. not (is_named k e))
                  edge.cache i.small;
          })
  ]

find?-none-count :
    (k : List ℕ) (es : List Entry) → find? (is_named k) es ≡ none → count (is_named k) es ≡ 0
find?-none-count k [] h = refl
find?-none-count k (e ∷ es) h = ground (arith, find?-none-count k es)

length-without :
    (k : List ℕ) (es : List Entry) (e : Entry)
    → find? (is_named k) es ≡ some e
    → length (without k es) < length es
length-without k [] e h = cc
length-without k (x ∷ xs) e h = ground (arith, length-without k xs e, length-without_le k xs)

drop-count : (k : List ℕ) (edge : Edge) → count (is_named k) (drop k edge).cache ≡ 0
unfolding drop
drop-count k edge = elim (Option-cases (find? (is_named k) edge.cache)) [
  | inl n ↦ rw (n, drop) (find?-none-count k edge.cache n)
  | inr (e, f) ↦ rw (f, drop) (count-without_self k edge.cache)
]

any-append_false :
    (p : Entry → Bool) (es : List Entry) (e : Entry)
    → any p es ≡ false
    → p e ≡ false
    → any p (es ++ e ∷ []) ≡ false
any-append_false p [] e h k = ground arith
any-append_false p (x ∷ xs) e h k = ground (arith, any-append_false p xs e)

pub drop-inflight : (k : List ℕ) (edge : Edge) → (drop k edge).inflight ≡ edge.inflight
unfolding drop
drop-inflight k edge = elim (Option-cases (find? (is_named k) edge.cache)) [
  | inl n ↦ rw (n, drop) refl
  | inr (e, f) ↦ rw (f, drop) refl
]

pub drop-bytes :
    (k : List ℕ) (edge : Edge) → (drop k edge).stats.cached_bytes ≤ edge.stats.cached_bytes
unfolding drop
drop-bytes k edge = elim (Option-cases (find? (is_named k) edge.cache)) [
  | inl n ↦ rw (n, drop) (omega arith)
  | inr (e, f) ↦ rw (f, drop) (omega arith)
]

append-keyed :
    (entry : Entry) (es : List Entry)
    → count (is_named entry.key) es ≡ 0
    → ((k : List ℕ) → count (is_named k) es ≤ 1)
    → (k : List ℕ) → count (is_named k) (es ++ entry ∷ []) ≤ 1
append-keyed entry es none_left keyed k =
    let sum = sum_by-append (λ e. if is_named k e then 1 else 0) es (entry ∷ []) in
    elim (Bool-cases (same_codes entry.key k)) [
      | inl t ↦
          let e = ap (λ j. count (is_named j) es) (same_codes-eq entry.key k t) in
          ground (arith, sum, e, none_left)
      | inr f ↦ ground (arith, sum, keyed k)
    ]

-- A first entry is found by its own key.
drop_first-shorter :
    (edge : Edge) (e : Entry) (es : List Entry)
    → edge.cache ≡ e ∷ es
    → length (drop e.key edge).cache < length edge.cache
unfolding drop
drop_first-shorter edge e es h =
    let f : find? (is_named e.key) edge.cache ≡ some e =
      rw h (ground (arith, same_codes_self e.key)) in
    rw (f, drop) (length-without e.key edge.cache e f)

module _ (opts : EdgeOptions) where
  abbrev pub Ends : Option Edge → Edge → Type 0
  Ends result edge =
      (e : Edge) × (result ≡ some e) × IsConsistent opts e × (e.inflight ≡ edge.inflight)

  -- A store whose budget is kept needs no eviction, and an empty one keeps any.
  evict-kept :
      (fuel : ℕ) (edge : Edge)
      → ltb opts.max_bytes edge.stats.cached_bytes ≡ false
      → IsCounted opts edge
      → Ends (evict opts (suc fuel) edge) edge
  unfolding evict
  evict-kept fuel edge n i = (
    edge,
    ground arith,
    record { bytes = i.bytes; within = ground arith; keyed = i.keyed; small = i.small },
    refl,
  )

  evict-step :
      (fuel : ℕ) (edge : Edge) (es : List Entry)
      → edge.cache ≡ es
      → ltb opts.max_bytes edge.stats.cached_bytes ≡ true
      → IsCounted opts edge
      → ((e : Edge)
          → length e.cache < length edge.cache
          → IsCounted opts e
          → Ends (evict opts fuel e) e)
      → Ends (evict opts (suc fuel) edge) edge
  unfolding evict
  evict-step fuel edge [] h y i again = absurd (ground (arith, i.bytes, ap (sum_by size) h))
  evict-step fuel edge (x ∷ xs) h y i again =
      let next = drop-IsCounted opts x.key edge i in
      let (e, k, c, same) =
        again (evicted (drop x.key edge)) (drop_first-shorter edge x xs h)
          (record { bytes = next.bytes; keyed = next.keyed; small = next.small }) in
      let step : evict opts (suc fuel) edge
          ≡ evict opts fuel (evicted (drop_first edge.cache edge)) =
        ground arith in
      (
        e,
        step ∙ ap (λ es. evict opts fuel (evicted (drop_first es edge))) h ∙ k,
        c,
        same ∙ drop-inflight x.key edge,
      )

  evict-IsConsistent :
      (fuel : ℕ) (edge : Edge)
      → length edge.cache < fuel
      → IsCounted opts edge
      → Ends (evict opts fuel edge) edge
  evict-IsConsistent zero edge enough i = absurd (omega arith)
  evict-IsConsistent (suc fuel) edge enough i =
      elim (Bool-cases (ltb opts.max_bytes edge.stats.cached_bytes)) [
        | inr n ↦ evict-kept fuel edge n i
        | inl y ↦
            evict-step fuel edge edge.cache refl y i
              (λ e l c. evict-IsConsistent fuel e (omega arith) c)
      ]

  -- Storing an object that is small enough.
  pub store-IsConsistent :
      (entry : Entry) (edge : Edge)
      → IsConsistent opts edge
      → size entry ≤ opts.max_object_bytes
      → Ends (store opts entry edge) edge
  unfolding store
  store-IsConsistent entry edge i fits =
      let d =
        drop-IsCounted opts entry.key edge
          (record { bytes = i.bytes; keyed = i.keyed; small = i.small }) in
      let none_left = drop-count entry.key edge in
      let (e, k, c, same) =
        evict-IsConsistent _
          (with_bytes ((drop entry.key edge).stats.cached_bytes + size entry)
            (record (drop entry.key edge) { cache = (drop entry.key edge).cache ++ entry ∷ [] }))
          (omega arith)
          (record {
            bytes =
                omega (arith, d.bytes, sum_by-append size (drop entry.key edge).cache (entry ∷ []));
            keyed = λ j. append-keyed entry (drop entry.key edge).cache none_left d.keyed j;
            small =
                any-append_false (λ e. ltb opts.max_object_bytes (size e))
                  (drop entry.key edge).cache entry d.small (ground arith);
          }) in
      (e, k, c, same ∙ drop-inflight entry.key edge)
