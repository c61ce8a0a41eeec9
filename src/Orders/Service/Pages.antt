-- ===== src/Orders/Service/Pages.antt =====
-- src/orders/orders.service.ts: the pages of a list, one after the other.
use nodejs_advanced_homework.Prelude.{
  if◌then◌else◌, sum_by-sort_by, sum_by, ◌∙◌, sym, true, ltb, ◌&&◌, ◌++◌, none, ok, Option, map,
  ◌-◌, ap, min, subst, refl, take, inr, some, inl, arith, zero, [], length, leb, Bool-cases, ◌≤◌,
  ◌≡◌, filter, ◌==◌, ◌∷◌, ◌<◌, All, count, Bool, List, ℕ, suc,
}
use nodejs_advanced_homework.Orders.Service.Rising.{
  Rises, with_id, by_id-Sorted, Sorted-Rises, filter-Rises,
}
use nodejs_advanced_homework.Orders.Service.{
  err, OrderResponse, may_list, to_response, AccessClaims, find_all_for_viewer, page_of, last_id,
  is_past, Order, by_id,
}

abbrev skip : ℕ → List Order → List Order
skip zero xs = xs
skip (suc n) [] = []
skip (suc n) (x ∷ xs) = skip n xs

filter_past-all :
    (c : ℕ) (xs : List Order) → All (λ (y : Order). c < y.id) xs → filter (is_past (some c)) xs ≡ xs
filter_past-all c [] a = refl
filter_past-all c (x ∷ xs) (l, a) = ground (arith, filter_past-all c xs a)

last_id-take :
    (n : ℕ) (xs : List Order) → n < length xs → (c : ℕ) × (last_id (take (suc n) xs) ≡ some c)
last_id-take n [] h = absurd (omega arith)
last_id-take zero (x ∷ xs) h = (x.id, refl)
last_id-take (suc n) (x ∷ xs) h = let (c, e) = last_id-take n xs (omega arith) in (c, ground arith)

-- The rows past the last of the first ones are the others.
filter_past-skip :
    (n c : ℕ) (xs : List Order)
    → Rises xs
    → n < length xs
    → last_id (take (suc n) xs) ≡ some c
    → (filter (is_past (some c)) xs ≡ skip (suc n) xs)
      × ((b : ℕ) → All (λ (y : Order). b < y.id) xs → b < c)
filter_past-skip n c [] s h e = absurd (omega arith)
filter_past-skip zero c (x ∷ xs) (l, s) h e =
    let is : x.id ≡ c = ground arith in
    (
      ground (arith, filter_past-all c xs (subst (λ k. All (λ (y : Order). k < y.id) xs) is l)),
      λ b (k, a). omega arith,
    )
filter_past-skip (suc n) c (x ∷ xs) (l, s) h e =
    let (j, more) = last_id-take n xs (omega arith) in
    let (rest, above) = filter_past-skip n c xs s (omega arith) (ground arith) in
    let here = above x.id l in (ground (arith, rest), λ b (k, a). omega arith)

take-take : (n : ℕ) (xs : List Order) → take n (take (suc n) xs) ≡ take n xs
take-take zero xs = refl
take-take (suc n) [] = refl
take-take (suc n) (x ∷ xs) = ap (λ r. x ∷ r) (take-take n xs)

length-take : (n : ℕ) (xs : List Order) → length (take n xs) ≡ min n (length xs)
length-take zero xs = omega arith
length-take (suc n) [] = omega arith
length-take (suc n) (x ∷ xs) = omega (arith, length-take n xs)

take-all : (n : ℕ) (xs : List Order) → length xs ≤ n → take n xs ≡ xs
take-all zero [] h = refl
take-all zero (x ∷ xs) h = absurd (omega arith)
take-all (suc n) [] h = refl
take-all (suc n) (x ∷ xs) h = ap (λ r. x ∷ r) (take-all n xs (omega arith))

take-skip :
    (n : ℕ) (xs : List Order)
    → map to_response (take n xs) ++ map to_response (skip n xs) ≡ map to_response xs
take-skip zero xs = refl
take-skip (suc n) [] = refl
take-skip (suc n) (x ∷ xs) = ap (λ r. to_response x ∷ r) (take-skip n xs)

skip-Rises : (n : ℕ) (xs : List Order) → Rises xs → Rises (skip n xs)
skip-Rises zero xs s = s
skip-Rises (suc n) [] s = tt
skip-Rises (suc n) (x ∷ xs) (l, s) = skip-Rises n xs s

length-skip : (n : ℕ) (xs : List Order) → length (skip n xs) ≡ length xs - n
length-skip zero xs = omega arith
length-skip (suc n) [] = omega arith
length-skip (suc n) (x ∷ xs) = omega (arith, length-skip n xs)

-- The rows that a viewer has still to be shown, in the order of their ids.
abbrev pub to_show : AccessClaims → Option ℕ → List Order → List Order
to_show viewer cursor orders =
    filter (λ order. may_list viewer order && is_past cursor order) (by_id orders)

page_of-last :
    (limit : ℕ) (xs : List Order)
    → length xs ≤ limit
    → page_of limit (take (suc limit) xs)
      ≡ ok (record { items = map to_response xs; next_cursor = none })
unfolding page_of
page_of-last limit xs h = rw (take-all (suc limit) xs (omega arith)) (ground arith)

page_of-more :
    (n c : ℕ) (xs : List Order)
    → suc n < length xs
    → last_id (take (suc n) xs) ≡ some c
    → page_of (suc n) (take (suc (suc n)) xs)
      ≡ ok (record { items = map to_response (take (suc n) xs); next_cursor = some c })
unfolding page_of
page_of-more n c xs h e =
    let long : ltb (suc n) (length (take (suc (suc n)) xs)) ≡ true =
      ground (arith, length-take (suc (suc n)) xs) in
    ground (arith, long, take-take (suc n) xs, e)

narrow :
    (viewer : AccessClaims) (cursor : Option ℕ) (c : ℕ) (xs : List Order)
    → ((o : Order) → is_past (some c) o ≡ true → is_past cursor o ≡ true)
    → filter (is_past (some c)) (filter (λ o. may_list viewer o && is_past cursor o) xs)
      ≡ filter (λ o. may_list viewer o && is_past (some c) o) xs
narrow viewer cursor c [] h = refl
narrow viewer cursor c (x ∷ xs) h = ground (arith, narrow viewer cursor c xs h, h x)

above-cursor :
    (viewer : AccessClaims) (b : ℕ) (xs : List Order)
    → All (λ (y : Order). b < y.id) (filter (λ o. may_list viewer o && is_past (some b) o) xs)
above-cursor viewer b [] = tt
above-cursor viewer b (x ∷ xs) = elim (Bool-cases (may_list viewer x && ltb b x.id)) [
  | inl t ↦ rw t (ground arith, above-cursor viewer b xs)
  | inr f ↦ rw f (above-cursor viewer b xs)
]

cursor-below :
    (viewer : AccessClaims) (cursor : Option ℕ) (c : ℕ) (orders : List Order)
    → ((b : ℕ) → All (λ (y : Order). b < y.id) (to_show viewer cursor orders) → b < c)
    → (o : Order) → is_past (some c) o ≡ true
    → is_past cursor o ≡ true
cursor-below viewer none c orders h o t = refl
cursor-below viewer (some b) c orders h o t =
    let below = h b (above-cursor viewer b (by_id orders)) in ground arith

all-to_show :
    (viewer : AccessClaims) (xs : List Order)
    → filter (λ o. may_list viewer o && is_past none o) xs ≡ filter (may_list viewer) xs
all-to_show viewer [] = refl
all-to_show viewer (x ∷ xs) = ground (arith, all-to_show viewer xs)

length-filter-le : (p : Order → Bool) (xs : List Order) → length (filter p xs) ≤ length xs
length-filter-le p [] = omega arith
length-filter-le p (x ∷ xs) = ground (arith, length-filter-le p xs)

length-ones : (xs : List Order) → sum_by (λ o. 1) xs ≡ length xs
length-ones [] = refl
length-ones (x ∷ xs) = omega (arith, length-ones xs)

-- A client that asks for page after page, each from where the last one ended; none is one that is
-- stopped first or given an error.
unfoldable pub read_all : AccessClaims → ℕ → ℕ → Option ℕ → List Order → Option (List OrderResponse)
read_all viewer limit zero cursor orders = none
read_all viewer limit (suc fuel) cursor orders =
    elim (find_all_for_viewer viewer limit cursor orders) [
      | err e ↦ none
      | ok page ↦ elim page.next_cursor [
        | none ↦ some page.items
        | some c ↦ elim (read_all viewer limit fuel (some c) orders) [
          | none ↦ none
          | some rest ↦ some (page.items ++ rest)
        ]
      ]
    ]

read_all-from :
    (viewer : AccessClaims) (n fuel : ℕ) (cursor : Option ℕ) (orders : List Order)
    → Rises (to_show viewer cursor orders)
    → length (to_show viewer cursor orders) < fuel
    → read_all viewer (suc n) fuel cursor orders
      ≡ some (map to_response (to_show viewer cursor orders))
unfolding read_all find_all_for_viewer
read_all-from viewer n zero cursor orders s enough = absurd (omega arith)
read_all-from viewer n (suc fuel) cursor orders s enough =
    let shown = to_show viewer cursor orders in
    elim (Bool-cases (ltb (suc n) (length shown))) [
      | inr f ↦ let page = page_of-last (suc n) shown (ground arith) in ground (arith, page)
      | inl t ↦
          let (c, last) = last_id-take n shown (ground arith) in
          let (left, above) = filter_past-skip n c shown s (ground arith) last in
          let next : to_show viewer (some c) orders ≡ skip (suc n) shown =
            sym (narrow viewer cursor c (by_id orders) (cursor-below viewer cursor c orders above))
            ∙ left in
          let again =
            read_all-from viewer n fuel (some c) orders
              (subst Rises (sym next) (skip-Rises (suc n) shown s))
              (ground (arith, ap length next, length-skip (suc n) shown)) in
          let page = page_of-more n c shown (ground arith) last in
          let rest = again ∙ ap (λ (l : List Order). some (map to_response l)) next in
          let both : read_all viewer (suc n) (suc fuel) cursor orders
              ≡ some
                  (map to_response (take (suc n) shown) ++ map to_response (skip (suc n) shown)) =
            ground (arith, page, rest) in
          both ∙ ap some (take-skip (suc n) shown)
    ]

-- Where order ids are unique and pages hold one order at least, a client that follows the cursors
-- reads, within one page more than there are orders, exactly the orders that the viewer may see (all of them for an admin, the
-- viewer's own for anyone else), each once and in the order of their ids.
pub read_all-by_id :
    (viewer : AccessClaims) (limit : ℕ) (orders : List Order)
    → 1 ≤ limit
    → ((id : ℕ) → count (λ (o : Order). o.id == id) orders ≤ 1)
    → read_all viewer limit (suc (length orders)) none orders
      ≡ some (map to_response (filter (may_list viewer) (by_id orders)))
read_all-by_id viewer zero orders pos keyed = absurd (omega arith)
read_all-by_id viewer (suc n) orders pos keyed =
    let sorted = by_id orders in
    let unique : (id : ℕ) → count (with_id id) sorted ≤ 1 = λ id. omega (
      arith,
      keyed id,
      sum_by-sort_by (λ o. if with_id id o then 1 else 0) (λ (a b : Order). leb a.id b.id) orders,
    ) in
    let same : to_show viewer none orders ≡ filter (may_list viewer) sorted =
      all-to_show viewer sorted in
    let rises =
      subst Rises (sym same) (
        filter-Rises (may_list viewer) sorted (Sorted-Rises sorted unique (by_id-Sorted orders))) in
    let short : length (to_show viewer none orders) ≤ length orders = omega (
      arith,
      length-filter-le (λ o. may_list viewer o && is_past none o) sorted,
      length-ones sorted,
      length-ones orders,
      sum_by-sort_by (λ o. 1) (λ (a b : Order). leb a.id b.id) orders,
    ) in
    read_all-from viewer n (suc (length orders)) none orders rises (omega (arith, short))
    ∙ ap (λ (l : List Order). some (map to_response l)) same
