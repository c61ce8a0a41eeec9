-- ===== src/Orders/Service/Rising.antt =====
-- src/orders/orders.service.ts: `ORDER BY id` gives rising ids, where ids are unique.
use nodejs_advanced_homework.Prelude.{
  All-filter, ==_self, All-map, inr, inl, arith, [], leb, Bool-cases, ◌≤◌, ◌≡◌, filter, ◌==◌, ◌∷◌,
  ◌<◌, All, count, insert_by, Bool, List, ℕ,
}
use nodejs_advanced_homework.Orders.Service.{Order, by_id}

abbrev pub Rises : List Order → Type 0
Rises [] = Unit {0}
Rises (x ∷ xs) = All (λ (y : Order). x.id < y.id) xs × Rises xs

abbrev Sorted : List Order → Type 0
Sorted [] = Unit {0}
Sorted (x ∷ xs) = All (λ (y : Order). x.id ≤ y.id) xs × Sorted xs

abbrev pub with_id : ℕ → Order → Bool
with_id id order = order.id == id

All-insert_by :
    (P : Order → Type 0) (le : Order → Order → Bool) (x : Order) (ys : List Order)
    → P x
    → All P ys
    → All P (insert_by le x ys)
All-insert_by P le x [] h a = (h, tt)
All-insert_by P le x (y ∷ ys) h (k, a) = elim (Bool-cases (le x y)) [
  | inl t ↦ rw t (h, (k, a))
  | inr f ↦ rw f (k, All-insert_by P le x ys h a)
]

insert_by-Sorted :
    (x : Order) (ys : List Order) → Sorted ys → Sorted (insert_by (λ a b. leb a.id b.id) x ys)
insert_by-Sorted x [] s = (tt, tt)
insert_by-Sorted x (y ∷ ys) (l, s) = elim (Bool-cases (leb x.id y.id)) [
  | inl t ↦ rw t (
    (
      ground arith,
      All-map (λ (z : Order). y.id ≤ z.id) (λ (z : Order). x.id ≤ z.id) ys (λ z h. ground arith) l,
    ),
    (l, s),
  )
  | inr f ↦ rw f (
    All-insert_by (λ (z : Order). y.id ≤ z.id) (λ (a b : Order). leb a.id b.id) x ys (ground arith)
        l,
    insert_by-Sorted x ys s,
  )
]

pub by_id-Sorted : (orders : List Order) → Sorted (by_id orders)
by_id-Sorted [] = tt
by_id-Sorted (o ∷ os) = insert_by-Sorted o (by_id os) (by_id-Sorted os)

no-other :
    (id : ℕ) (xs : List Order)
    → count (with_id id) xs ≡ 0
    → All (λ (y : Order). id ≤ y.id) xs
    → All (λ (y : Order). id < y.id) xs
no-other id [] h a = tt
no-other id (x ∷ xs) h (l, a) = (ground arith, no-other id xs (ground arith) a)

pub Sorted-Rises : (xs : List Order) → ((id : ℕ) → count (with_id id) xs ≤ 1) → Sorted xs → Rises xs
Sorted-Rises [] u s = tt
Sorted-Rises (x ∷ xs) u (l, s) = (
  no-other x.id xs (ground (arith, u x.id, ==_self x.id)) l,
  Sorted-Rises xs (λ id. ground (arith, u id)) s,
)

pub filter-Rises : (p : Order → Bool) (xs : List Order) → Rises xs → Rises (filter p xs)
filter-Rises p [] s = tt
filter-Rises p (x ∷ xs) (l, s) = elim (Bool-cases (p x)) [
  | inl t ↦ rw t (All-filter (λ (y : Order). x.id < y.id) p xs l, filter-Rises p xs s)
  | inr f ↦ rw f (filter-Rises p xs s)
]
