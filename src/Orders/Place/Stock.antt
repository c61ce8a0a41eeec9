-- ===== src/Orders/Place/Stock.antt =====
-- src/orders/place-order.ts: the stock is conserved: what is ordered is what is taken.
use nodejs_advanced_homework.Prelude.{
  ℕ, ◌+◌, ◌≤◌, ◌≡◌, refl, ap, ◌∙◌, subst, false, none, some, List, [], ◌∷◌, String, str_eq,
  str_eq_iff, if◌then◌else◌, ok, arith, >>=-eq-ok, Bool-cases, Option-cases, inl, inr, find?,
  update_where, sum_by, sum_by-sort_by,
}
use nodejs_advanced_homework.Outbox.Event.{PlacedLine}
use nodejs_advanced_homework.Orders.Place.{
  OrderLine, PlaceOrderInput, PlaceOrderResult, Product, Db, Env, can_take, take_from, take_stock,
  take_all, lock_order, place_order, insert_outbox, insert_rows, key_of,
}
use nodejs_advanced_homework.Orders.Place.Commit.{Committed, claim_key-same}
use nodejs_advanced_homework.Orders.Place.Ending.{place_order-Committed}

-- The stock of a product, the rows with its id, and how much of it a request orders.
abbrev pub stock_in : String → List Product → ℕ
stock_in k ps = sum_by (λ p. if str_eq p.id k then p.stock else 0) ps

abbrev pub rows_with : String → List Product → ℕ
rows_with k ps = sum_by (λ p. if str_eq p.id k then 1 else 0) ps

abbrev pub ordered : String → List OrderLine → ℕ
ordered k items = sum_by (λ i. if str_eq i.product_id k then i.quantity else 0) items

-- `id` is the primary key of `products`.
abbrev pub IsKeyed : List Product → Type 0
IsKeyed ps = (k : String) → rows_with k ps ≤ 1

module _ (item : OrderLine) where
  abbrev after : List Product → List Product
  after ps = update_where (can_take item) (take_from item) ps

  rows_with-after : (ps : List Product) (k : String) → rows_with k (after ps) ≡ rows_with k ps
  unfolding take_from
  rows_with-after [] k = refl
  rows_with-after (p ∷ ps) k = ground (arith, rows_with-after ps k)

  -- Rows of other products stay.
  stock_in-after_ne :
      (ps : List Product) (k : String)
      → str_eq item.product_id k ≡ false
      → stock_in k (after ps) ≡ stock_in k ps
  unfolding can_take take_from
  stock_in-after_ne [] k h = refl
  stock_in-after_ne (p ∷ ps) k h = ground (
    arith,
    stock_in-after_ne ps k h,
    str_eq_iff p.id k,
    str_eq_iff p.id item.product_id,
    str_eq_iff item.product_id k,
  )

  stock_in-after-none :
      (ps : List Product)
      → rows_with item.product_id ps ≡ 0
      → (stock_in item.product_id (after ps) ≡ stock_in item.product_id ps)
        × (find? (can_take item) ps ≡ none)
  unfolding can_take take_from
  stock_in-after-none [] h = (refl, refl)
  stock_in-after-none (p ∷ ps) h = ground (arith, stock_in-after-none ps)

  stock_in-after :
      (ps : List Product) (found : Product)
      → rows_with item.product_id ps ≤ 1
      → find? (can_take item) ps ≡ some found
      → stock_in item.product_id (after ps) + item.quantity ≡ stock_in item.product_id ps
  unfolding can_take take_from
  stock_in-after [] found u h = cc
  stock_in-after (p ∷ ps) found u h =
      ground (arith, stock_in-after-none ps, stock_in-after ps found)

take_conserves :
    (item : OrderLine) (ps : List Product) (found : Product) (k : String)
    → rows_with item.product_id ps ≤ 1
    → find? (can_take item) ps ≡ some found
    → stock_in k (after item ps) + ordered k (item ∷ []) ≡ stock_in k ps
take_conserves item ps found k u e = elim (Bool-cases (str_eq item.product_id k)) [
  | inl t ↦
      let same = (str_eq_iff item.product_id k).0 t in
      rw t (
        subst (λ j. stock_in j (after item ps) + (item.quantity + 0) ≡ stock_in j ps) same
          (omega (arith, stock_in-after item ps found u e)))
  | inr f ↦ rw f (omega (arith, stock_in-after_ne item ps k f))
]

take_stock-conserves :
    (item : OrderLine) (db db' : Db) (line : PlacedLine) (k : String)
    → IsKeyed db.products
    → take_stock item db ≡ ok (line, db')
    → (stock_in k db'.products + ordered k (item ∷ []) ≡ stock_in k db.products)
      × (rows_with k db'.products ≡ rows_with k db.products)
unfolding take_stock
take_stock-conserves item db db' line k u h =
    elim (Option-cases (find? (can_take item) db.products)) [
      | inl e ↦ absurd (ground arith)
      | inr (p, e) ↦
          let same : db'.products ≡ after item db.products = ground arith in
          rw same (
            take_conserves item db.products p k (u item.product_id) e,
            rows_with-after item db.products k,
          )
    ]

take_all-conserves :
    (items : List OrderLine) (db db' : Db) (lines : List PlacedLine) (k : String)
    → IsKeyed db.products
    → take_all items db ≡ ok (lines, db')
    → stock_in k db'.products + ordered k items ≡ stock_in k db.products
unfolding take_all
take_all-conserves [] db db' lines k u h = ground arith
take_all-conserves (item ∷ items) db db' lines k u h =
    let (l, db1, e1, k1) = >>=-eq-ok (take_stock item) _ db h in
    let (ls, db2, e2, k2) = >>=-eq-ok (take_all items) _ db1 k1 in
    let one = take_stock-conserves item db db1 l k u e1 in
    let keyed : IsKeyed db1.products =
      λ j. rw (take_stock-conserves item db db1 l j u e1).1 (u j) in
    let more = take_all-conserves items db1 db2 ls k keyed e2 in
    let same : db2 ≡ db' = ground arith in
    subst (λ d. stock_in k d.products + ordered k (item ∷ items) ≡ stock_in k db.products) same
      (omega (arith, one.0, more))

Committed-conserves :
    (env : Env) (input : PlaceOrderInput) (db db' : Db) (r : PlaceOrderResult) (k : String)
    → IsKeyed db.products
    → Committed env input db db' r
    → stock_in k db'.products + ordered k input.items ≡ stock_in k db.products
unfolding lock_order insert_outbox insert_rows
Committed-conserves env input db db' r k u c =
    let taken = take_all-conserves (lock_order input.items) db c.stocked c.lines k u c.takes in
    let kept = (claim_key-same env (key_of input) _ _ _ _ c.claimed c.claims).3 in
    let same : db'.products ≡ c.stocked.products = ap (λ (d : Db). d.products) c.ends ∙ kept in
    rw same (
      omega (
        arith,
        taken,
        sum_by-sort_by (λ (i : OrderLine). if str_eq i.product_id k then i.quantity else 0) _
            input.items,
      ))

-- Where product ids are unique, an order that is placed, and not replayed, has taken from the stock
-- of every product exactly what its lines order of it, whatever the order of the lines, and so never
-- more than there was.
pub place_order-conserves :
    (env : Env) (input : PlaceOrderInput) (db db' : Db) (r : PlaceOrderResult) (k : String)
    → IsKeyed (env.meanwhile db).products
    → place_order env input db ≡ (ok r, db')
    → r.replayed ≡ false
    → stock_in k db'.products + ordered k input.items ≡ stock_in k (env.meanwhile db).products
place_order-conserves env input db db' r k u h f =
    Committed-conserves env input (env.meanwhile db) db' r k u
      (place_order-Committed env input db db' r h f)
