-- ===== src/Orders/Place/Lines.antt =====
-- src/orders/place-order.ts: the lines of an order, told by the request and the table of products.
use nodejs_advanced_homework.Prelude.{
  ◌≡◌, refl, ◌*◌, true, some, List, [], ◌∷◌, ok, arith, >>=-eq-ok, Option-cases, Bool-cases, inl,
  inr, find?, update_where, Has, Each, str_eq_iff, find?-passes,
}
use nodejs_advanced_homework.Outbox.Event.{PlacedLine}
use nodejs_advanced_homework.Orders.Place.{
  OrderLine, Product, Db, can_take, take_from, take_stock, take_all,
}

-- The line of an item: as many of its product, at the price of an active row of the table with that id.
pub record IsLine (products : List Product) (item : OrderLine) (line : PlacedLine) : Type 0 where
  pub product : Product
  pub listed : Has product products
  pub same_id : product.id ≡ item.product_id
  pub active : product.is_active ≡ true
  pub ordered : line.product_id ≡ item.product_id
  pub quantity : line.quantity ≡ item.quantity
  pub unit_price : line.unit_price_cents ≡ product.price_cents
  pub line_total : line.line_total_cents ≡ product.price_cents * item.quantity

find?-Has :
    (item : OrderLine) (ps : List Product) (p : Product)
    → find? (can_take item) ps ≡ some p
    → Has p ps
find?-Has item [] p h = absurd (ground arith)
find?-Has item (q ∷ ps) p h = elim (Bool-cases (can_take item q)) [
  | inl t ↦ inl (ground arith)
  | inr f ↦ inr (find?-Has item ps p (ground arith))
]

-- Taking stock leaves ids and prices as they are.
Has-taken :
    (item : OrderLine) (ps : List Product) (p : Product)
    → Has p (update_where (can_take item) (take_from item) ps)
    → (q : Product) × Has q ps
      × (p.id ≡ q.id)
      × (p.is_active ≡ q.is_active)
      × (p.price_cents ≡ q.price_cents)
unfolding take_from
Has-taken item [] p m = absurd m
Has-taken item (q ∷ ps) p (inl e) = (q, inl refl, ground arith, ground arith, ground arith)
Has-taken item (q ∷ ps) p (inr m) =
    let (r, n, i, a, c) = Has-taken item ps p m in (r, inr n, i, a, c)

take_stock-IsLine :
    (item : OrderLine) (db db' : Db) (line : PlacedLine)
    → take_stock item db ≡ ok (line, db')
    → IsLine db.products item line
      × (db'.products ≡ update_where (can_take item) (take_from item) db.products)
unfolding take_stock
take_stock-IsLine item db db' line h = elim (Option-cases (find? (can_take item) db.products)) [
  | inl e ↦ absurd (ground arith)
  | inr (p, e) ↦
      let passes : can_take item p ≡ true = find?-passes (can_take item) db.products p e in
      (
        record {
          product = p;
          listed = find?-Has item db.products p e;
          same_id = unfold can_take in ground (arith, passes, str_eq_iff p.id item.product_id);
          active = unfold can_take in ground (arith, passes);
          ordered = ground arith;
          quantity = ground arith;
          unit_price = ground arith;
          line_total = ground arith;
        },
        ground arith,
      )
]

IsLine-taken :
    (item : OrderLine) (ps : List Product) (i : OrderLine) (l : PlacedLine)
    → IsLine (update_where (can_take item) (take_from item) ps) i l
    → IsLine ps i l
IsLine-taken item ps i l is =
    let (q, n, id, active, price) = Has-taken item ps is.product is.listed in
    record {
      product = q;
      listed = n;
      same_id = ground (arith, is.same_id);
      active = ground (arith, is.active);
      ordered = is.ordered;
      quantity = is.quantity;
      unit_price = ground (arith, is.unit_price);
      line_total = rw (← price) is.line_total;
    }

Each-IsLine :
    (item : OrderLine) (ps : List Product) (is : List OrderLine) (ls : List PlacedLine)
    → Each (IsLine (update_where (can_take item) (take_from item) ps)) is ls
    → Each (IsLine ps) is ls
Each-IsLine item ps [] [] e = tt
Each-IsLine item ps [] (l ∷ ls) e = absurd e
Each-IsLine item ps (i ∷ is) [] e = absurd e
Each-IsLine item ps (i ∷ is) (l ∷ ls) (x, e) =
    (IsLine-taken item ps i l x, Each-IsLine item ps is ls e)

-- The loop makes one line of each item, in its order.
pub take_all-IsLine :
    (items : List OrderLine) (db db' : Db) (lines : List PlacedLine)
    → take_all items db ≡ ok (lines, db')
    → Each (IsLine db.products) items lines
unfolding take_all
take_all-IsLine [] db db' lines h = let none_left : [] ≡ lines = ground arith in rw (← none_left) tt
take_all-IsLine (item ∷ items) db db' lines h =
    let (l, db1, e1, k1) = >>=-eq-ok (take_stock item) _ db h in
    let (ls, db2, e2, k2) = >>=-eq-ok (take_all items) _ db1 k1 in
    let (first, taken) = take_stock-IsLine item db db1 l e1 in
    let more = take_all-IsLine items db1 db2 ls e2 in
    let all : l ∷ ls ≡ lines = ground arith in
    rw (← all) (first, Each-IsLine item db.products items ls (rw taken at more))
