-- ===== src/Checkout/Conserves.antt =====
-- src/checkout/checkout.ts: nothing is lost between the tables, and when a checkout goes through.
use nodejs_advanced_homework.Prelude.{
  ◌-◌, if◌then◌else◌, or_else, sum_by-append, sym, ◌∙◌, subst, ap, >>=-eq-ok, ◌>>◌, ◌>>=◌,
  transaction-eq-ok, [], ◌∷◌, ◌++◌, ◌*◌, Result-cases, inr, arith, inl, ok, str_eq, ◌+◌, sum_by,
  ◌≤◌, some, String, ◌≡◌, ℕ,
}
use nodejs_advanced_homework.Checkout.{
  OrderItemRow, OrderRow, update_products, run, checked, checkout, checkout_tx, job_row, item_row,
  order_row, UserRow, charge, ProductRow, decrement_stock, Env, CheckoutInput, CheckoutResult, Db,
}
use nodejs_advanced_homework.Checkout.Updates.{
  stock_in, balance_in, Sells, IsKeyed, Taken, decrement_stock-Taken, Paid, debit_balance-Paid,
  recorded, Charged, charge-Charged, checked-eq-ok, Taken-Sells, kept_of,
}

-- What a checkout that goes through has done: told by the product, the user and the new rows, and by sums
-- over the whole tables.
pub record IsSold (input : CheckoutInput) (db db' : Db) (r : CheckoutResult) : Type 0 where
  pub quantity : ℕ
  pub asked : input.quantity ≡ some quantity
  pub positive : 1 ≤ quantity
  pub product : ProductRow
  pub sells : Sells input quantity db.products product
  pub total : r.total_cents ≡ product.price_cents * quantity
  pub left : r.stock_left + quantity ≡ product.stock
  pub stock_of :
      (k : String)
      → stock_in k db'.products + (if str_eq input.product_id k then quantity else 0)
        ≡ stock_in k db.products
  pub balance_of :
      (k : String)
      → balance_in k db'.users + (if str_eq input.user_id k then r.total_cents else 0)
        ≡ balance_in k db.users
  pub order :
      db'.orders
      ≡ db.orders
        ++ record {
          id = r.order_id;
          user_id = input.user_id;
          status = "completed";
          total_cents = r.total_cents;
          shipping_country = or_else input.shipping_country "US";
        }
          ∷ []
  pub item :
      db'.order_items
      ≡ db.order_items
        ++ record {
          order_id = r.order_id;
          product_id = input.product_id;
          quantity = quantity;
          unit_price_cents = product.price_cents;
          line_total_cents = r.total_cents;
        }
          ∷ []
  pub job :
      db'.jobs
      ≡ db.jobs
        ++ record {
          id = r.job_id;
          type = "send_receipt";
          payload = (r.order_id, input.user_id);
          status = "pending";
          order_id = r.order_id;
        }
          ∷ []
  pub stock : sum_by (λ p. p.stock) db'.products + quantity ≡ sum_by (λ p. p.stock) db.products
  pub balance :
      sum_by (λ u. u.balance_cents) db'.users + r.total_cents
      ≡ sum_by (λ u. u.balance_cents) db.users
  pub revenue :
      sum_by (λ o. o.total_cents) db'.orders ≡ sum_by (λ o. o.total_cents) db.orders + r.total_cents
  pub lines :
      sum_by (λ i. i.line_total_cents) db'.order_items
      ≡ sum_by (λ i. i.line_total_cents) db.order_items + r.total_cents
  pub units :
      sum_by (λ i. i.quantity) db'.order_items ≡ sum_by (λ i. i.quantity) db.order_items + quantity

assemble-IsSold :
    (env : Env) (input : CheckoutInput) (q : ℕ) (db sold db' : Db) (p : ProductRow)
    (r : CheckoutResult)
    → (input.quantity ≡ some q) × (1 ≤ q)
    → Taken input.product_id q db sold p
    → (c : Charged env input q p sold db' r) → Paid input.user_id r.total_cents sold c.paid
    → IsSold input db db' r
unfolding recorded
assemble-IsSold env input q db sold db' p r (asked, positive) t c b =
    let paid = c.paid in
    let kept : record paid { products = db.products; users = db.users } ≡ db =
      kept_of db sold paid t.rest b.rest in
    let sells = Taken-Sells input q db sold p t in
    let unit : p.price_cents ≡ t.found.price_cents =
      ap (λ (x : ProductRow). x.price_cents) t.returned in
    let same_users = ap (λ (d : Db). d.users) t.rest in
    let same_products = ap (λ (d : Db). d.products) b.rest in
    record {
      quantity = q;
      asked = asked;
      positive = positive;
      product = t.found;
      sells = sells;
      total = c.total ∙ ap (λ n. n * q) unit;
      left =
          let back : p.stock ≡ t.found.stock - q = ap (λ (x : ProductRow). x.stock) t.returned in
          omega (arith, c.left, back, sells.enough);
      stock_of = rw (c.ends, same_products) t.stock_of;
      balance_of = λ k. rw c.ends (b.balance_of k ∙ ap (balance_in k) same_users);
      order =
          rw (c.ends, c.order_id, c.total)
            (ap (λ (d : Db). d.orders ++ order_row env input (p.price_cents * q) ∷ []) kept);
      item =
          rw (c.ends, c.order_id, c.total, ← unit)
            (ap
              (λ (d : Db).
                d.order_items ++ item_row env input q p.price_cents (p.price_cents * q) ∷ [])
              kept);
      job =
          rw (c.ends, c.order_id, c.job_id)
            (ap (λ (d : Db). d.jobs ++ job_row env input ∷ []) kept);
      stock = rw (c.ends, same_products) t.stock;
      balance = rw c.ends (b.balance ∙ ap (sum_by (λ (u : UserRow). u.balance_cents)) same_users);
      revenue = rw c.ends (
          omega (
            arith,
            c.total,
            sum_by-append (λ (x : OrderRow). x.total_cents) paid.orders
                (order_row env input (p.price_cents * q) ∷ []),
            ap (λ (d : Db). sum_by (λ (x : OrderRow). x.total_cents) d.orders) kept,
          ));
      lines = rw c.ends (
          omega (
            arith,
            c.total,
            sum_by-append (λ (x : OrderItemRow). x.line_total_cents) paid.order_items
                (item_row env input q p.price_cents (p.price_cents * q) ∷ []),
            ap (λ (d : Db). sum_by (λ (x : OrderItemRow). x.line_total_cents) d.order_items) kept,
          ));
      units = rw c.ends (
          omega (
            arith,
            c.total,
            sum_by-append (λ (x : OrderItemRow). x.quantity) paid.order_items
                (item_row env input q p.price_cents (p.price_cents * q) ∷ []),
            ap (λ (d : Db). sum_by (λ (x : OrderItemRow). x.quantity) d.order_items) kept,
          ));
    }

-- Where the ids of products and of users are unique, a checkout that goes through has sold an active
-- product with the id that was asked for, at a total of its price times the quantity: it has taken the
-- quantity from that product's stock, the total from that user's balance, and nothing from any other; it
-- has added that user's order with this total, one item for the product, the quantity and the price, and
-- the job of the order's receipt; and it answers with their ids, the total and the stock that is left.
pub checkout_tx-IsSold :
    (env : Env) (input : CheckoutInput) (db db' : Db) (r : CheckoutResult)
    → IsKeyed (λ (p : ProductRow). p.id) db.products
    → IsKeyed (λ (u : UserRow). u.id) db.users
    → checkout_tx env input db ≡ (ok r, db')
    → IsSold input db db' r
unfolding checkout_tx checkout
checkout_tx-IsSold env input db db' r ps us h =
    let h0 = transaction-eq-ok (checkout env input) db h in
    elim (Result-cases (checked input.quantity)) [
      | inr (e, x) ↦ absurd (ground arith)
      | inl (q, asked) ↦
          let h1 : ◌>>=◌ (run env update_products >> decrement_stock input.product_id q)
                (charge env input q) db
              ≡ ok (r, db') =
            ground arith in
          let (p, sold, e1, e2) =
            >>=-eq-ok (run env update_products >> decrement_stock input.product_id q)
              (charge env input q) db h1 in
          let taken : decrement_stock input.product_id q db ≡ ok (p, sold) = ground arith in
          let t = decrement_stock-Taken input.product_id q db sold p ps taken in
          let c = charge-Charged env input q p sold db' r e2 in
          let keyed = subst (λ d. IsKeyed (λ (u : UserRow). u.id) d.users) (sym t.rest) us in
          assemble-IsSold env input q db sold db' p r (checked-eq-ok input.quantity q asked) t c
            (debit_balance-Paid input.user_id r.total_cents sold c.paid keyed c.pays)
    ]
