-- ===== src/Checkout/Ending.antt =====
-- src/checkout/checkout.ts: when a checkout goes through, and what is left when it does not.
use nodejs_advanced_homework.Prelude.{
  ◌-◌, true, ◌*◌, Option-cases, inr, find?, inl, Result-cases, ◌⊎◌, arith, ◌≤◌, ok, err, some, ◌≡◌,
  ℕ,
}
use nodejs_advanced_homework.Checkout.{
  Statement, insert_jobs, can_pay, insert_order_items, insert_orders, UserRow, update_users,
  can_sell, checked, update_products, debit_balance, ProductRow, charge, decrement_stock,
  CheckoutError, checkout, Env, CheckoutInput, CheckoutResult, Db, checkout_tx,
}
use nodejs_advanced_homework.Checkout.Updates.{checked-eq-ok}

-- The request can be served: a quantity of at least one, an active product with as much in stock, a
-- user with as much money, and a database that carries out every statement.
pub record CanCheckout (env : Env) (input : CheckoutInput) (db : Db) : Type 0 where
  pub quantity : ℕ
  pub asked : input.quantity ≡ some quantity
  pub positive : 1 ≤ quantity
  pub product : ProductRow
  pub sellable : find? (can_sell input.product_id quantity) db.products ≡ some product
  pub user : UserRow
  pub payable : find? (can_pay input.user_id (product.price_cents * quantity)) db.users ≡ some user
  pub works : (s : Statement) → env.works s ≡ true

CanCheckout-succeeds :
    (env : Env) (input : CheckoutInput) (db : Db)
    → CanCheckout env input db
    → (r : CheckoutResult) × ((checkout_tx env input db).0 ≡ ok r)
unfolding checkout_tx checkout decrement_stock charge debit_balance
CanCheckout-succeeds env input db c = (
  record {
    order_id = env.order_id;
    job_id = env.job_id;
    total_cents = c.product.price_cents * c.quantity;
    stock_left = c.product.stock - c.quantity;
  },
  ground (
    arith,
    c.asked,
    c.positive,
    c.sellable,
    c.payable,
    c.works update_products,
    c.works update_users,
    c.works insert_orders,
    c.works insert_order_items,
    c.works insert_jobs,
  ),
)

succeeds-CanCheckout :
    (env : Env) (input : CheckoutInput) (db db' : Db) (r : CheckoutResult)
    → checkout env input db ≡ ok (r, db')
    → CanCheckout env input db
unfolding checkout decrement_stock charge debit_balance
succeeds-CanCheckout env input db db' r h = elim (Result-cases (checked input.quantity)) [
  | inr (e, x) ↦ absurd (ground arith)
  | inl (q, asked) ↦ elim (Option-cases (find? (can_sell input.product_id q) db.products)) [
    | inl e ↦ absurd (ground arith)
    | inr (p, sellable) ↦
        elim (Option-cases (find? (can_pay input.user_id (p.price_cents * q)) db.users)) [
          | inl e ↦ absurd (ground arith)
          | inr (u, payable) ↦
              let (is, positive) = checked-eq-ok input.quantity q asked in
              record {
                quantity = q;
                asked = is;
                positive = positive;
                product = p;
                sellable = sellable;
                user = u;
                payable = payable;
                works = λ s. elim s [
                  | update_products ↦ ground arith
                  | update_users ↦ ground arith
                  | insert_orders ↦ ground arith
                  | insert_order_items ↦ ground arith
                  | insert_jobs ↦ ground arith
                ];
              }
        ]
  ]
]

refuted :
    (env : Env) (input : CheckoutInput) (db : Db) (x : CheckoutError) (r : CheckoutResult)
    → checkout env input db ≡ err x
    → (checkout_tx env input db).0 ≡ ok r
    → ⊥
unfolding checkout_tx
refuted env input db x r e k = ground arith

-- A checkout goes through exactly when the request can be served; otherwise it ends in an error, and
-- every table is as it was.
pub checkout_tx-Ended :
    (env : Env) (input : CheckoutInput) (db : Db)
    → (CanCheckout env input db × (r : CheckoutResult) × ((checkout_tx env input db).0 ≡ ok r))
      ⊎ (¬ CanCheckout env input db
          × (e : CheckoutError) × (checkout_tx env input db ≡ (err e, db)))
unfolding checkout_tx
checkout_tx-Ended env input db = elim (Result-cases (checkout env input db)) [
  | inl ((r, db'), e) ↦ inl (succeeds-CanCheckout env input db db' r e, r, ground arith)
  | inr (x, e) ↦ inr (
    (λ c.
        let (r, k) = CanCheckout-succeeds env input db c in absurd (refuted env input db x r e k)),
    x,
    ground arith,
  )
]
