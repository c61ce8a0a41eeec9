-- ===== src/Checkout/Updates.antt =====
-- src/checkout/checkout.ts: what each statement of a checkout has done to its table.
use nodejs_advanced_homework.Prelude.{
  Bool, Bool-cases, str_eq_iff, if◌then◌else◌, Has, true, none, ◌∙◌, Option, ap, [], ◌∷◌, ◌++◌,
  refl, ◌*◌, Result-cases, update_where, sum_by-update_where, leb, List, find?-passes, ◌&&◌,
  count-and-le, inr, arith, inl, find?, Option-cases, ok, str_eq, ◌+◌, count, sum_by, ◌≤◌, some,
  String, ◌≡◌, ℕ,
}
use nodejs_advanced_homework.Checkout.{
  checked, job_row, item_row, order_row, pay, sell, can_pay, UserRow, charge, debit_balance,
  can_sell, ProductRow, decrement_stock, Env, CheckoutInput, CheckoutResult, Db,
}

-- What the rows with an id hold.
abbrev pub stock_in : String → List ProductRow → ℕ
stock_in k ps = sum_by (λ p. if str_eq p.id k then p.stock else 0) ps

abbrev pub balance_in : String → List UserRow → ℕ
balance_in k us = sum_by (λ u. if str_eq u.id k then u.balance_cents else 0) us

-- The row of an active product, and what one of it costs.
pub record Sells (input : CheckoutInput) (quantity : ℕ) (ps : List ProductRow) (p : ProductRow)
    : Type 0 where
  pub listed : Has p ps
  pub same_id : p.id ≡ input.product_id
  pub active : p.is_active ≡ true
  pub enough : quantity ≤ p.stock

-- The ids of a table are unique.
abbrev pub IsKeyed : {A : Type 0} → (A → String) → List A → Type 0
IsKeyed id rows = (k : String) → count (λ r. str_eq (id r) k) rows ≤ 1

-- What the UPDATE of the product has done.
pub record Taken (product_id : String) (quantity : ℕ) (db db' : Db) (p : ProductRow) : Type 0 where
  pub stock : sum_by (λ p. p.stock) db'.products + quantity ≡ sum_by (λ p. p.stock) db.products
  pub rest : db' ≡ record db { products = db'.products }
  pub stock_of :
      (k : String)
      → stock_in k db'.products + (if str_eq product_id k then quantity else 0)
        ≡ stock_in k db.products
  pub found : ProductRow
  pub finds : find? (can_sell product_id quantity) db.products ≡ some found
  pub returned : p ≡ sell quantity found

pub decrement_stock-Taken :
    (product_id : String) (quantity : ℕ) (db db' : Db) (p : ProductRow)
    → IsKeyed (λ (r : ProductRow). r.id) db.products
    → decrement_stock product_id quantity db ≡ ok (p, db')
    → Taken product_id quantity db db' p
unfolding decrement_stock
decrement_stock-Taken product_id quantity db db' p u h =
    elim (Option-cases (find? (can_sell product_id quantity) db.products)) [
      | inl e ↦ absurd (ground arith)
      | inr (found, e) ↦
          let after = update_where (can_sell product_id quantity) (sell quantity) db.products in
          let fits = find?-passes (can_sell product_id quantity) db.products found e in
          let one : count (can_sell product_id quantity) db.products ≤ 1 = omega (
            arith,
            u product_id,
            count-and-le (λ (r : ProductRow). str_eq r.id product_id)
                (λ (r : ProductRow). r.is_active && leb quantity r.stock) db.products,
          ) in
          let change = λ (f : ProductRow → ℕ).
            sum_by-update_where f (can_sell product_id quantity) (sell quantity) db.products found
              one e in
          let named = str_eq_iff found.id product_id in
          let is : db' ≡ record db { products = after } = ground arith in
          let all = change (λ p. p.stock) in
          record {
            stock = rw is (ground arith);
            rest = rw is refl;
            stock_of = rw is (λ k.
                let part = change (λ p. if str_eq p.id k then p.stock else 0) in
                ground (arith, named.0));
            found = found;
            finds = e;
            returned = ground arith;
          }
    ]

-- What the UPDATE of the user has done.
pub record Paid (user_id : String) (cents : ℕ) (db db' : Db) : Type 0 where
  pub balance :
      sum_by (λ u. u.balance_cents) db'.users + cents ≡ sum_by (λ u. u.balance_cents) db.users
  pub rest : db' ≡ record db { users = db'.users }
  pub balance_of :
      (k : String)
      → balance_in k db'.users + (if str_eq user_id k then cents else 0) ≡ balance_in k db.users

pub debit_balance-Paid :
    (user_id : String) (cents : ℕ) (db db' : Db)
    → IsKeyed (λ (r : UserRow). r.id) db.users
    → debit_balance user_id cents db ≡ ok (tt, db')
    → Paid user_id cents db db'
unfolding debit_balance
debit_balance-Paid user_id cents db db' u h =
    elim (Option-cases (find? (can_pay user_id cents) db.users)) [
      | inl e ↦ absurd (ground arith)
      | inr (found, e) ↦
          let after = update_where (can_pay user_id cents) (pay cents) db.users in
          let fits = find?-passes (can_pay user_id cents) db.users found e in
          let one : count (can_pay user_id cents) db.users ≤ 1 = omega (
            arith,
            u user_id,
            count-and-le (λ (r : UserRow). str_eq r.id user_id)
                (λ (r : UserRow). leb cents r.balance_cents) db.users,
          ) in
          let change = λ (f : UserRow → ℕ).
            sum_by-update_where f (can_pay user_id cents) (pay cents) db.users found one e in
          let named = str_eq_iff found.id user_id in
          let is : db' ≡ record db { users = after } = ground arith in
          let all = change (λ u. u.balance_cents) in
          record {
            balance = rw is (ground arith);
            rest = rw is refl;
            balance_of = rw is (λ k.
                let part = change (λ u. if str_eq u.id k then u.balance_cents else 0) in
                ground (arith, named.0));
          }
    ]

-- The rows that follow the payment.
unfoldable pub recorded : Env → CheckoutInput → ℕ → ℕ → Db → Db
recorded env input quantity unit paid =
    let cents = unit * quantity in
    record paid {
      orders = paid.orders ++ order_row env input cents ∷ [];
      order_items = paid.order_items ++ item_row env input quantity unit cents ∷ [];
      jobs = paid.jobs ++ job_row env input ∷ [];
    }

pub record Charged (env : Env) (input : CheckoutInput) (quantity : ℕ) (p : ProductRow) (db db' : Db)
    (r : CheckoutResult) : Type 0 where
  pub paid : Db
  pub pays : debit_balance input.user_id r.total_cents db ≡ ok (tt, paid)
  pub total : r.total_cents ≡ p.price_cents * quantity
  pub order_id : r.order_id ≡ env.order_id
  pub job_id : r.job_id ≡ env.job_id
  pub left : r.stock_left ≡ p.stock
  pub ends : db' ≡ recorded env input quantity p.price_cents paid

pub charge-Charged :
    (env : Env) (input : CheckoutInput) (quantity : ℕ) (p : ProductRow) (db db' : Db)
    (r : CheckoutResult)
    → charge env input quantity p db ≡ ok (r, db')
    → Charged env input quantity p db db' r
unfolding charge recorded
charge-Charged env input quantity p db db' r h =
    elim (Result-cases (debit_balance input.user_id (p.price_cents * quantity) db)) [
      | inr (x, e) ↦ absurd (ground arith)
      | inl ((t, paid), e) ↦
          let total : r.total_cents ≡ p.price_cents * quantity = ground arith in
          record {
            paid = paid;
            pays = rw total e;
            total = total;
            order_id = ground arith;
            job_id = ground arith;
            left = ground arith;
            ends = ground arith;
          }
    ]

pub checked-eq-ok : (o : Option ℕ) (q : ℕ) → checked o ≡ ok q → (o ≡ some q) × (1 ≤ q)
checked-eq-ok none q h = cc
checked-eq-ok (some n) q h = ground arith

find?-Has :
    (f : ProductRow → Bool) (ps : List ProductRow) (p : ProductRow) → find? f ps ≡ some p → Has p ps
find?-Has f [] p h = absurd (ground arith)
find?-Has f (q ∷ ps) p h = elim (Bool-cases (f q)) [
  | inl t ↦ inl (ground arith)
  | inr n ↦ inr (find?-Has f ps p (ground arith))
]

pub Taken-Sells :
    (input : CheckoutInput) (q : ℕ) (db sold : Db) (p : ProductRow)
    → (t : Taken input.product_id q db sold p) → Sells input q db.products t.found
Taken-Sells input q db sold p t =
    let fits = find?-passes (can_sell input.product_id q) db.products t.found t.finds in
    record {
      listed = find?-Has (can_sell input.product_id q) db.products t.found t.finds;
      same_id = ground (arith, (str_eq_iff t.found.id input.product_id).0);
      active = ground arith;
      enough = ground arith;
    }

pub kept_of :
    (db sold paid : Db)
    → sold ≡ record db { products = sold.products }
    → paid ≡ record sold { users = paid.users }
    → record paid { products = db.products; users = db.users } ≡ db
kept_of db sold paid s p =
    ap (λ (d : Db). record d { products = db.products; users = db.users }) p
    ∙ ap (λ (d : Db). record d { products = db.products; users = db.users }) s
