-- ===== src/Checkout.antt =====
-- src/checkout/checkout.ts, src/checkout/errors.ts: an order for one product, in one transaction of the
-- caller: stock, balance, order with its item, and the job that is left for the workers. The ids that
-- the sequences give and the statement that fails, if any, are the environment.
pub mod Tests
pub mod Updates
pub mod Conserves
pub mod Ending
use nodejs_advanced_homework.Prelude.{
  ℕ, ◌-◌, ◌*◌, Bool, true, false, ◌&&◌, Option, none, some, List, [], ◌∷◌, ◌++◌, String, str_eq,
  leb, if◌then◌else◌, find?, update_where, Result, ok, err, Tx, ◌>>=◌, ◌>>◌, pure, guard, modify,
  transaction, or_else,
}

pub record CheckoutInput : Type 0 where
  pub user_id : String
  pub product_id : String
  -- none is a number that is not a natural one: negative, fractional or not finite
  pub quantity : Option ℕ
  pub shipping_country : Option String

pub record CheckoutResult : Type 0 where
  pub order_id : String
  pub job_id : String
  pub total_cents : ℕ
  pub stock_left : ℕ

pub data Statement : Type 0 where
  update_products update_users insert_orders insert_order_items insert_jobs : Statement

pub data CheckoutError : Type 0 where
  invalid_quantity insufficient_stock insufficient_funds : CheckoutError
  database : Statement → CheckoutError

pub record ProductRow : Type 0 where
  pub id : String
  pub price_cents : ℕ
  pub stock : ℕ
  pub is_active : Bool

pub record UserRow : Type 0 where
  pub id : String
  pub balance_cents : ℕ

pub record OrderRow : Type 0 where
  pub id : String
  pub user_id : String
  pub status : String
  pub total_cents : ℕ
  pub shipping_country : String

pub record OrderItemRow : Type 0 where
  pub order_id : String
  pub product_id : String
  pub quantity : ℕ
  pub unit_price_cents : ℕ
  pub line_total_cents : ℕ

pub record JobRow : Type 0 where
  pub id : String
  pub type : String
  -- `{ orderId, userId }`
  pub payload : String × String
  pub status : String
  pub order_id : String

pub record Db : Type 0 where
  pub products : List ProductRow
  pub users : List UserRow
  pub orders : List OrderRow
  pub order_items : List OrderItemRow
  pub jobs : List JobRow

pub record Env : Type 0 where
  pub order_id : String
  pub job_id : String
  -- the statement reaches the database and is carried out
  pub works : Statement → Bool

-- `await manager.query`
abbrev pub run : Env → Statement → Tx Db CheckoutError (Unit {0})
run env s = guard (env.works s) (database s)

-- `Number.isInteger(quantity) && quantity >= 1`
abbrev pub checked : Option ℕ → Result CheckoutError ℕ
checked none = err invalid_quantity
checked (some n) = if leb 1 n then ok n else err invalid_quantity

abbrev pub can_sell : String → ℕ → ProductRow → Bool
can_sell product_id quantity p = str_eq p.id product_id && (p.is_active && leb quantity p.stock)

abbrev pub sell : ℕ → ProductRow → ProductRow
sell quantity p = record p { stock = p.stock - quantity }

-- `UPDATE products … RETURNING id, price_cents, stock`
unfoldable pub decrement_stock : String → ℕ → Tx Db CheckoutError ProductRow
decrement_stock product_id quantity db = elim (find? (can_sell product_id quantity) db.products) [
  | none ↦ err insufficient_stock
  | some p ↦ ok (
    sell quantity p,
    record db {
      products = update_where (can_sell product_id quantity) (sell quantity) db.products;
    },
  )
]

abbrev pub can_pay : String → ℕ → UserRow → Bool
can_pay user_id cents u = str_eq u.id user_id && leb cents u.balance_cents

abbrev pub pay : ℕ → UserRow → UserRow
pay cents u = record u { balance_cents = u.balance_cents - cents }

-- `UPDATE users … RETURNING id`
unfoldable pub debit_balance : String → ℕ → Tx Db CheckoutError (Unit {0})
debit_balance user_id cents db = elim (find? (can_pay user_id cents) db.users) [
  | none ↦ err insufficient_funds
  | some u ↦
      ok (tt, record db { users = update_where (can_pay user_id cents) (pay cents) db.users })
]

abbrev pub order_row : Env → CheckoutInput → ℕ → OrderRow
order_row env input cents = record {
  id = env.order_id;
  user_id = input.user_id;
  status = "completed";
  total_cents = cents;
  shipping_country = or_else input.shipping_country "US";
}

abbrev pub insert_order : Env → CheckoutInput → ℕ → Tx Db CheckoutError (Unit {0})
insert_order env input cents =
    modify (λ db. record db { orders = db.orders ++ order_row env input cents ∷ [] })

abbrev pub item_row : Env → CheckoutInput → ℕ → ℕ → ℕ → OrderItemRow
item_row env input quantity unit cents = record {
  order_id = env.order_id;
  product_id = input.product_id;
  quantity = quantity;
  unit_price_cents = unit;
  line_total_cents = cents;
}

abbrev pub insert_order_item : Env → CheckoutInput → ℕ → ℕ → ℕ → Tx Db CheckoutError (Unit {0})
insert_order_item env input quantity unit cents = modify (λ db. record db {
  order_items = db.order_items ++ item_row env input quantity unit cents ∷ [];
})

abbrev pub job_row : Env → CheckoutInput → JobRow
job_row env input = record {
  id = env.job_id;
  type = "send_receipt";
  payload = (env.order_id, input.user_id);
  status = "pending";
  order_id = env.order_id;
}

abbrev pub insert_job : Env → CheckoutInput → Tx Db CheckoutError (Unit {0})
insert_job env input = modify (λ db. record db { jobs = db.jobs ++ job_row env input ∷ [] })

-- What follows the UPDATE of the product.
unfoldable pub charge : Env → CheckoutInput → ℕ → ProductRow → Tx Db CheckoutError CheckoutResult
charge env input quantity p =
    let cents = p.price_cents * quantity in
    run env update_users
    >> debit_balance input.user_id cents
    >> run env insert_orders
    >> insert_order env input cents
    >> run env insert_order_items
    >> insert_order_item env input quantity p.price_cents cents
    >> run env insert_jobs
    >> insert_job env input
    >> pure (record {
      order_id = env.order_id;
      job_id = env.job_id;
      total_cents = cents;
      stock_left = p.stock;
    })

unfoldable pub checkout : Env → CheckoutInput → Tx Db CheckoutError CheckoutResult
checkout env input db = elim (checked input.quantity) [
  | err e ↦ err e
  | ok quantity ↦
      ((run env update_products >> decrement_stock input.product_id quantity)
          >>= charge env input quantity)
        db
]

-- `ds.transaction((manager) => checkout(manager, input))`
unfoldable pub checkout_tx : Env → CheckoutInput → Db → Result CheckoutError CheckoutResult × Db
checkout_tx env input = transaction (checkout env input)
