-- ===== src/Orders/Tables.antt =====
-- src/orders/place-order.ts: the request, the rows that its transaction touches, and its environment.
use nodejs_advanced_homework.Prelude.{Bool, ℕ, Option, String, List}
use nodejs_advanced_homework.Outbox.Relay.{OutboxRow}

pub record OrderLine : Type 0 where
  pub product_id : String
  pub quantity : ℕ

pub record PlaceOrderInput : Type 0 where
  pub user_id : String
  pub items : List OrderLine
  pub shipping_country : Option String
  pub idempotency_key : Option String

pub record ResponseItem : Type 0 where
  pub product_id : ℕ
  pub quantity : ℕ
  pub unit_price_cents : ℕ
  pub line_total_cents : ℕ

pub record OrderResponseBody : Type 0 where
  pub id : ℕ
  pub items : List ResponseItem
  pub total_cents : ℕ
  pub created_at : String

pub record PlaceOrderResult : Type 0 where
  pub status : ℕ
  pub body : OrderResponseBody
  pub replayed : Bool

-- The tables that the transaction touches.
pub record Product : Type 0 where
  pub id : String
  pub price_cents : ℕ
  pub stock : ℕ
  pub is_active : Bool

pub record Order : Type 0 where
  pub id : String
  pub user_id : String
  pub status : String
  pub total_cents : ℕ
  pub shipping_country : String
  pub created_at : ℕ

pub record OrderItem : Type 0 where
  pub order_id : String
  pub product_id : String
  pub quantity : ℕ
  pub unit_price_cents : ℕ
  pub line_total_cents : ℕ

pub record IdempotencyRecord : Type 0 where
  pub idempotency_key : String
  pub order_id : String
  pub request_hash : String
  pub response_status : ℕ
  pub response_body : OrderResponseBody

pub record Db : Type 0 where
  pub products : List Product
  pub orders : List Order
  pub order_items : List OrderItem
  pub idempotency_records : List IdempotencyRecord
  pub outbox : List OutboxRow

-- What `placeOrder` throws.
pub data OrderError : Type 0 where
  product_not_found insufficient_stock : String → OrderError
  key_reused idempotent_replay : OrderError
  thrown : String → OrderError

-- What `hashRequest` serialises.
pub record HashedRequest : Type 0 where
  pub user_id : String
  pub shipping_country : String
  pub items : List (String × ℕ)

pub record Env : Type 0 where
  -- SHA-256 of the JSON of a request
  pub hash : HashedRequest → String
  -- `toISOString`
  pub iso : ℕ → String
  -- the id that the sequence of `orders` gives, and `created_at`
  pub order_id : String
  pub now : ℕ
  -- `randomUUID`
  pub event_id : String
  -- what other clients commit between the first look-up and the transaction
  pub meanwhile : Db → Db
  -- what the hook, a statement after it or COMMIT throws
  pub late_fault : Option String

-- `Number(text)` of a decimal text
