-- ===== src/Orders/Service.antt =====
-- src/orders/orders.service.ts: what a viewer may read and change. `id` is a bigint, and the page's cursor
-- is the number that its text stands for.
pub mod Tests
pub mod Rising
pub mod Pages
pub mod Access
pub mod Reading
use nodejs_advanced_homework.Prelude.{
  ℕ, zero, suc, ◌+◌, Bool, true, false, not, ◌&&◌, ◌||◌, Option, none, some, List, [], ◌∷◌, String,
  str_eq, ltb, leb, ◌==◌, if◌then◌else◌, find?, filter, take, length, update_where, sort_by, map,
  Result, ok, err,
}
use nodejs_advanced_homework.Auth.Service.{Role, buyer, seller, admin, AccessClaims}
use nodejs_advanced_homework.Orders.Events.{OrderEvents, publish}

pub record OrderItem : Type 0 where
  pub product_id : ℕ
  pub quantity : ℕ
  pub unit_price_cents : ℕ
  pub line_total_cents : ℕ

pub record Order : Type 0 where
  pub id : ℕ
  pub user_id : String
  pub status : String
  pub total_cents : ℕ
  pub created_at : String
  pub items : List OrderItem

pub record OrderResponse : Type 0 where
  pub id : ℕ
  pub items : List OrderItem
  pub total_cents : ℕ
  pub created_at : String

pub record OrderPage : Type 0 where
  pub items : List OrderResponse
  pub next_cursor : Option ℕ

pub data OrderError : Type 0 where
  unauthorized forbidden not_found : OrderError
  -- an index past the end of an array
  type_error : OrderError

abbrev pub to_response : Order → OrderResponse
to_response order = record {
  id = order.id;
  items = order.items;
  total_cents = order.total_cents;
  created_at = order.created_at;
}

abbrev pub is_admin : AccessClaims → Bool
is_admin viewer = elim viewer.role [ admin ↦ true | buyer ↦ false | seller ↦ false ]

-- `where.userId = viewer.sub`, unless the viewer is an admin
abbrev pub may_list : AccessClaims → Order → Bool
may_list viewer order = is_admin viewer || str_eq order.user_id viewer.sub

-- `where.id = MoreThan(…)`
abbrev pub is_past : Option ℕ → Order → Bool
is_past none order = true
is_past (some cursor) order = ltb cursor order.id

abbrev pub by_id : List Order → List Order
by_id orders = sort_by (λ a b. leb a.id b.id) orders

abbrev pub last_id : List Order → Option ℕ
last_id [] = none
last_id (order ∷ orders) =
    let rest = last_id orders in elim rest [ none ↦ some order.id | some id ↦ some id ]

-- The page of the rows that the query found.
unfoldable pub page_of : ℕ → List Order → Result OrderError OrderPage
page_of limit found =
    if ltb limit (length found)
    then elim (last_id (take limit found)) [
      | none ↦ err type_error
      | some id ↦ ok (record { items = map to_response (take limit found); next_cursor = some id })
    ]
    else ok (record { items = map to_response found; next_cursor = none })

unfoldable pub find_all_for_viewer :
    AccessClaims → ℕ → Option ℕ → List Order → Result OrderError OrderPage
find_all_for_viewer viewer limit cursor orders = page_of limit (
    take (suc limit)
      (filter (λ order. may_list viewer order && is_past cursor order) (by_id orders)))

unfoldable pub find_entity : ℕ → List Order → Result OrderError Order
find_entity id orders = elim (find? (λ order. order.id == id) orders) [
  | none ↦ err not_found
  | some order ↦ ok order
]

abbrev owned_by : String → Order → Result OrderError Order
owned_by user_id order = if str_eq order.user_id user_id then ok order else err forbidden

-- no user, or the empty text, is unauthorized
unfoldable pub require_owner : ℕ → Option String → List Order → Result OrderError Order
require_owner order_id none orders = err unauthorized
require_owner order_id (some user_id) orders =
    if str_eq user_id ""
    then err unauthorized
    else elim (find_entity order_id orders) [ err e ↦ err e | ok order ↦ owned_by user_id order ]

unfoldable pub find_one_for_viewer : ℕ → AccessClaims → List Order → Result OrderError OrderResponse
find_one_for_viewer id viewer orders = elim (find? (λ order. order.id == id) orders) [
  | none ↦ err not_found
  | some order ↦ if may_list viewer order then ok (to_response order) else err forbidden
]

pub record Shop : Type 0 where
  pub orders : List Order
  pub events : OrderEvents

-- An admin may set any status; the owner may only cancel.
abbrev pub may_set : AccessClaims → String → Order → Bool
may_set viewer status order =
    is_admin viewer || (str_eq order.user_id viewer.sub && str_eq status "cancelled")

abbrev pub set_status : ℕ → String → List Order → List Order
set_status id status orders =
    update_where (λ order. order.id == id) (λ order. record order { status = status }) orders

-- `now` is the time of the event, as a text
unfoldable pub update_status :
    String → ℕ → String → AccessClaims → Shop → Result OrderError OrderResponse × Shop
update_status now id status viewer shop = elim (find_entity id shop.orders) [
  | err e ↦ (err e, shop)
  | ok order ↦
      if may_set viewer status order
      then (
        ok (to_response (record order { status = status })),
        record {
          orders = set_status id status shop.orders;
          events = (publish id status now shop.events).1;
        },
      )
      else (err forbidden, shop)
]
