-- ===== src/Outbox/Event.antt =====
-- src/outbox/order-placed.event.ts: the public event of a placed order and its parser.
pub mod RoundTrip
use nodejs_advanced_homework.Prelude.{
  ℕ, Bool, true, false, Option, none, some, List, [], ◌∷◌, String, str_eq, if◌then◌else◌, map, ◌||◌,
  not, is_some,
}
use nodejs_advanced_homework.Prelude.Json.{
  Json, null, bool, num, str, arr, obj, Items, nil, cons, end, field, member, as_string, as_number,
}

abbrev pub order_aggregate : String
order_aggregate = "order"

abbrev pub order_placed : String
order_placed = "order.placed"

pub record PlacedLine : Type 0 where
  pub product_id : String
  pub quantity : ℕ
  pub unit_price_cents : ℕ
  pub line_total_cents : ℕ

pub record PlacedOrder : Type 0 where
  pub order_id : String
  pub user_id : String
  pub total_cents : ℕ
  pub shipping_country : String
  pub created_at : ℕ
  pub items : List PlacedLine

pub record EventItem : Type 0 where
  pub product_id : String
  pub quantity : ℕ
  pub unit_price_cents : ℕ

pub record EventData : Type 0 where
  pub order_id : String
  pub user_id : String
  pub total_cents : ℕ
  pub shipping_country : String
  pub items : List EventItem

pub record OrderPlacedEvent : Type 0 where
  pub event_id : String
  pub type : String
  pub version : ℕ
  pub occurred_at : String
  pub body : EventData

abbrev pub to_event_item : PlacedLine → EventItem
to_event_item i = record {
  product_id = i.product_id;
  quantity = i.quantity;
  unit_price_cents = i.unit_price_cents;
}

-- `iso` is `Date.prototype.toISOString`.
module _ (iso : ℕ → String) where
  unfoldable pub to_order_placed_event : String → PlacedOrder → OrderPlacedEvent
  to_order_placed_event event_id order = record {
    event_id = event_id;
    type = order_placed;
    version = 1;
    occurred_at = iso order.created_at;
    body = record {
      order_id = order.order_id;
      user_id = order.user_id;
      total_cents = order.total_cents;
      shipping_country = order.shipping_country;
      items = map to_event_item order.items;
    };
  }

-- `JSON.stringify` of an event, as the value that `JSON.parse` gives back.
abbrev item_json : EventItem → Json
item_json i = obj (
    field "productId" (str i.product_id)
      (field "quantity" (num i.quantity) (field "unitPriceCents" (num i.unit_price_cents) end)))

abbrev items_json : List EventItem → Items
items_json [] = nil
items_json (i ∷ is) = cons (item_json i) (items_json is)

abbrev data_json : EventData → Json
data_json d = obj (
    field "orderId" (str d.order_id) (
      field "userId" (str d.user_id) (
        field "totalCents" (num d.total_cents) (
          field "shippingCountry" (str d.shipping_country)
            (field "items" (arr (items_json d.items)) end)))))

unfoldable pub event_json : OrderPlacedEvent → Json
event_json e = obj (
    field "eventId" (str e.event_id) (
      field "type" (str e.type) (
        field "version" (num e.version)
          (field "occurredAt" (str e.occurred_at) (field "data" (data_json e.body) end)))))

-- What the parser has checked of the value that it hands on; the consumer reads no other field.
pub record ParsedEvent : Type 0 where
  pub event_id : String
  pub order_id : String
  pub user_id : String
  pub total_cents : ℕ

abbrev parsed : Option String → Option String → Option String → Option ℕ → Option ParsedEvent
parsed (some e) (some o) (some u) (some t) =
    if str_eq e ""
    then none
    else some (record { event_id = e; order_id = o; user_id = u; total_cents = t })
parsed _ _ _ _ = none

abbrev is_order_placed : Option String → Bool
is_order_placed none = false
is_order_placed (some t) = str_eq t order_placed

abbrev parsed_data : Option Json → Option String → Option ParsedEvent
parsed_data none e = none
parsed_data (some d) e =
    parsed e (as_string (member "orderId" d)) (as_string (member "userId" d))
      (as_number (member "totalCents" d))

-- `none` as the argument is a message that is not JSON.
unfoldable pub parse_order_placed_event : Option Json → Option ParsedEvent
parse_order_placed_event none = none
parse_order_placed_event (some body) =
    if is_order_placed (as_string (member "type" body))
    then parsed_data (member "data" body) (as_string (member "eventId" body))
    else none
