-- ===== src/Outbox/Event/RoundTrip.antt =====
-- src/outbox/order-placed.event.ts: what the producer writes, the consumer reads back.
use nodejs_advanced_homework.Prelude.{
  Bool, true, false, refl, ap, if◌then◌else◌, ◌↔◌, ℕ, ◌≡◌, ◌≢◌, some, none, String, str_eq_iff,
  arith, Option,
}
use nodejs_advanced_homework.Prelude.Json.{Json, str, num, member, as_string, as_number}
use nodejs_advanced_homework.Outbox.Event.{
  PlacedOrder, to_order_placed_event, event_json, ParsedEvent, parsed, parsed_data, is_order_placed,
  parse_order_placed_event, order_placed,
}

-- A message that the producer wrote for an order, under a non-empty event id, is accepted, and gives
-- back that id and the order's id, user and total.
pub parse-to_order_placed_event :
    (iso : ℕ → String) (event_id : String) (order : PlacedOrder)
    → event_id ≢ ""
    → parse_order_placed_event (some (event_json (to_order_placed_event iso event_id order)))
      ≡ some (record {
        event_id = event_id;
        order_id = order.order_id;
        user_id = order.user_id;
        total_cents = order.total_cents;
      })
unfolding parse_order_placed_event event_json to_order_placed_event
parse-to_order_placed_event iso event_id order h = ground (arith, str_eq_iff event_id "")

as_string-eq-some : (o : Option Json) (s : String) → as_string o ≡ some s → o ≡ some (str s)
as_string-eq-some o s h = ground arith

as_number-eq-some : (o : Option Json) (n : ℕ) → as_number o ≡ some n → o ≡ some (num n)
as_number-eq-some o n h = ground arith

-- A JSON value of the right shape, and the four values that it holds.
pub record IsOrderPlaced (raw : Option Json) (p : ParsedEvent) : Type 0 where
  pub body : Json
  pub content : Json
  pub is_json : raw ≡ some body
  pub type : member "type" body ≡ some (str order_placed)
  pub event_id : member "eventId" body ≡ some (str p.event_id)
  pub has_id : p.event_id ≢ ""
  pub has_content : member "data" body ≡ some content
  pub order_id : member "orderId" content ≡ some (str p.order_id)
  pub user_id : member "userId" content ≡ some (str p.user_id)
  pub total_cents : member "totalCents" content ≡ some (num p.total_cents)

parsed_sound :
    (e o u : Option String) (t : Option ℕ) (p : ParsedEvent)
    → parsed e o u t ≡ some p
    → (e ≡ some p.event_id)
      × (p.event_id ≢ "")
      × (o ≡ some p.order_id)
      × (u ≡ some p.user_id)
      × (t ≡ some p.total_cents)
parsed_sound (some e) (some o) (some u) (some t) p h =
    (ground arith, ground (arith, str_eq_iff e ""), ground arith, ground arith, ground arith)
parsed_sound none o u t p h = cc
parsed_sound _ _ _ _ p h = cc

if_then_none :
    (b : Bool) (o : Option ParsedEvent) {p : ParsedEvent}
    → (if b then o else none) ≡ some p
    → (b ≡ true) × (o ≡ some p)
if_then_none true o h = (refl, h)
if_then_none false o h = cc

parsed_data-eq-some :
    (d : Option Json) (e : Option String) (p : ParsedEvent)
    → parsed_data d e ≡ some p
    → (content : Json) × (d ≡ some content)
      × (parsed e
            (as_string (member "orderId" content))
            (as_string (member "userId" content))
            (as_number (member "totalCents" content))
          ≡ some p)
parsed_data-eq-some none e p h = cc
parsed_data-eq-some (some d) e p h = (d, refl, h)

is_order_placed_sound :
    (t : Option Json) → is_order_placed (as_string t) ≡ true → t ≡ some (str order_placed)
is_order_placed_sound (some (str t)) h = ap (λ s. some (str s)) ((str_eq_iff t order_placed).0 h)
is_order_placed_sound t h = ground arith

parse_sound :
    (raw : Option Json) (p : ParsedEvent)
    → parse_order_placed_event raw ≡ some p
    → IsOrderPlaced raw p
unfolding parse_order_placed_event
parse_sound none p h = cc
parse_sound (some body) p h =
    let (typed, rest) = if_then_none (is_order_placed (as_string (member "type" body))) _ h in
    let (content, has, found) = parsed_data-eq-some (member "data" body) _ p rest in
    let (e, ne, o, u, t) = parsed_sound _ _ _ _ p found in
    record {
      body = body;
      content = content;
      is_json = refl;
      type = is_order_placed_sound (member "type" body) typed;
      event_id = as_string-eq-some _ _ e;
      has_id = ne;
      has_content = has;
      order_id = as_string-eq-some _ _ o;
      user_id = as_string-eq-some _ _ u;
      total_cents = as_number-eq-some _ _ t;
    }

parse_complete :
    (raw : Option Json) (p : ParsedEvent)
    → IsOrderPlaced raw p
    → parse_order_placed_event raw ≡ some p
unfolding parse_order_placed_event
parse_complete raw p a =
    rw (a.is_json, a.type, a.has_content, a.event_id, a.order_id, a.user_id, a.total_cents)
      (ground (arith, str_eq_iff p.event_id ""))

-- The parser accepts a message exactly when it is a JSON value whose `type` is the text
-- `order.placed`, whose `eventId` is a non-empty text, and whose `data` has texts `orderId` and
-- `userId` and a number `totalCents`; it gives back these four.
parse_order_placed_event_iff :
    (raw : Option Json) (p : ParsedEvent)
    → (parse_order_placed_event raw ≡ some p) ↔ IsOrderPlaced raw p
parse_order_placed_event_iff raw p = (parse_sound raw p, parse_complete raw p)
