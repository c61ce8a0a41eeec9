-- ===== src/Orders/Live.antt =====
-- src/orders/orders.controller.ts (the stream of server-sent events), src/orders/orders.gateway.ts and the subject of
-- src/orders/order-events.service.ts: clients that are told of an order's changes as they happen. Of an event, a
-- client is written its id, its order and its status.
pub mod Access
pub mod Steps
pub mod Delivered
pub mod Tests
use nodejs_advanced_homework.Prelude.{
  ℕ, zero, suc, Bool, true, false, not, ◌&&◌, ◌||◌, Option, none, some, List, [], ◌∷◌, ◌++◌, String,
  str_eq, leb, ltb, ◌==◌, if◌then◌else◌, map, filter, any, Result, ok, err,
}
use nodejs_advanced_homework.Auth.Service.{Env, Db, AccessClaims, authenticate}
use nodejs_advanced_homework.Auth.Guard.{bearer_token}
use nodejs_advanced_homework.Orders.Service.{Order, OrderError, unauthorized, require_owner}
use nodejs_advanced_homework.Orders.Events.{OrderStatusEvent, OrderEvents, publish, history_after}

-- An open response, subscribed to the events of one order; `connection` tells responses apart.
pub record Stream : Type 0 where
  pub connection : ℕ
  pub order_id : ℕ
  pub written : List OrderStatusEvent

-- A socket of the gateway, in the room `orders:N` for every N in `rooms`.
pub record Socket : Type 0 where
  pub client : ℕ
  pub rooms : List ℕ
  pub received : List OrderStatusEvent

pub record Hub : Type 0 where
  pub events : OrderEvents
  pub streams : List Stream
  pub sockets : List Socket

-- the subscriber of `stream(orderId)`
abbrev pub deliver : OrderStatusEvent → Stream → Stream
deliver event s = record s {
  written = if event.order_id == s.order_id then s.written ++ event ∷ [] else s.written;
}

-- the subscriber of `streamAll()`: one message to each socket in the room
abbrev pub emit : OrderStatusEvent → Socket → Socket
emit event s = record s {
  received =
      if any (λ room. room == event.order_id) s.rooms then s.received ++ event ∷ [] else s.received;
}

-- `publish`, and what `subject.next` makes its subscribers do
unfoldable pub publish_live : ℕ → String → String → Hub → OrderStatusEvent × Hub
publish_live order_id status now hub =
    let made = publish order_id status now hub.events in
    (
      made.0,
      record {
        events = made.1;
        streams = map (deliver made.0) hub.streams;
        sockets = map (emit made.0) hub.sockets;
      },
    )

-- what is written before the subscription, if there is a `Last-Event-ID`
abbrev pub caught_up : ℕ → Option ℕ → OrderEvents → List OrderStatusEvent
caught_up order_id none events = []
caught_up order_id (some last_event_id) events = history_after order_id last_event_id events

-- There is no `await` between the history and the subscription.
unfoldable pub start_stream : ℕ → ℕ → Option ℕ → Hub → Hub
start_stream connection order_id last_event_id hub =
    let stream : Stream = record {
      connection = connection;
      order_id = order_id;
      written = caught_up order_id last_event_id hub.events;
    } in
    record hub { streams = stream ∷ hub.streams }

-- `onClose`
unfoldable pub close_stream : ℕ → Hub → Hub
close_stream connection hub = record hub {
  streams = filter (λ s. not (s.connection == connection)) hub.streams;
}

pub record SseRequest : Type 0 where
  pub order_id : ℕ
  pub authorization : Option String
  -- `?access_token=`, if it is one text
  pub access_token : Option String
  -- the first `Last-Event-ID`
  pub last_event_id : Option String

abbrev query_token : Option String → Option String
query_token none = none
query_token (some token) = if str_eq token "" then none else some token

unfoldable pub sse_token : SseRequest → Option String
sse_token req = elim (bearer_token req.authorization) [
  | some token ↦ some token
  | none ↦ query_token req.access_token
]

-- `authenticate`, then `requireOwner`
unfoldable pub gate : Env → Option String → Db → ℕ → List Order → Result OrderError Order
gate env token db order_id orders = elim (authenticate env token db) [
  | none ↦ err unauthorized
  | some user ↦ require_owner order_id (some user.sub) orders
]

-- `number` is `Number`, `none` where that is not finite. Ids are whole and positive, so a number stands for
-- the whole number below it, and a negative one for zero.
abbrev pub last_id_of : (String → Option ℕ) → Option String → Option ℕ
last_id_of number none = none
last_id_of number (some header) = if str_eq header "" then none else number header

-- `GET /orders/:orderId/events`: a refusal is answered before anything is written
unfoldable pub order_events_stream :
    (String → Option ℕ) → Env → ℕ → SseRequest → Db → List Order → Hub → Result OrderError Hub
unfolding gate sse_token
order_events_stream number env connection req db orders hub =
    elim (gate env (sse_token req) db req.order_id orders) [
      | err e ↦ err e
      | ok order ↦
          ok (start_stream connection req.order_id (last_id_of number req.last_event_id) hub)
    ]

pub data JoinReply : Type 0 where
  invalid_order : JoinReply
  refused : OrderError → JoinReply
  joined : ℕ → JoinReply

abbrev enter : ℕ → ℕ → Socket → Socket
enter client room s = record s { rooms = if s.client == client then room ∷ s.rooms else s.rooms }

-- `client.join`
unfoldable pub join_room : ℕ → ℕ → Hub → Hub
join_room client room hub = record hub { sockets = map (enter client room) hub.sockets }

abbrev joined_by : ℕ → ℕ → Hub → Result OrderError Order → JoinReply × Hub
joined_by client order_id hub (err e) = (refused e, hub)
joined_by client order_id hub (ok order) = (joined order_id, join_room client order_id hub)

-- `order_id` is what `Number` makes of the body's, where that is a whole number
unfoldable pub handle_join :
    Env → ℕ → Option String → Option ℕ → Db → List Order → Hub → JoinReply × Hub
unfolding gate
handle_join env client token none db orders hub = (invalid_order, hub)
handle_join env client token (some order_id) db orders hub =
    if ltb order_id 1
    then (invalid_order, hub)
    else joined_by client order_id hub (gate env token db order_id orders)
