-- ===== src/Orders/Live/Access.antt =====
-- src/orders/: only the owner of an order is told of it.
use nodejs_advanced_homework.Prelude.{
  ◌≢◌, err, any, ◌==◌, ◌&&◌, ◌||◌, Each, Each-map, subst, sym, ◌∷◌, ◌⊎◌, ◌≡◌, ◌↔◌, refl, arith, ℕ,
  ◌≤◌, List, Option, some, String, ok, ltb, Option-cases, Result-cases, Bool-cases, inl, inr,
}
use nodejs_advanced_homework.Auth.Service.{Env, Db, AccessClaims, authenticate}
use nodejs_advanced_homework.Orders.Service.{Order, require_owner}
use nodejs_advanced_homework.Orders.Service.Reading.{IsOwned, require_owner-IsOwned_iff}
use nodejs_advanced_homework.Orders.Live.{
  OrderError, Socket, caught_up, last_id_of, start_stream, join_room, Hub, SseRequest, sse_token,
  gate, order_events_stream, handle_join, joined,
}

-- The token authenticates as a user who owns the order.
pub record IsOwners (env : Env) (token : Option String) (db : Db) (id : ℕ) (orders : List Order)
    : Type 0 where
  pub user : AccessClaims
  pub known : authenticate env token db ≡ some user
  pub order : Order
  pub owned : IsOwned id (some user.sub) orders order

gate-IsOwners :
    (env : Env) (token : Option String) (db : Db) (id : ℕ) (orders : List Order)
    → ((o : Order) × (gate env token db id orders ≡ ok o)) ↔ IsOwners env token db id orders
unfolding gate
gate-IsOwners env token db id orders = (
  λ (o, h). elim (Option-cases (authenticate env token db)) [
    | inl n ↦ absurd (ground arith)
    | inr (user, e) ↦
        let passed : require_owner id (some user.sub) orders ≡ ok o = ground arith in
        record {
          user = user;
          known = e;
          order = o;
          owned = (require_owner-IsOwned_iff id (some user.sub) orders o).0 passed;
        }
  ],
  λ i. (
    i.order,
    let passed = (require_owner-IsOwned_iff id (some i.user.sub) orders i.order).1 i.owned in
        ground (arith, i.known),
  ),
)

-- One stream more, for the order, with what is written before it listens.
pub record IsOpened (connection order_id : ℕ) (last : Option ℕ) (hub hub' : Hub) : Type 0 where
  pub streams :
      hub'.streams
      ≡ record {
        connection = connection;
        order_id = order_id;
        written = caught_up order_id last hub.events;
      }
        ∷ hub.streams
  pub sockets : hub'.sockets ≡ hub.sockets
  pub events : hub'.events ≡ hub.events

-- The client's socket is in one room more; nothing else changes.
pub record IsIn (client room : ℕ) (s s' : Socket) : Type 0 where
  pub same : s'.client ≡ s.client
  pub received : s'.received ≡ s.received
  pub rooms :
      (k : ℕ)
      → any (λ r. r == k) s'.rooms ≡ (s.client == client && room == k || any (λ r. r == k) s.rooms)

pub record IsEntered (client room : ℕ) (hub hub' : Hub) : Type 0 where
  pub sockets : Each (IsIn client room) hub.sockets hub'.sockets
  pub streams : hub'.streams ≡ hub.streams
  pub events : hub'.events ≡ hub.events

start_stream-IsOpened :
    (connection order_id : ℕ) (last : Option ℕ) (hub : Hub)
    → IsOpened connection order_id last hub (start_stream connection order_id last hub)
unfolding start_stream
start_stream-IsOpened connection order_id last hub = record {
  streams = refl;
  sockets = refl;
  events = refl;
}

join_room-IsEntered :
    (client room : ℕ) (hub : Hub) → IsEntered client room hub (join_room client room hub)
unfolding join_room
join_room-IsEntered client room hub = record {
  sockets =
      Each-map (IsIn client room) _ hub.sockets
        (λ s. record { same = refl; received = refl; rooms = λ k. ground arith });
  streams = refl;
  events = refl;
}

-- A stream is opened exactly where the token of the request, from its header or its query, authenticates as
-- a user who owns the order, and then it is a stream of that order and nothing else changes. A socket is
-- let in under exactly the same condition on its own token, for ids from 1 on, and then it is the client's
-- socket that enters that order's room and no other; whoever is refused changes nothing.
pub streamed-IsOwners :
    (number : String → Option ℕ) (env : Env) (connection : ℕ) (req : SseRequest)
    (token : Option String) (id : ℕ) (db : Db) (orders : List Order) (hub : Hub)
    → (((hub' : Hub) × (order_events_stream number env connection req db orders hub ≡ ok hub'))
        ↔ IsOwners env (sse_token req) db req.order_id orders)
      × (((e : OrderError) × (order_events_stream number env connection req db orders hub ≡ err e))
          ⊎ ((hub' : Hub) × (order_events_stream number env connection req db orders hub ≡ ok hub')
              × IsOpened connection req.order_id (last_id_of number req.last_event_id) hub hub'))
      × (((handle_join env connection token (some id) db orders hub).0 ≡ joined id)
          ↔ ((1 ≤ id) × IsOwners env token db id orders))
      × ((((handle_join env connection token (some id) db orders hub).0 ≡ joined id)
            × IsEntered connection id hub
                (handle_join env connection token (some id) db orders hub).1)
          ⊎ (((handle_join env connection token (some id) db orders hub).0 ≢ joined id)
              × ((handle_join env connection token (some id) db orders hub).1 ≡ hub)))
unfolding order_events_stream handle_join
streamed-IsOwners number env connection req token id db orders hub =
    let mine = gate-IsOwners env (sse_token req) db req.order_id orders in
    let theirs = gate-IsOwners env token db id orders in
    let last = last_id_of number req.last_event_id in
    (
      (
        (λ (hub', h). elim (Result-cases (gate env (sse_token req) db req.order_id orders)) [
          | inl (o, e) ↦ mine.0 (o, e)
          | inr (x, e) ↦ absurd (ground arith)
        ]),
        (λ i. let (o, e) = mine.1 i in rw (e, order_events_stream) (_, refl)),
      ),
      elim (Result-cases (gate env (sse_token req) db req.order_id orders)) [
        | inl (o, e) ↦ inr (
          start_stream connection req.order_id last hub,
          ground arith,
          start_stream-IsOpened connection req.order_id last hub,
        )
        | inr (x, e) ↦ inl (x, ground arith)
      ],
      (
        (λ h. elim (Bool-cases (ltb id 1)) [
          | inl t ↦ absurd (ground arith)
          | inr f ↦ elim (Result-cases (gate env token db id orders)) [
            | inl (o, e) ↦ (ground arith, theirs.0 (o, e))
            | inr (x, e) ↦ absurd (ground arith)
          ]
        ]),
        (λ (l, i). let (o, e) = theirs.1 i in ground arith),
      ),
      elim (Bool-cases (ltb id 1)) [
        | inl t ↦ inr ((λ h. ground arith), ground arith)
        | inr f ↦ elim (Result-cases (gate env token db id orders)) [
          | inl (o, e) ↦
              let is : (handle_join env connection token (some id) db orders hub).1
                  ≡ join_room connection id hub =
                ground arith in
              inl (
                ground arith,
                subst (IsEntered connection id hub) (sym is)
                    (join_room-IsEntered connection id hub),
              )
          | inr (x, e) ↦ inr ((λ h. ground arith), ground arith)
        ]
      ],
    )
