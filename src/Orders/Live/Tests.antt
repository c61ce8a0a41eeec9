-- ===== src/Orders/Live/Tests.antt =====
-- src/orders/: a stream that comes back, and a socket that joins.
use nodejs_advanced_homework.Prelude.{
  ◌≢◌, err, ◌⊎◌, ◌≡◌, ◌↔◌, refl, arith, ℕ, ◌≤◌, true, none, some, List, [], ◌∷◌, ok, String,
}
use nodejs_advanced_homework.Auth.Service.{Env, Db, AccessClaims, buyer}
use nodejs_advanced_homework.Orders.Service.{OrderError, Order}
use nodejs_advanced_homework.Orders.Events.History.{all_events}
use nodejs_advanced_homework.Orders.Live.{
  Hub, SseRequest, sse_token, order_events_stream, handle_join, joined, start_stream,
}
use nodejs_advanced_homework.Orders.Live.Access.{IsOpened, IsEntered, IsOwners, streamed-IsOwners}
use nodejs_advanced_homework.Orders.Live.Steps.{
  Act, published, streamed, closed, acts, new_hub, stream_of, published_in,
}
use nodejs_advanced_homework.Orders.Live.Delivered.{Buffered, asked, start_stream-asked}

abbrev session : AccessClaims
session = record { sub = "1"; role = buyer; jti = "j1"; fid = "f1"; exp = 650 }

abbrev env : Env
env = record {
  now = 200;
  hash = λ s. s;
  verify_password = λ given hash. true;
  refresh_token = "r";
  jti = "j2";
  family_id = "f2";
  sign = λ claims. "signed";
  verify = λ token. some session;
  swept = λ key. true;
  commits = true;
}

abbrev nothing : Db
nothing = record { users = []; refresh_tokens = []; access_denylist = []; revoked_families = [] }

abbrev order : ℕ → String → Order
order id user_id = record {
  id = id;
  user_id = user_id;
  status = "pending";
  total_cents = 600;
  created_at = "t";
  items = [];
}

abbrev request : SseRequest
request = record {
  order_id = 41;
  authorization = none;
  access_token = some "abc";
  last_event_id = some "1";
}

abbrev orders : List Order
orders = order 41 "1" ∷ order 42 "9" ∷ []

abbrev one_socket : Hub
one_socket = record new_hub { sockets = (record { client = 7; rooms = []; received = [] }) ∷ [] }

streamed-IsOwners_example :
    (((hub' : Hub) × (order_events_stream (λ s. some 1) env 7 request nothing orders one_socket
          ≡ ok hub'))
      ↔ IsOwners env (sse_token request) nothing 41 orders)
    × (((e : OrderError) × (order_events_stream
              (λ s. some 1)
              env
              7
              request
              nothing
              orders
              one_socket
            ≡ err e))
        ⊎ ((hub' : Hub) × (order_events_stream (λ s. some 1) env 7 request nothing orders one_socket
              ≡ ok hub')
            × IsOpened 7 41 (some 1) one_socket hub'))
    × (((handle_join env 7 (some "abc") (some 41) nothing orders one_socket).0 ≡ joined 41)
        ↔ ((1 ≤ 41) × IsOwners env (some "abc") nothing 41 orders))
    × ((((handle_join env 7 (some "abc") (some 41) nothing orders one_socket).0 ≡ joined 41)
          × IsEntered 7 41 one_socket
              (handle_join env 7 (some "abc") (some 41) nothing orders one_socket).1)
        ⊎ (((handle_join env 7 (some "abc") (some 41) nothing orders one_socket).0 ≢ joined 41)
            × ((handle_join env 7 (some "abc") (some 41) nothing orders one_socket).1
                ≡ one_socket)))
streamed-IsOwners_example =
    streamed-IsOwners (λ s. some 1) env 7 request (some "abc") 41 nothing orders one_socket

abbrev before : List Act
before =
    published (record { order_id = 41; status = "paid"; at = "t1" })
    ∷ streamed 6 41 none
    ∷ published (record { order_id = 42; status = "paid"; at = "t2" })
    ∷ published (record { order_id = 41; status = "packed"; at = "t3" })
    ∷ []

abbrev after : List Act
after =
    closed 6
    ∷ published (record { order_id = 41; status = "shipped"; at = "t4" })
    ∷ published (record { order_id = 42; status = "shipped"; at = "t5" })
    ∷ []

-- the event that was missed, and the one that followed
two_are_written :
    asked 41 (some 1) (published_in before) (published_in after)
    ≡ record { id = 3; order_id = 41; status = "packed"; at = "t3" }
      ∷ record { id = 4; order_id = 41; status = "shipped"; at = "t4" }
      ∷ []
unfolding all_events
two_are_written = refl

are-Buffered : Buffered 41 (some 1) (published_in before)
unfolding all_events
are-Buffered = (omega arith, omega arith)

start_stream-asked_example :
    stream_of 7 (acts after (start_stream 7 41 (some 1) (acts before new_hub))).streams
    ≡ some (record {
      connection = 7;
      order_id = 41;
      written = asked 41 (some 1) (published_in before) (published_in after);
    })
start_stream-asked_example =
    start_stream-asked 7 41 (some 1) before after are-Buffered (refl, (tt, (tt, tt)))
