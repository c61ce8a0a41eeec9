-- ===== src/Orders/Events.antt =====
-- src/orders/order-events.service.ts: the last status events of each order, kept for clients that come
-- back. What passes events on live is Orders.Live.
pub mod Tests
pub mod History
use nodejs_advanced_homework.Prelude.{
  ℕ, zero, suc, Bool, List, [], ◌∷◌, ◌++◌, String, ltb, ◌==◌, if◌then◌else◌, filter, length,
}

pub record OrderStatusEvent : Type 0 where
  pub id : ℕ
  pub order_id : ℕ
  pub status : String
  pub at : String

abbrev pub buffer_limit : ℕ
buffer_limit = 100

-- a missing key of the Map holds no event
pub record OrderEvents : Type 0 where
  pub seq : ℕ
  pub buffers : ℕ → List OrderStatusEvent

abbrev pub shift : List OrderStatusEvent → List OrderStatusEvent
shift [] = []
shift (e ∷ es) = es

abbrev pub push : OrderStatusEvent → List OrderStatusEvent → List OrderStatusEvent
push event buf =
    let longer = buf ++ event ∷ [] in
    if ltb buffer_limit (length longer) then shift longer else longer

abbrev pub event_of : ℕ → ℕ → String → String → OrderStatusEvent
event_of seq order_id status now = record {
  id = suc seq;
  order_id = order_id;
  status = status;
  at = now;
}

unfoldable pub publish : ℕ → String → String → OrderEvents → OrderStatusEvent × OrderEvents
publish order_id status now events =
    let event = event_of events.seq order_id status now in
    (
      event,
      record {
        seq = suc events.seq;
        buffers =
            λ k. if k == order_id then push event (events.buffers order_id) else events.buffers k;
      },
    )

unfoldable pub history_after : ℕ → ℕ → OrderEvents → List OrderStatusEvent
history_after order_id last_event_id events =
    filter (λ e. ltb last_event_id e.id) (events.buffers order_id)
