-- ===== src/Orders/Events/Tests.antt =====
-- src/orders/order-events.service.ts: three events of two orders.
use nodejs_advanced_homework.Prelude.{arith, ◌≤◌, ◌&&◌, count, ltb, [], ◌∷◌, List}
use nodejs_advanced_homework.Orders.Events.{buffer_limit}
use nodejs_advanced_homework.Orders.Events.History.{is_of, all_events, Published}

abbrev three_events : List Published
three_events =
    (record { order_id = 41; status = "paid"; at = "t1" })
    ∷ (record { order_id = 42; status = "paid"; at = "t2" })
    ∷ (record { order_id = 41; status = "shipped"; at = "t3" })
    ∷ []

few_are_missed : count (λ e. is_of 41 e && ltb 1 e.id) (all_events 0 three_events) ≤ buffer_limit
unfolding all_events
few_are_missed = omega arith
