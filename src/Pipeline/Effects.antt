-- ===== src/Pipeline/Effects.antt =====
-- src/outbox/consumer.ts: a mark in the inbox stands for a confirmed order.
use nodejs_advanced_homework.Prelude.{
  ◌≡◌, arith, true, List, [], ◌∷◌, String, some, ◌≤◌, inl, inr, ◌⊎◌, Option-cases, All, any, sum_by,
  str_eq, str_eq_iff, if◌then◌else◌,
}
use nodejs_advanced_homework.Outbox.Event.{ParsedEvent, parse_order_placed_event}
use nodejs_advanced_homework.Outbox.Consumer.{
  Db, Env, Delivery, ConsumerStats, Confirmation, is_marked, is_effected, insert_mark,
  insert_confirmation, handle, consume,
}
use nodejs_advanced_homework.Outbox.Consumer.Inbox.{
  Outcomes, applied_db, handle-once, handle-none-db, effects,
}

is_marked-applied_db-cases :
    (event : ParsedEvent) (db : Db) (id : String)
    → is_marked id (applied_db event db) ≡ true
    → (event.event_id ≡ id) ⊎ (is_marked id db ≡ true)
unfolding is_marked insert_mark insert_confirmation
is_marked-applied_db-cases event db id h = ground (arith, str_eq_iff event.event_id id)

is_effected-grows :
    (event : ParsedEvent) (db : Db) (order_id : String)
    → is_effected order_id db ≡ true
    → is_effected order_id (applied_db event db) ≡ true
unfolding is_effected insert_mark insert_confirmation
is_effected-grows event db order_id h = ground arith

is_effected_self :
    (event : ParsedEvent) (db : Db) → is_effected event.order_id (applied_db event db) ≡ true
unfolding is_effected insert_mark insert_confirmation
is_effected_self event db = ground (arith, str_eq_iff event.order_id event.order_id)

pub is_effected-effects :
    (order_id : String) (db : Db) → is_effected order_id db ≡ true → 1 ≤ effects order_id db
unfolding is_effected
is_effected-effects order_id db h = counted db.order_confirmations h
  where
    counted :
        (cs : List Confirmation)
        → any (λ c. str_eq c.order_id order_id) cs ≡ true
        → 1 ≤ sum_by (λ c. if str_eq c.order_id order_id then 1 else 0) cs
    counted [] h = cc
    counted (c ∷ cs) h = ground (arith, counted cs)

-- Every event is of one order.
module _ (order_of : String → String) where
  abbrev pub IsOf : Env × Delivery → Type 0
  IsOf d =
      (event : ParsedEvent)
      → parse_order_placed_event d.1.content ≡ some event
      → order_of event.event_id ≡ event.order_id

  -- The order of every marked event is confirmed.
  abbrev pub IsMatched : Db → Type 0
  IsMatched db = (id : String) → is_marked id db ≡ true → is_effected (order_of id) db ≡ true

  Outcomes-IsMatched :
      (event : ParsedEvent) (db db' : Db)
      → order_of event.event_id ≡ event.order_id
      → Outcomes event db db'
      → IsMatched db
      → IsMatched db'
  Outcomes-IsMatched event db db' same (inl e) m = rw e m
  Outcomes-IsMatched event db db' same (inr (fresh, e)) m = rw e λ id marked.
      elim (is_marked-applied_db-cases event db id marked) [
        | inl mine ↦ rw (← mine, same) (is_effected_self event db)
        | inr before ↦ is_effected-grows event db (order_of id) (m id before)
      ]

  pub handle-IsMatched :
      (env : Env) (d : Delivery) (db : Db) (stats : ConsumerStats)
      → IsOf (env, d)
      → IsMatched db
      → IsMatched (handle env d db stats).db
  handle-IsMatched env d db stats of m = elim (Option-cases (parse_order_placed_event d.content)) [
    | inl n ↦ rw (handle-none-db env d db stats n) m
    | inr (event, p) ↦
        Outcomes-IsMatched event db _ (of event p) (handle-once env d db stats event p) m
  ]

  pub consume-IsMatched :
      (ds : List (Env × Delivery)) (db : Db) (stats : ConsumerStats)
      → All IsOf ds
      → IsMatched db
      → IsMatched (consume ds db stats).0
  unfolding consume
  consume-IsMatched [] db stats all m = m
  consume-IsMatched ((env, d) ∷ ds) db stats (of, all) m =
      consume-IsMatched ds (handle env d db stats).db (handle env d db stats).stats all
        (handle-IsMatched env d db stats of m)
