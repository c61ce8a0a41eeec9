-- ===== src/Orders/Service/Access.antt =====
-- src/orders/orders.service.ts: who may read and change an order.
use nodejs_advanced_homework.Prelude.{
  sym, subst, refl, [], inr, Option-cases, str_eq_iff, inl, err, arith, Bool-cases, if◌then◌else◌,
  ◌∷◌, some, ◌↔◌, ok, true, ◌==◌, ◌⊎◌, find?, ◌≡◌, Each, List, ◌≢◌, String, ℕ,
}
use nodejs_advanced_homework.Orders.Service.{
  forbidden, to_response, not_found, OrderError, admin, publish, set_status, OrderResponse, may_set,
  find_entity, AccessClaims, Order, Shop, update_status,
}

-- The viewer may set the status of the order with that id.
pub record MaySet (id : ℕ) (status : String) (viewer : AccessClaims) (orders : List Order)
    : Type 0 where
  pub order : Order
  pub found : find? (λ (o : Order). o.id == id) orders ≡ some order
  pub allowed : (viewer.role ≡ admin) ⊎ ((order.user_id ≡ viewer.sub) × (status ≡ "cancelled"))

-- Orders that only the change of one status tells apart.
abbrev pub IsChanged : ℕ → String → Order → Order → Type 0
IsChanged id status o o' =
    ((o.id ≢ id) × (o' ≡ o)) ⊎ ((o.id ≡ id) × (o' ≡ record o { status = status }))

set_status-Each :
    (id : ℕ) (status : String) (orders : List Order)
    → Each (IsChanged id status) orders (set_status id status orders)
set_status-Each id status [] = tt
set_status-Each id status (o ∷ os) = (change-IsChanged o, set_status-Each id status os)
  where
    change-IsChanged :
        (o : Order) → IsChanged id status o (if o.id == id then record o { status = status } else o)
    change-IsChanged o = elim (Bool-cases (o.id == id)) [
      | inl t ↦ rw t (inr (ground arith, refl))
      | inr f ↦ rw f (inl ((λ e. ground arith), refl))
    ]

may_set-allowed :
    (viewer : AccessClaims) (status : String) (order : Order)
    → (may_set viewer status order ≡ true)
      ↔ ((viewer.role ≡ admin) ⊎ ((order.user_id ≡ viewer.sub) × (status ≡ "cancelled")))
may_set-allowed viewer status order =
    ground (arith, str_eq_iff order.user_id viewer.sub, str_eq_iff status "cancelled")

-- A change of status goes through exactly where the order exists and the viewer is an admin, or its owner
-- who cancels it. Then that order alone has the new status, and the event is published; otherwise the
-- answer is an error, and orders and events are as they were.
pub update_status-MaySet :
    (now : String) (id : ℕ) (status : String) (viewer : AccessClaims) (shop : Shop)
    → (MaySet id status viewer shop.orders
        × (r : OrderResponse) × ((update_status now id status viewer shop).0 ≡ ok r)
        × Each (IsChanged id status) shop.orders (update_status now id status viewer shop).1.orders
        × ((update_status now id status viewer shop).1.events
            ≡ (publish id status now shop.events).1))
      ⊎ (¬ MaySet id status viewer shop.orders
          × (e : OrderError) × (update_status now id status viewer shop ≡ (err e, shop)))
unfolding update_status find_entity
update_status-MaySet now id status viewer shop =
    elim (Option-cases (find? (λ (o : Order). o.id == id) shop.orders)) [
      | inl n ↦ inr ((λ m. absurd (ground (arith, m.found))), not_found, ground arith)
      | inr (o, f) ↦ elim (Bool-cases (may_set viewer status o)) [
        | inl y ↦ inl (
          record { order = o; found = f; allowed = (may_set-allowed viewer status o).0 y },
          to_response (record o { status = status }),
          ground arith,
          subst (Each (IsChanged id status) shop.orders) (ground arith)
              (set_status-Each id status shop.orders),
          ground arith,
        )
        | inr n ↦ inr (
          (λ m.
              let same : o ≡ m.order = ground (arith, m.found) in
              absurd (
                ground (
                  arith,
                  (may_set-allowed viewer status o).1 (
                      subst
                        (λ (x : Order).
                          (viewer.role ≡ admin)
                          ⊎ ((x.user_id ≡ viewer.sub) × (status ≡ "cancelled")))
                        (sym same) m.allowed),
                ))),
          forbidden,
          ground arith,
        )
      ]
    ]
