-- ===== src/Orders/Service/Tests.antt =====
-- src/orders/orders.service.ts: a buyer among others' orders.
use nodejs_advanced_homework.Prelude.{
  err, arith, ◌⊎◌, refl, filter, map, Each, ok, some, ◌∷◌, ◌≡◌, [], none, List, String, ℕ,
}
use nodejs_advanced_homework.Orders.Service.{
  OrderError, by_id, may_list, publish, to_response, buyer, OrderResponse, page_of, AccessClaims,
  Order, Shop, find_all_for_viewer, update_status,
}
use nodejs_advanced_homework.Orders.Service.Pages.{read_all, read_all-by_id}
use nodejs_advanced_homework.Orders.Service.Access.{MaySet, IsChanged, update_status-MaySet}

abbrev order : ℕ → String → Order
order id user_id = record {
  id = id;
  user_id = user_id;
  status = "completed";
  total_cents = 600;
  created_at = "t";
  items = [];
}

abbrev three_orders : List Order
three_orders = order 3 "1" ∷ order 1 "1" ∷ order 2 "9" ∷ []

abbrev ann : AccessClaims
ann = record { sub = "1"; role = buyer; jti = "j"; fid = "f"; exp = 9 }

two_of_three :
    read_all ann 1 4 none three_orders
    ≡ some (to_response (order 1 "1") ∷ to_response (order 3 "1") ∷ [])
unfolding read_all find_all_for_viewer page_of
two_of_three = refl

read_all-by_id_example :
    read_all ann 1 4 none three_orders
    ≡ some (map to_response (filter (may_list ann) (by_id three_orders)))
read_all-by_id_example = read_all-by_id ann 1 three_orders (omega arith) (λ id. ground arith)

abbrev shop : Shop
shop = record { orders = three_orders; events = record { seq = 0; buffers = λ k. [] } }

update_status-MaySet_example :
    (MaySet 3 "refunded" ann three_orders
      × (r : OrderResponse) × ((update_status "t" 3 "refunded" ann shop).0 ≡ ok r)
      × Each
          (IsChanged 3 "refunded")
          three_orders
          (update_status "t" 3 "refunded" ann shop).1.orders
      × ((update_status "t" 3 "refunded" ann shop).1.events
          ≡ (publish 3 "refunded" "t" shop.events).1))
    ⊎ (¬ MaySet 3 "refunded" ann three_orders
        × (e : OrderError) × (update_status "t" 3 "refunded" ann shop ≡ (err e, shop)))
update_status-MaySet_example = update_status-MaySet "t" 3 "refunded" ann shop
