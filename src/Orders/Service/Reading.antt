-- ===== src/Orders/Service/Reading.antt =====
-- src/orders/orders.service.ts: who may read one order.
use nodejs_advanced_homework.Prelude.{
  true, ◌∙◌, sym, false, str_eq, refl, none, ◌==◌, str_eq_iff, find?, arith, ◌↔◌, ◌≢◌, ok, some,
  ◌≡◌, List, String, Option, ℕ,
}
use nodejs_advanced_homework.Orders.Service.{find_entity, Order, require_owner}

-- The order that a user with an id of one character at least has placed.
pub record IsOwned (id : ℕ) (user : Option String) (orders : List Order) (order : Order)
    : Type 0 where
  pub user_id : String
  pub known : user ≡ some user_id
  pub named : user_id ≢ ""
  pub found : find? (λ (o : Order). o.id == id) orders ≡ some order
  pub owned : order.user_id ≡ user_id

-- The owner gate lets an order through exactly where there is a user, with a non-empty id, and the order
-- exists and is that user's.
pub require_owner-IsOwned_iff :
    (id : ℕ) (user : Option String) (orders : List Order) (order : Order)
    → (require_owner id user orders ≡ ok order) ↔ IsOwned id user orders order
unfolding require_owner find_entity
require_owner-IsOwned_iff id none orders order =
    (λ h. absurd (ground arith), λ i. absurd (ground (arith, i.known)))
require_owner-IsOwned_iff id (some u) orders order = (
  λ h. record {
    user_id = u;
    known = refl;
    named = λ e. absurd (ground (arith, (str_eq_iff u "").1 e));
    found = ground (arith, str_eq_iff u "");
    owned = ground (arith, str_eq_iff order.user_id u);
  },
  λ i.
      let same : u ≡ i.user_id = ground (arith, i.known) in
      let named : str_eq u "" ≡ false =
        ground (arith, (str_eq_iff u "").0, λ (e : u ≡ ""). i.named (sym same ∙ e)) in
      let owned : str_eq order.user_id u ≡ true =
        (str_eq_iff order.user_id u).1 (i.owned ∙ sym same) in
      ground (arith, i.found, named, owned),
)
