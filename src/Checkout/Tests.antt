-- ===== src/Checkout/Tests.antt =====
-- src/checkout/checkout.ts: a checkout of two pieces, and one of more than there are.
use nodejs_advanced_homework.Prelude.{refl, ◌⊎◌, ok, err, [], ◌∷◌, none, ◌≡◌, arith, some, true, ℕ}
use nodejs_advanced_homework.Checkout.{
  job_row, CheckoutError, item_row, insufficient_stock, charge, order_row, debit_balance,
  decrement_stock, checkout, CheckoutResult, CheckoutInput, Db, Env, checkout_tx,
}
use nodejs_advanced_homework.Checkout.Conserves.{IsSold, checkout_tx-IsSold}
use nodejs_advanced_homework.Checkout.Ending.{CanCheckout, checkout_tx-Ended}

abbrev works_always : Env
works_always = record { order_id = "41"; job_id = "7"; works = λ s. true }

abbrev ask : ℕ → CheckoutInput
ask quantity = record {
  user_id = "1";
  product_id = "5";
  quantity = some quantity;
  shipping_country = none;
}

abbrev one_product : Db
one_product = record {
  products = (record { id = "5"; price_cents = 300; stock = 3; is_active = true }) ∷ [];
  users = (record { id = "1"; balance_cents = 1000 }) ∷ [];
  orders = [];
  order_items = [];
  jobs = [];
}

abbrev receipt : CheckoutResult
receipt = record { order_id = "41"; job_id = "7"; total_cents = 600; stock_left = 1 }

abbrev one_sold : Db
one_sold = record {
  products = (record { id = "5"; price_cents = 300; stock = 1; is_active = true }) ∷ [];
  users = (record { id = "1"; balance_cents = 400 }) ∷ [];
  orders = order_row works_always (ask 2) 600 ∷ [];
  order_items = item_row works_always (ask 2) 2 300 600 ∷ [];
  jobs = job_row works_always (ask 2) ∷ [];
}

two_are_sold : checkout_tx works_always (ask 2) one_product ≡ (ok receipt, one_sold)
unfolding checkout_tx checkout decrement_stock debit_balance charge
two_are_sold = refl

four_are_refused :
    checkout_tx works_always (ask 4) one_product ≡ (err insufficient_stock, one_product)
unfolding checkout_tx checkout decrement_stock
four_are_refused = refl

checkout_tx-IsSold_example : IsSold (ask 2) one_product one_sold receipt
checkout_tx-IsSold_example =
    checkout_tx-IsSold works_always (ask 2) one_product one_sold receipt (λ k. ground arith)
      (λ k. ground arith) two_are_sold

checkout_tx-Ended_example :
    (CanCheckout works_always (ask 4) one_product
      × (r : CheckoutResult) × ((checkout_tx works_always (ask 4) one_product).0 ≡ ok r))
    ⊎ (¬ CanCheckout works_always (ask 4) one_product
        × (e : CheckoutError) × (checkout_tx works_always (ask 4) one_product
            ≡ (err e, one_product)))
checkout_tx-Ended_example = checkout_tx-Ended works_always (ask 4) one_product
