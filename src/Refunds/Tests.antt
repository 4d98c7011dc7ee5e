-- ===== src/Refunds/Tests.antt =====
-- The eligibility check with the engine, at a concrete order.
use siam_siam_ecosystem.Time.{at, missing}
use siam_siam_ecosystem.Eligibility.Defs.{Order, Item, day}
use siam_siam_ecosystem.Refunds.Granting.{ask, IsRefundable, check_with_engine_lem}
use siam_siam_ecosystem.Policies.Categories.{new}
use siam_siam_ecosystem.Policies.Merging.{start}
use siam_siam_ecosystem.Router.Table as Table
use siam_siam_ecosystem.Router.Defs.{Transaction, Routed, route, routed, manual, payment_method_of}
use siam_siam_ecosystem.Refunds.Paying.{allowed_methods, route_by_policy}
use siam_siam_ecosystem.Eligibility.Defs as Checker
use siam_siam_ecosystem.Policies.Defs.{Policy as Layer, no_policy}
use siam_siam_ecosystem.Common.{ℕ, true, some, Option, none, false, ◌*◌, ◌≡◌, ◌↔◌, ◌⊎◌, ◌≢◌}

abbrev item : Item
item = record {
  id = 4;
  name = 5;
  product_name = 0;
  refund_status = Checker.no_refund;
  category = 6;
  product_category = 0;
  refund_policy = 1;
  condition = 0;
  is_opened = true;
  has_original_packaging = none;
  has_tags = none;
  is_damaged = false;
  is_digital = true;
  price = 5000;
}

abbrev order : Order
order = record {
  status = some Checker.delivered;
  user_id = 9;
  gift_recipient_id = 0;
  allow_recipient_refund = false;
  delivered_at = at 1;
  completed_at = missing;
  shipped_at = missing;
  created_at = missing;
  merchant_policy = 0;
  type = 0;
  currency = 0;
}

-- every policy that is given excludes refunds
abbrev final : ℕ → Option Layer
final n = some (record no_policy { return_window = some 0 })

check_with_engine_lem_example :
    (Checker.is_eligible
        (Checker.check (ask final (λ r. 0) (λ r. 0) new) (13 * day) 9 1 0 (some item) order)
      ≡ true)
    ↔ IsRefundable (13 * day) 9 0 item order
check_with_engine_lem_example =
    check_with_engine_lem start final (λ r. 0) (λ r. 0) (13 * day) 9 1 0 item order

abbrev payment : Transaction
payment = record {
  id = 3;
  method = Table.ecocash;
  payment_method = 0;
  amount = 100;
  is_international = false;
  processor = 0;
  gateway_ref = 0;
  reference = 0;
}

route_by_policy_example :
    ((payment_method_of payment ≡ Table.card) ⊎ (payment_method_of payment ≡ Table.cash_on_delivery)
      → (x : Routed) × ((route (some payment) allowed_methods Table.wallet Table.new).0 ≡ routed x)
        × (x.route.method ≡ Table.store_credit))
    × (payment_method_of payment ≢ Table.card
        → payment_method_of payment ≢ Table.cash_on_delivery
        → (route (some payment) allowed_methods Table.wallet Table.new).0 ≡ manual)
route_by_policy_example = route_by_policy payment Table.wallet
