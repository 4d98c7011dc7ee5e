-- ===== src/Eligibility/Tests.antt =====
-- Runs of the eligibility checker, and its theorems at a concrete order.
use siam_siam_ecosystem.Eligibility.Conditions.{IsRefundable, MayAsk, check_lem, quick_check_lem}
use siam_siam_ecosystem.Time.{exceeds, missing, at, no_date}
use siam_siam_ecosystem.Common.{◌≡◌, some, true, false, not, ◌∷◌, none, [], ◌↔◌, ◌<◌, refl}
use siam_siam_ecosystem.Eligibility.Defs.{
  check, Summary, quick_check, Item, is_eligible, Question, Order, Policy, check_order_status, day,
  no_refund, check_batch, delivered, check_dates, get_reference_date, days_since,
  check_user_authorization, by_policy, max_refund_attempts, unauthorized, check_date,
}

-- a policy of 30 days
abbrev thirty_days : Question → Policy
thirty_days q = record {
  eligible = not (exceeds 30 q.days_since_purchase);
  condition = 0;
  terms = 0;
}

abbrev item : Item
item = record {
  id = 5;
  name = 6;
  product_name = 0;
  refund_status = no_refund;
  category = 1;
  product_category = 0;
  refund_policy = 0;
  condition = 0;
  is_opened = false;
  has_original_packaging = none;
  has_tags = none;
  is_damaged = false;
  is_digital = false;
  price = 300;
}

abbrev order : Order
order = record {
  status = some delivered;
  user_id = 9;
  gift_recipient_id = 0;
  allow_recipient_refund = false;
  delivered_at = at 1;
  completed_at = missing;
  shipped_at = missing;
  created_at = missing;
  merchant_policy = 0;
  type = 0;
  currency = 0;
}

-- another user may not ask, and the quick check does not look at the user
another_user : check thirty_days day 8 0 0 (some item) order ≡ unauthorized
unfolding check check_order_status check_dates check_date get_reference_date days_since
    check_user_authorization
another_user = refl

quick_all_the_same : quick_check thirty_days day item order ≡ true
unfolding quick_check check check_order_status check_dates check_date get_reference_date days_since
    by_policy check_user_authorization
quick_all_the_same = refl

-- a date that cannot be read is never too long ago
not_a_date :
    is_eligible (check thirty_days day 9 0 0 (some item) (record order { delivered_at = no_date }))
    ≡ true
unfolding check check_order_status check_dates check_date get_reference_date days_since by_policy
    check_user_authorization
not_a_date = refl

check_lem_example :
    (is_eligible (check thirty_days day 9 0 2 (some item) order) ≡ true)
    ↔ IsRefundable thirty_days day 9 0 2 item order
check_lem_example = check_lem thirty_days day 9 0 2 item order

quick_check_lem_example :
    (is_eligible (check thirty_days day 9 0 2 (some item) order) ≡ true)
    ↔ ((quick_check thirty_days day item order ≡ true) × MayAsk 9 order × (2 < max_refund_attempts))
quick_check_lem_example = quick_check_lem thirty_days day 9 2 item order

abbrev checked : Summary
checked = (check_batch thirty_days day (item ∷ (item ∷ [])) order).1
