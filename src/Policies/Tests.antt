-- ===== src/Policies/Tests.antt =====
-- Runs of the policy engine, and its theorems at concrete inputs.
use siam_siam_ecosystem.Time.{whole}
use siam_siam_ecosystem.Policies.Checks.{IsRefundable, evaluate_by_iff}
use siam_siam_ecosystem.Policies.Merging.{platform_decision, evaluate_lem, set, start}
use siam_siam_ecosystem.Policies.Services.{default_items_policy}
use siam_siam_ecosystem.Policies.Names.{
  get_non_refundable_reason, digital_products, furniture, get_category_display_name,
}
use siam_siam_ecosystem.Policies.Categories.{new}
use siam_siam_ecosystem.Policies.Goods.{furniture_policy, electronics_policy}
use siam_siam_ecosystem.Policies.Rules.{
  evaluate, evaluate_by, is_eligible, by_condition, window_expired, by_exceptions, not_refundable,
  check_condition_requirements, check_exceptions, first_exception,
}
use siam_siam_ecosystem.Policies.Contexts.{Context}
use siam_siam_ecosystem.Policies.Defs.{
  Condition, Policy, Engine, get_category_policy, no_policy, set_category_policy, merge_policies,
}
use siam_siam_ecosystem.Common.{refl, ◌≡◌, true, some, none, ◌↔◌}

-- a product that its own policy and its category exclude from refunds
abbrev final_sale : Policy
final_sale = record no_policy { return_window = some 0; condition = some Condition.non_refundable }

abbrev download : Context
download = record {
  item_id = 7;
  product_category = digital_products;
  product_sub_category = 0;
  days_since_purchase = some (whole 10);
  merchant_policy = none;
  product_policy = some final_sale;
  order_type = 1;
  is_opened = some true;
  has_original_packaging = none;
  has_tags = none;
  is_damaged = none;
  purchase_price = some 5000;
  is_downloaded = some true;
  delivery_issue = 0;
  matches_specification = none;
  damage_type = 0;
  service_rendered = none;
  satisfaction = 0;
  subscription_type = 0;
  authorized = none;
  allergic_reaction = none;
  license_activated = none;
  compatibility_issue = none;
  event_cancelled = none;
  event_rescheduled = none;
  is_assembled = none;
}

abbrev all_final : Engine
all_final = set_category_policy digital_products final_sale new

-- it is refunded all the same
refunded : is_eligible (evaluate all_final download) ≡ true
unfolding evaluate evaluate_by by_condition by_exceptions merge_policies
    check_condition_requirements check_exceptions first_exception set_category_policy
    get_category_policy
refunded = refl

evaluate_lem_example : evaluate all_final download ≡ platform_decision download
evaluate_lem_example = evaluate_lem (set digital_products final_sale start) download

-- by its own policy it is not
by_its_policy :
    evaluate_by final_sale download
    ≡ not_refundable final_sale ("Digital Products", none) (whole 10)
unfolding evaluate_by get_non_refundable_reason get_category_display_name
by_its_policy = refl

-- a defective item of furniture, after 20 days: its exception would allow 30
abbrev broken_chair : Context
broken_chair = record download {
  product_category = furniture;
  days_since_purchase = some (whole 20);
  is_damaged = some true;
}

exception_too_late :
    evaluate_by furniture_policy broken_chair ≡ window_expired furniture_policy 7 20 13
unfolding evaluate_by
exception_too_late = refl

evaluate_by_iff_example :
    (is_eligible (evaluate_by electronics_policy broken_chair) ≡ true)
    ↔ IsRefundable electronics_policy broken_chair
evaluate_by_iff_example = evaluate_by_iff electronics_policy broken_chair

-- a category's policy is what was set over what was there
set_then_get : (get_category_policy digital_products all_final).return_window ≡ some 0
unfolding get_category_policy set_category_policy
set_then_get = refl

unknown_category : get_category_policy 99 new ≡ default_items_policy
unfolding get_category_policy
unknown_category = refl
