-- ===== src/Policies/Merging.antt =====
-- What the merge of the layers leaves of them.
use siam_siam_ecosystem.Time.{Days, whole, nan}
use siam_siam_ecosystem.Common.{refl, arith, ltb}
use siam_siam_ecosystem.Policies.Categories.{new}
use siam_siam_ecosystem.Common.{◌≡◌, Option, some, ℕ, if◌then◌else◌, ◌-◌, false, none}
use siam_siam_ecosystem.Policies.Rules.{
  evaluate, evaluate_by, by_condition, Evaluation, days_of, by_exceptions,
  check_condition_requirements, check_exceptions, window_expired, first_exception,
  calculate_restocking_fee, check_approval_required, condition_failed, not_in_good_condition,
  granted, opened_item, remaining,
}
use siam_siam_ecosystem.Policies.Contexts.{Context, given}
use siam_siam_ecosystem.Policies.Defs.{
  default_policy as initial_default, Engine, Policy, set_category_policy, merge_policies, platform,
  policy_stack,
}

-- the engines that calls of `setCategoryPolicy` can lead to
pub data Reached : Engine → Type 0 where
  start : Reached new
  set : {e : Engine} (name : ℕ) (p : Policy) → Reached e → Reached (set_category_policy name p e)

Reached_default : {e : Engine} → Reached e → e.default_policy ≡ initial_default
unfolding set_category_policy
Reached_default start = refl
Reached_default (set name p r) = Reached_default r

-- the platform's policy, marked as the source
abbrev pub platform_policy : Policy
platform_policy = record initial_default { source = some platform }

pub merge_policies_lem :
    (e : Engine) (pp mp : Option Policy) (k : ℕ)
    → e.default_policy ≡ initial_default
    → merge_policies e (policy_stack pp mp k e) ≡ platform_policy
unfolding merge_policies
merge_policies_lem e none none k h = rw h refl
merge_policies_lem e none (some m) k h = rw h refl
merge_policies_lem e (some p) none k h = rw h refl
merge_policies_lem e (some p) (some m) k h = rw h refl

-- what the platform's policy alone says of a context: the damage, and the days
abbrev pub by_damage : Context → Evaluation
by_damage c =
    if given false c.is_damaged
    then condition_failed platform_policy not_in_good_condition
    else granted platform_policy (record {
      days_since_purchase = days_of c;
      days_remaining = remaining 14 (days_of c);
      restocking_fee =
          (if given false c.is_opened
            then record { percentage = 5; reason = some opened_item }
            else record { percentage = 0; reason = none });
      requires_approval = false;
    })

abbrev pub decision_after : Context → Days → Evaluation
decision_after c (whole days) =
    if ltb 14 days then window_expired platform_policy 14 days (days - 14) else by_damage c
decision_after c nan = by_damage c

abbrev pub platform_decision : Context → Evaluation
platform_decision c = decision_after c (days_of c)

by_platform : (c : Context) → evaluate_by platform_policy c ≡ platform_decision c
unfolding evaluate_by by_condition by_exceptions check_condition_requirements check_exceptions
    first_exception calculate_restocking_fee check_approval_required
by_platform c = ground arith

-- However the categories' policies were set, and whatever the product's and the merchant's policies
-- say, `evaluate` decides by the platform's policy alone: a refund is refused after 14 days, refused
-- to a damaged item, and granted otherwise, also where the days are no number, without approval and with a fee of 5 percent where the
-- item was opened and of 0 where not.
pub evaluate_lem : {e : Engine} → Reached e → (c : Context) → evaluate e c ≡ platform_decision c
unfolding evaluate
evaluate_lem {e} r c =
    rw
      (merge_policies_lem e c.product_policy c.merchant_policy c.product_category
        (Reached_default r))
      (by_platform c)
