-- ===== src/Refunds/Granting.antt =====
-- `RefundEligibilityChecker.check` with `RefundPolicyEngine.evaluate` in place of its parameter.
use siam_siam_ecosystem.Time.{Days, InTime, whole, nan}
use siam_siam_ecosystem.Eligibility.Defs as Checker
use siam_siam_ecosystem.Eligibility.Conditions.{
  check_lem, IsPast, days_between, AllowsRefund, MayAsk,
}
use siam_siam_ecosystem.Eligibility.Defs.{
  Question, Policy, Item, Order, question, no_refund, get_reference_date, max_refund_attempts, day,
}
use siam_siam_ecosystem.Policies.Defs.{Policy as Layer, Engine}
use siam_siam_ecosystem.Policies.Rules.{Evaluation, is_eligible as is_granted, evaluate, days_of}
use siam_siam_ecosystem.Policies.Contexts.{Context, given}
use siam_siam_ecosystem.Policies.Merging.{Reached, evaluate_lem, decision_after}
use siam_siam_ecosystem.Common.{
  arith, ◌↔◌, ℕ, ◌≡◌, ◌<◌, Option, true, some, none, false, ap, sym, ◌∙◌,
}

-- the context that the checker passes to the engine, with the policies that its numbers stand for
abbrev pub context_of : (ℕ → Option Layer) → Question → Context
context_of layer q = record {
  item_id = 0;
  product_category = q.product_category;
  product_sub_category = 0;
  days_since_purchase = some q.days_since_purchase;
  merchant_policy = layer q.merchant_policy;
  product_policy = layer q.product_policy;
  order_type = q.order_type;
  is_opened = some q.is_opened;
  has_original_packaging = some q.has_original_packaging;
  has_tags = some q.has_tags;
  is_damaged = some q.is_damaged;
  purchase_price = some q.price;
  is_downloaded = none;
  delivery_issue = 0;
  matches_specification = none;
  damage_type = 0;
  service_rendered = none;
  satisfaction = 0;
  subscription_type = 0;
  authorized = none;
  allergic_reaction = none;
  license_activated = none;
  compatibility_issue = none;
  event_cancelled = none;
  event_rescheduled = none;
  is_assembled = none;
}

-- the engine as the checker sees it: what it keeps of an evaluation besides the decision are numbers
abbrev pub ask :
    (ℕ → Option Layer) → (condition terms : Evaluation → ℕ) → Engine → Question → Policy
ask layer condition terms e q =
    let r = evaluate e (context_of layer q) in
    record { eligible = is_granted r; condition = condition r; terms = terms r }

granted_after :
    (c : Context) (days : Days)
    → (is_granted (decision_after c days) ≡ true)
      ↔ (InTime 14 days × (given false c.is_damaged ≡ false))
granted_after c nan = ((λ h. (tt, ground arith)), (λ h. ground (arith, h.1)))
granted_after c (whole days) =
    ((λ h. (ground arith, ground arith)), (λ h. ground (arith, h.0, h.1)))

-- When the shop refunds an item: the checker's own conditions, no more than 14 days, and no damage.
pub record IsRefundable (now user previous_refunds : ℕ) (i : Item) (o : Order) : Type 0 where
  pub none_yet : i.refund_status ≡ no_refund
  pub attempts : previous_refunds < max_refund_attempts
  pub allowed : AllowsRefund o.status
  pub past : IsPast now (get_reference_date o)
  pub asked : MayAsk user o
  pub in_time : InTime 14 (days_between now (get_reference_date o))
  pub undamaged : i.is_damaged ≡ false

-- The check of an item with the package's engine, however its category policies were set: an item is
-- found eligible exactly when it has no refund that is complete or in progress, fewer than three
-- refunds were tried, the order's status and date and the user are as the checker wants them, no more
-- than 14 whole days have passed since the date or it is a date that cannot be read, and the item is
-- not damaged. Neither the item's category nor the
-- policies of the product and of the merchant make a difference.
pub check_with_engine_lem :
    {e : Engine}
    → Reached e
    → (layer : ℕ → Option Layer) (condition terms : Evaluation → ℕ)
    → (now user merchant_policy previous_refunds : ℕ) (i : Item) (o : Order)
    → (Checker.is_eligible (
          Checker.check
            (ask layer condition terms e)
            now
            user
            merchant_policy
            previous_refunds
            (some i)
            o)
        ≡ true)
      ↔ IsRefundable now user previous_refunds i o
check_with_engine_lem {e} r layer condition terms now user merchant_policy previous_refunds i o =
    let asked_engine = ask layer condition terms e in
    let days = days_between now (get_reference_date o) in
    let context = context_of layer (question i o merchant_policy days) in
    let decides = ap is_granted (evaluate_lem r context) in
    let (to_rule, of_rule) = granted_after context (days_of context) in
    let (to_refundable, of_refundable) =
      check_lem asked_engine now user merchant_policy previous_refunds i o in
    (
      λ h.
          let f = to_refundable h in
          let rule = to_rule (sym decides ∙ f.granted) in
          record {
            none_yet = f.none_yet;
            attempts = f.attempts;
            allowed = f.allowed;
            past = f.past;
            asked = f.asked;
            in_time = rule.0;
            undamaged = rule.1;
          },
      λ h. of_refundable (record {
        none_yet = h.none_yet;
        attempts = h.attempts;
        allowed = h.allowed;
        past = h.past;
        asked = h.asked;
        granted = decides ∙ of_rule (h.in_time, h.undamaged);
      }),
    )
