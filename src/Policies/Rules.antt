-- ===== src/Policies/Rules.antt =====
-- The rules of `RefundPolicyEngine.evaluate`: the condition of the item, exceptions, the restocking fee,
-- approval, and the evaluation itself. Days, percentages and amounts are whole numbers.
use siam_siam_ecosystem.Time.{Days, whole, nan}
use siam_siam_ecosystem.Policies.Contexts.{
  Context, is_true, given, sale, underwear_category, is_false, spoiled, wrong_item_text,
  material_defect, unsatisfactory_text, annual,
}
use siam_siam_ecosystem.Policies.Names.{get_non_refundable_reason}
use Prim.Native.String.{String}
use siam_siam_ecosystem.Policies.Defs.{
  Policy, Engine, ExceptionType, Condition, merge_policies, Exception, policy_stack,
}
use siam_siam_ecosystem.Common.{
  List, false, Bool, Option, ℕ, true, some, if◌then◌else◌, ltb, [], not, none, truthy, ◌==◌, ◌-◌,
  ◌&&◌, ◌||◌, max, ◌∷◌,
}

-- why a condition is met or not
pub data Finding : Type 0 where
  non_refundable_category defective_qualifies must_be_unopened packaging_required : Finding
  product_must_be_unopened damaged_not_returned tags_required seal_must_be_intact : Finding
  damaged_not_unused not_in_good_condition manual_review requirement_met met : Finding

pub record Details : Type 0 where
  pub is_opened : Bool
  pub has_original_packaging : Bool
  pub has_tags : Bool
  pub is_damaged : Bool

-- `_checkConditionRequirements`: whether the condition is met, and why
unfoldable pub check_condition_requirements : Option Condition → Details → Bool × Finding
check_condition_requirements none d = (true, requirement_met)
check_condition_requirements (some condition) d = elim condition [
  | Condition.non_refundable ↦ (false, non_refundable_category)
  | Condition.unopened_or_defective ↦
      if d.is_damaged
      then (true, defective_qualifies)
      else if d.is_opened
      then (false, must_be_unopened)
      else if not d.has_original_packaging
      then (false, packaging_required)
      else (true, met)
  | Condition.unopened ↦ if d.is_opened then (false, product_must_be_unopened) else (true, met)
  | Condition.unworn_with_tags ↦
      if d.is_damaged
      then (false, damaged_not_returned)
      else if not d.has_tags
      then (false, tags_required)
      else (true, met)
  | Condition.sealed ↦ if d.is_opened then (false, seal_must_be_intact) else (true, met)
  | Condition.unused ↦ if d.is_damaged then (false, damaged_not_unused) else (true, met)
  | Condition.good_condition ↦ if d.is_damaged then (false, not_in_good_condition) else (true, met)
  | Condition.case_by_case ↦ (true, manual_review)
  | Condition.prorated ↦ (true, met)
  | Condition.other _ ↦ (true, requirement_met)
]

-- `_exceptionMatches`
unfoldable pub exception_matches : ExceptionType → Context → Bool
exception_matches type c = elim type [
  | ExceptionType.defective ↦ is_true c.is_damaged
  | ExceptionType.sale_item ↦ c.order_type == sale
  | ExceptionType.underwear ↦
      (c.product_category == underwear_category) || (c.product_sub_category == underwear_category)
  | ExceptionType.not_downloaded ↦ is_false c.is_downloaded
  | ExceptionType.spoiled_on_delivery ↦ c.delivery_issue == spoiled
  | ExceptionType.wrong_item ↦ c.delivery_issue == wrong_item_text
  | ExceptionType.not_as_specified ↦ is_false c.matches_specification
  | ExceptionType.defective_materials ↦ is_true c.is_damaged && (c.damage_type == material_defect)
  | ExceptionType.not_rendered ↦ is_false c.service_rendered
  | ExceptionType.unsatisfactory ↦ c.satisfaction == unsatisfactory_text
  | ExceptionType.annual_prepaid ↦ c.subscription_type == annual
  | ExceptionType.unauthorized_purchase ↦ is_false c.authorized
  | ExceptionType.allergic_reaction ↦ is_true c.allergic_reaction
  | ExceptionType.opened ↦ is_true c.is_opened
  | ExceptionType.license_not_activated ↦ is_false c.license_activated
  | ExceptionType.compatibility_issue ↦ is_true c.compatibility_issue
  | ExceptionType.event_cancelled ↦ is_true c.event_cancelled
  | ExceptionType.event_rescheduled ↦ is_true c.event_rescheduled
  | ExceptionType.assembled ↦ is_true c.is_assembled
  | ExceptionType.other _ ↦ false
]

-- the loop of `_checkExceptions`: the first exception that matches
unfoldable pub first_exception : List Exception → Context → Option Exception
first_exception [] c = none
first_exception (x ∷ xs) c = if exception_matches x.type c then some x else first_exception xs c

-- `_checkExceptions`
unfoldable pub check_exceptions : Policy → Context → Option Exception
check_exceptions p c = elim p.exceptions [ none ↦ none | some xs ↦ first_exception xs c ]

pub data FeeReason : Type 0 where
  opened_item missing_packaging : FeeReason

pub record Fee : Type 0 where
  pub percentage : ℕ
  pub reason : Option FeeReason

-- `_calculateRestockingFee`
unfoldable pub calculate_restocking_fee : Policy → Context → Fee
calculate_restocking_fee p c =
    let base : ℕ = elim p.restocking_fee [ none ↦ 0 | some n ↦ n ] in
    let first : Fee =
      (if is_true c.is_opened && (base == 0)
        then record { percentage = 5; reason = some opened_item }
        else record { percentage = base; reason = none }) in
    if not (is_true c.has_original_packaging) && is_true p.requires_original_packaging
    then record { percentage = max first.percentage 10; reason = some missing_packaging }
    else first

-- `_checkApprovalRequired`
unfoldable pub check_approval_required : Policy → Option ℕ → Bool
check_approval_required p price =
    if is_true p.requires_approval
    then elim p.approval_threshold [
      | none ↦ true
      | some none ↦ true
      | some (some threshold) ↦ elim price [
        | none ↦ true
        | some amount ↦ if truthy threshold then ltb threshold amount else true
      ]
    ]
    else false

-- what a granted refund comes with
pub record Terms : Type 0 where
  pub days_since_purchase : Days
  pub days_remaining : Option ℕ
  pub restocking_fee : Fee
  pub requires_approval : Bool

pub data Evaluation : Type 0 where
  not_refundable : Policy → (reason : String × Option String) → Days → Evaluation
  window_expired : Policy → (window days days_over : ℕ) → Evaluation
  condition_failed : Policy → Finding → Evaluation
  exception_applied : Policy → Exception → Evaluation
  granted : Policy → Terms → Evaluation

-- the field `eligible` of the answer
abbrev pub is_eligible : Evaluation → Bool
is_eligible (exception_applied p x) = x.override
is_eligible (granted p t) = true
is_eligible _ = false

abbrev pub details : Context → Details
details c = record {
  is_opened = given false c.is_opened;
  has_original_packaging = given true c.has_original_packaging;
  has_tags = given true c.has_tags;
  is_damaged = given false c.is_damaged;
}

abbrev pub days_of : Context → Days
days_of c = elim c.days_since_purchase [ none ↦ whole 0 | some days ↦ days ]

-- `returnWindow - daysSincePurchase` where the window is not over; `NaN` is `none`
abbrev pub remaining : ℕ → Days → Option ℕ
remaining w (whole n) = some (w - n)
remaining w nan = none

-- `returnWindow === 0` or `condition === 'non_refundable'`
abbrev pub is_non_refundable : Policy → Bool
is_non_refundable p = elim p.return_window [ none ↦ false | some w ↦ w == 0 ] || elim p.condition [
  | none ↦ false
  | some c ↦ elim c [ Condition.non_refundable ↦ true | _ ↦ false ]
]

-- `evaluate` from the check for exceptions on
unfoldable pub by_exceptions : Policy → Context → Evaluation
by_exceptions p c = elim (check_exceptions p c) [
  | some x ↦ exception_applied p x
  | none ↦ granted p (record {
    days_since_purchase = days_of c;
    days_remaining = elim p.return_window [ none ↦ none | some w ↦ remaining w (days_of c) ];
    restocking_fee = calculate_restocking_fee p c;
    requires_approval = check_approval_required p c.purchase_price;
  })
]

-- `evaluate` from the check of the condition on
unfoldable pub by_condition : Policy → Context → Evaluation
by_condition p c =
    let checked = check_condition_requirements p.condition (details c) in
    if not checked.0 then condition_failed p checked.1 else by_exceptions p c

-- `evaluate` by the merged policy; a number is not above `undefined`, nor `NaN`
-- above a number
unfoldable pub evaluate_by : Policy → Context → Evaluation
evaluate_by p c =
    if is_non_refundable p
    then not_refundable p (get_non_refundable_reason c.product_category p) (days_of c)
    else elim p.return_window [
      | none ↦ by_condition p c
      | some w ↦ elim (days_of c) [
        | nan ↦ by_condition p c
        | whole days ↦ if ltb w days then window_expired p w days (days - w) else by_condition p c
      ]
    ]

-- `evaluate`
unfoldable pub evaluate : Engine → Context → Evaluation
evaluate e c =
    evaluate_by
      (merge_policies e (policy_stack c.product_policy c.merchant_policy c.product_category e)) c
