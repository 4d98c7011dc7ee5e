-- ===== src/Policies/Defs.antt =====
-- `class RefundPolicyEngine`: policies, their built-in values and how the layers are merged. A policy
-- is an object that may leave attributes out, so each attribute is optional. A category is a number.
use siam_siam_ecosystem.Dict.{Dict, lookup, insert}
use Prim.Native.Nat.{ℕ}
use siam_siam_ecosystem.Common.{
  ℕ, List, none, Bool, some, Option, ◌∷◌, false, [], if◌then◌else◌, true, truthy,
}
use Prim.Native.String.{String, ◌∷◌, []}

pub data Condition : Type 0 where
  non_refundable unopened_or_defective unopened unworn_with_tags : Condition
  sealed unused good_condition case_by_case prorated : Condition
  other : ℕ → Condition

pub data ExceptionType : Type 0 where
  defective sale_item underwear not_downloaded spoiled_on_delivery wrong_item : ExceptionType
  not_as_specified defective_materials not_rendered unsatisfactory annual_prepaid : ExceptionType
  unauthorized_purchase allergic_reaction opened license_not_activated : ExceptionType
  compatibility_issue event_cancelled event_rescheduled assembled : ExceptionType
  other : ℕ → ExceptionType

pub record Exception : Type 0 where
  pub type : ExceptionType
  pub override : Bool
  pub return_window : Option ℕ
  pub restocking_fee : Option ℕ
  pub reason : String

pub data Source : Type 0 where
  product merchant category platform : Source

-- `approval_threshold` is `some none` where the code has `null`
pub record Policy : Type 0 where
  pub return_window : Option ℕ
  pub condition : Option Condition
  pub restocking_fee : Option ℕ
  pub requires_original_packaging : Option Bool
  pub allowed_refund_methods : Option (List String)
  pub partial_refunds_allowed : Option Bool
  pub max_partial_refunds : Option ℕ
  pub requires_approval : Option Bool
  pub approval_threshold : Option (Option ℕ)
  pub exceptions : Option (List Exception)
  pub description : Option String
  pub source : Option Source

-- an attribute of `{...older, ...newer}`
abbrev pub over {ℓ} : {A : Type ℓ} → Option A → Option A → Option A
over older none = older
over older (some v) = some v

-- `{...older, ...newer}`
abbrev pub spread : Policy → Policy → Policy
spread p q = record {
  return_window = over p.return_window q.return_window;
  condition = over p.condition q.condition;
  restocking_fee = over p.restocking_fee q.restocking_fee;
  requires_original_packaging = over p.requires_original_packaging q.requires_original_packaging;
  allowed_refund_methods = over p.allowed_refund_methods q.allowed_refund_methods;
  partial_refunds_allowed = over p.partial_refunds_allowed q.partial_refunds_allowed;
  max_partial_refunds = over p.max_partial_refunds q.max_partial_refunds;
  requires_approval = over p.requires_approval q.requires_approval;
  approval_threshold = over p.approval_threshold q.approval_threshold;
  exceptions = over p.exceptions q.exceptions;
  description = over p.description q.description;
  source = over p.source q.source;
}

abbrev pub no_policy : Policy
no_policy = record {
  return_window = none;
  condition = none;
  restocking_fee = none;
  requires_original_packaging = none;
  allowed_refund_methods = none;
  partial_refunds_allowed = none;
  max_partial_refunds = none;
  requires_approval = none;
  approval_threshold = none;
  exceptions = none;
  description = none;
  source = none;
}

-- the platform's policy
abbrev pub default_policy : Policy
default_policy = record {
  return_window = some 14;
  condition = some good_condition;
  restocking_fee = some 0;
  requires_original_packaging = some false;
  allowed_refund_methods = some ("original_payment" ∷ ("wallet" ∷ ("store_credit" ∷ [])));
  partial_refunds_allowed = some true;
  max_partial_refunds = some 3;
  requires_approval = some false;
  approval_threshold = some none;
  exceptions = some [];
  description = some "Standard 14-day return policy";
  source = none;
}

pub record Engine : Type 0 where
  pub category_policies : Dict Policy
  pub default_policy : Policy

-- the name of the category `default`
abbrev pub default_category : ℕ
default_category = 1

-- `_getCategoryPolicy`; spreading `undefined` gives an empty object
unfoldable pub get_category_policy : ℕ → Engine → Policy
get_category_policy name e =
    let fallback : Policy = elim (lookup default_category e.category_policies) [
      | none ↦ no_policy
      | some p ↦ p
    ] in
    if truthy name
    then elim (lookup name e.category_policies) [ none ↦ fallback | some p ↦ p ]
    else fallback

-- `setCategoryPolicy`
unfoldable pub set_category_policy : ℕ → Policy → Engine → Engine
set_category_policy name policy e =
    let old : Policy = elim (lookup name e.category_policies) [ none ↦ no_policy | some p ↦ p ] in
    record e { category_policies = insert name (spread old policy) e.category_policies }

-- one round of the loop of `_mergePolicies`
abbrev pub merge_layer : Policy → Source × Option Policy → Policy
merge_layer merged (source, none) = merged
merge_layer merged (source, some policy) = record (spread merged policy) { source = some source }

unfoldable pub merge_from : Policy → List (Source × Option Policy) → Policy
merge_from merged [] = merged
merge_from merged (layer ∷ stack) = merge_from (merge_layer merged layer) stack

-- `_mergePolicies`
unfoldable pub merge_policies : Engine → List (Source × Option Policy) → Policy
unfolding merge_from
merge_policies e stack = merge_from e.default_policy stack

-- the stack that `evaluate` merges
abbrev pub policy_stack :
    (product_policy merchant_policy : Option Policy) → ℕ → Engine → List (Source × Option Policy)
policy_stack product_policy merchant_policy product_category e =
    (product, product_policy)
    ∷ ((merchant, merchant_policy)
        ∷ ((category, some (get_category_policy product_category e))
            ∷ ((platform, some e.default_policy) ∷ [])))
