-- ===== src/Policies/Batch.antt =====
-- `evaluateBatch` and `getOrderEligibility`.
use siam_siam_ecosystem.Policies.Rules.{Evaluation, evaluate, is_eligible}
use siam_siam_ecosystem.Policies.Contexts.{Context}
use siam_siam_ecosystem.Policies.Defs.{Engine}
use siam_siam_ecosystem.Common.{
  [], ◌∷◌, ℕ, List, Bool, true, if◌then◌else◌, false, ltb, length, map, ◌&&◌,
}

-- `evaluateBatch`
pub record Evaluated : Type 0 where
  pub item_id : ℕ
  pub evaluation : Evaluation

unfoldable pub evaluate_batch : Engine → List Context → List Evaluated
evaluate_batch e [] = []
evaluate_batch e (c ∷ cs) =
    record { item_id = c.item_id; evaluation = evaluate e c } ∷ evaluate_batch e cs

-- `getOrderEligibility`
pub record Summary : Type 0 where
  pub has_eligible_items : Bool
  pub has_ineligible_items : Bool
  pub total_items : ℕ
  pub eligible_count : ℕ
  pub ineligible_count : ℕ
  pub eligible_items : List ℕ
  pub ineligible_items : List (ℕ × Evaluation)
  pub can_partial_refund : Bool

-- `itemResults.filter(r => r.eligible)` and its converse
unfoldable pub filter_eligible : Bool → List Evaluated → List Evaluated
filter_eligible wanted [] = []
filter_eligible wanted (r ∷ rs) =
    let rest = filter_eligible wanted rs in
    if wanted
    then (if is_eligible r.evaluation then r ∷ rest else rest)
    else (if is_eligible r.evaluation then rest else r ∷ rest)

unfoldable pub get_order_eligibility : List Evaluated → Summary
unfolding filter_eligible
get_order_eligibility results =
    let eligible = filter_eligible true results in
    let ineligible = filter_eligible false results in
    record {
      has_eligible_items = ltb 0 (length eligible);
      has_ineligible_items = ltb 0 (length ineligible);
      total_items = length results;
      eligible_count = length eligible;
      ineligible_count = length ineligible;
      eligible_items = map (λ r. r.item_id) eligible;
      ineligible_items = map (λ r. (r.item_id, r.evaluation)) ineligible;
      can_partial_refund = ltb 0 (length eligible) && ltb (length eligible) (length results);
    }
