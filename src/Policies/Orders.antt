-- ===== src/Policies/Orders.antt =====
-- The summary of an order's items.
use siam_siam_ecosystem.Policies.Defs.{Engine}
use siam_siam_ecosystem.Policies.Contexts.{Context}
use siam_siam_ecosystem.Policies.Batch.{
  get_order_eligibility, evaluate_batch, filter_eligible, Evaluated, Summary,
}
use siam_siam_ecosystem.Common.{refl, arith, List, length, true, ◌≡◌, ◌+◌, ◌∷◌, ◌&&◌, [], false}

count_both :
    (rs : List Evaluated)
    → length (filter_eligible true rs) + length (filter_eligible false rs) ≡ length rs
unfolding filter_eligible
count_both [] = omega arith
count_both (r ∷ rs) = ground (arith, count_both rs)

length-evaluate_batch : (e : Engine) (cs : List Context) → length (evaluate_batch e cs) ≡ length cs
unfolding evaluate_batch
length-evaluate_batch e [] = refl
length-evaluate_batch e (c ∷ cs) = omega (arith, length-evaluate_batch e cs)

-- Each item of an order is counted once, as eligible or as ineligible, and the order can be refunded in
-- part exactly when there are items of both kinds.
pub get_order_eligibility_lem :
    (e : Engine) (cs : List Context) (s : Summary)
    → s ≡ get_order_eligibility (evaluate_batch e cs)
    → (s.total_items ≡ length cs)
      × (s.eligible_count + s.ineligible_count ≡ length cs)
      × (s.can_partial_refund ≡ (s.has_eligible_items && s.has_ineligible_items))
unfolding get_order_eligibility
get_order_eligibility_lem e cs s h =
    let rs = evaluate_batch e cs in
    (
      ground (arith, length-evaluate_batch e cs),
      ground (arith, length-evaluate_batch e cs, count_both rs),
      ground (arith, count_both rs),
    )
