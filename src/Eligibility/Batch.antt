-- ===== src/Eligibility/Batch.antt =====
-- The summary of a batch.
use siam_siam_ecosystem.Common.{refl, suc, ap, ◌∙◌, arith}
use siam_siam_ecosystem.Common.{List, ℕ, true, ◌≡◌, ◌+◌, length, false, ◌↔◌, ◌<◌, ◌∷◌, []}
use siam_siam_ecosystem.Eligibility.Defs.{
  Question, Policy, check_batch, Checked, Item, count_eligible, Order, every_eligible,
  some_eligible, check_all,
}

module _ (evaluate : Question → Policy) where
  summary_lem :
      (cs : List (Checked))
      → (count_eligible true cs + count_eligible false cs ≡ length cs)
        × ((every_eligible cs ≡ true) ↔ (count_eligible false cs ≡ 0))
        × ((some_eligible cs ≡ true) ↔ (0 < count_eligible true cs))
  summary_lem [] = (
    refl,
    ((λ _. refl), (λ _. refl)),
    ((λ h. absurd (ground arith)), (λ h. absurd (omega arith))),
  )
  summary_lem (c ∷ cs) =
      let (sum, (all, none_out), (any, some_in)) = summary_lem cs in
      (
        ground (arith, sum),
        ((λ h. ground (arith, all)), (λ h. ground (arith, none_out))),
        ((λ h. ground (arith, any)), (λ h. ground (arith, some_in))),
      )

  length-check_all :
      (now : ℕ) (items : List Item) (o : Order)
      → length (check_all evaluate now items o) ≡ length items
  length-check_all now [] o = refl
  length-check_all now (i ∷ is) o = ap suc (length-check_all now is o)

  -- In the summary of a batch there is a result for each item, the eligible and the ineligible ones
  -- add up to all, all are eligible exactly where none is ineligible, and any is exactly where the
  -- number of eligible ones is not 0.
  pub check_batch_lem :
      (now : ℕ) (items : List Item) (o : Order)
      → ((check_batch evaluate now items o).1.total_items ≡ length items)
        × ((check_batch evaluate now items o).1.eligible_items
              + (check_batch evaluate now items o).1.ineligible_items
            ≡ length items)
        × (((check_batch evaluate now items o).1.all_eligible ≡ true)
            ↔ ((check_batch evaluate now items o).1.ineligible_items ≡ 0))
        × (((check_batch evaluate now items o).1.any_eligible ≡ true)
            ↔ (0 < (check_batch evaluate now items o).1.eligible_items))
  unfolding check_batch
  check_batch_lem now items o =
      let cs = check_all evaluate now items o in
      let (sum, all, any) = summary_lem cs in
      let same_length = length-check_all now items o in (same_length, sum ∙ same_length, all, any)
