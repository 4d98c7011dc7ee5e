-- ===== src/Calculator/Tests.antt =====
-- Runs of the commission calculator in thousandths, and its theorem at a concrete list of tiers.
use siam_siam_ecosystem.Double.{thousandths}
use siam_siam_ecosystem.Calculator.Defs.{calculate_tiered, Tier}
use siam_siam_ecosystem.Calculator.Tiers.{
  IsOrdered, IsHighest, tier_commission, calculate_tiered_lem,
}
use Prim.Native.Nat.{ℕ}
use siam_siam_ecosystem.Common.{List, Option, ℕ, ◌≡◌, arith, false, ◌∷◌, refl, []}

thousandths-IsOrdered : IsOrdered thousandths
thousandths-IsOrdered = record {
  le_refl = λ a. ground arith;
  le_trans = λ a b c h k. ground arith;
  le_of_lt = λ a b h. ground arith;
  le_of_not_lt = λ a b h. ground arith;
}

abbrev tier : ℕ → ℕ → Tier thousandths
tier threshold amount = record {
  threshold = threshold;
  amount = amount;
  percentual = false;
  name = 0;
}

abbrev three : List (Tier thousandths)
three = tier 100_000 5000 ∷ (tier 500_000 20_000 ∷ (tier 200_000 9000 ∷ []))

in_the_middle : calculate_tiered thousandths three 300_000 ≡ 9000
unfolding calculate_tiered
in_the_middle = refl

calculate_tiered_lem_example :
    (r : Option (Tier thousandths)) × IsHighest thousandths thousandths-IsOrdered 300_000 three r
    × (calculate_tiered thousandths three 300_000
        ≡ tier_commission thousandths thousandths-IsOrdered 300_000 r)
calculate_tiered_lem_example = calculate_tiered_lem thousandths thousandths-IsOrdered three 300_000
