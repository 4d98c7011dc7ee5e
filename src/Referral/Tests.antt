-- ===== src/Referral/Tests.antt =====
-- Runs of the referral network, and its theorems at concrete networks.
use siam_siam_ecosystem.Referral.Levels.{count_below, get_downline_lem}
use siam_siam_ecosystem.Referral.Downline.{
  count_at, get_network_stats, get_downline, find_children, each_child, sum_values,
}
use siam_siam_ecosystem.Common.{ℕ, ◌≤◌, ◌≡◌, refl, true, false, [], ◌∷◌, All, ◌↔◌, arith}
use siam_siam_ecosystem.Dict.{Dict, IsMap, insert, contains}
use siam_siam_ecosystem.Double.{thousandths}
use siam_siam_ecosystem.Referral.Defs.{
  Mlm, new, added, refused, circular, has_referrer, parent, add_relationship, would_create_cycle,
  climbs_to, calculate_network_commissions, pay_up, push_commission, share, round_cents, rate_at,
  Payout, set_level_rate, negative, nonneg,
}
use siam_siam_ecosystem.Referral.Forest.{
  IsForest, IsCircular, insert-IsForest, empty-IsForest, would_create_cycle-false,
  add_relationship-IsForest, add_relationship_outcomes,
}
use siam_siam_ecosystem.Referral.Payout.{
  IsDue, Rising, percent_sum, calculate_network_commissions-IsDue,
}

-- 1 referred 2, and 2 referred 3.
abbrev family : Mlm
family = record new { network = (2, 1) ∷ (3, 2) ∷ [] }

family-IsForest : IsForest family.network
unfolding would_create_cycle climbs_to parent
family-IsForest =
    insert-IsForest 3 2 ((2, 1) ∷ [])
      (insert-IsForest 2 1 [] empty-IsForest (would_create_cycle-false [] 1 2 refl))
      (would_create_cycle-false ((2, 1) ∷ []) 2 3 refl)

runs :
    (add_relationship family 3 1 ≡ refused circular)
    × (add_relationship family 4 3 ≡ refused has_referrer)
    × (add_relationship family 5 5 ≡ refused circular)
    × (add_relationship new 1 2 ≡ added (record new { network = (2, 1) ∷ [] }))
unfolding add_relationship would_create_cycle climbs_to parent
runs = (refl, refl, refl, refl)

-- The check stops at the empty text, so two records can refer to each other through it.
through_empty_text :
    let net : Dict ℕ = (2, 0) ∷ [] in
    add_relationship (record new { network = net }) 2 0
    ≡ added (record new { network = (2, 0) ∷ (0, 2) ∷ [] })
unfolding add_relationship would_create_cycle climbs_to parent
through_empty_text = refl

rates : rate_at (set_level_rate (set_level_rate new 5 (nonneg 250)) 1 negative) 5 ≡ 100
unfolding rate_at set_level_rate
rates = refl

add_relationship-IsForest_example :
    let net : Dict ℕ = (2, 1) ∷ (3, 2) ∷ (4, 3) ∷ [] in IsForest net × IsMap net
unfolding add_relationship would_create_cycle climbs_to parent
add_relationship-IsForest_example =
    add_relationship-IsForest family (record new { network = (2, 1) ∷ (3, 2) ∷ (4, 3) ∷ [] }) 3 4
      family-IsForest (refl, (refl, tt)) refl

add_relationship_outcomes_example :
    let result = add_relationship family 3 1 in
    ((result ≡ refused circular) ↔ IsCircular family.network 3 1)
    × ((result ≡ refused has_referrer)
        ↔ ((¬ IsCircular family.network 3 1) × (contains 1 family.network ≡ true)))
    × ((result ≡ added (record family { network = insert 1 3 family.network }))
        ↔ ((¬ IsCircular family.network 3 1) × (contains 1 family.network ≡ false)))
add_relationship_outcomes_example = add_relationship_outcomes family 3 1 family-IsForest

-- A purchase of 50 by user 3 pays 5 to user 2 and 2.50 to user 1, in thousandths.
abbrev paid : Payout thousandths
paid = record {
  commissions =
      record { referrer = 2; level = 1; rate = 10; amount = 5000; relationship = (3, 2) }
      ∷ record { referrer = 1; level = 2; rate = 5; amount = 2500; relationship = (2, 1) }
      ∷ [];
  total_amount = 7500;
  total_percent = 15;
  levels_traversed = 2;
  reached_max_depth = false;
  reached_max_commission = false;
}

calculate_network_commissions-IsDue_example :
    All (IsDue thousandths family 50000 3) paid.commissions
    × (percent_sum paid.commissions ≡ 15)
    × (15 ≤ 20)
    × (2 ≤ 4)
    × (Rising 0 2 paid.commissions)
unfolding calculate_network_commissions pay_up push_commission share round_cents parent rate_at
calculate_network_commissions-IsDue_example =
    calculate_network_commissions-IsDue thousandths family 3 50000 {p = paid} refl

-- 3 stands two levels below 1
family_stats : get_network_stats 1 family ≡ record {
  total_downline = 2;
  downline_by_level = (1, 1) ∷ ((2, 1) ∷ ((3, 0) ∷ ((4, 0) ∷ [])));
  level1_count = 1;
  level2_count = 1;
  level3_count = 0;
  level4_count = 0;
}
unfolding get_network_stats get_downline find_children each_child sum_values
family_stats = refl

get_downline_lem_example :
    count_at 2 (get_downline 1 family) ≡ count_below family.network 2 1 family.network
get_downline_lem_example =
    get_downline_lem 1 2 family (refl, (refl, tt)) (omega arith) (omega arith)
