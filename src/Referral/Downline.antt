-- ===== src/Referral/Downline.antt =====
-- `getDownline` and `getNetworkStats`: what they count.
use siam_siam_ecosystem.Referral.Defs.{Mlm}
use siam_siam_ecosystem.Dict.{Dict, lookup, insert}
use siam_siam_ecosystem.Common.{zero, suc, [], ◌∷◌, none, some, ℕ, if◌then◌else◌, ◌+◌, ◌==◌}

-- `downline[depth] || 0`
abbrev pub count_at : ℕ → Dict ℕ → ℕ
count_at depth d = elim (lookup depth d) [ none ↦ 0 | some n ↦ n ]

-- `downline[depth] = (downline[depth] || 0) + 1`
abbrev pub bump : ℕ → Dict ℕ → Dict ℕ
bump depth d = insert depth (count_at depth d + 1) d

-- the loop of `findChildren` over the network, at what it calls for each child
unfoldable pub each_child :
    (ℕ → Dict ℕ → Dict ℕ) → (parent_id depth : ℕ) → (entries downline : Dict ℕ) → Dict ℕ
each_child find parent_id depth [] downline = downline
each_child find parent_id depth ((child, referrer) ∷ rest) downline =
    each_child find parent_id depth rest
      (if referrer == parent_id then find child (bump depth downline) else downline)

-- `findChildren`, with the levels that are left up to `maxDepth`
unfoldable pub find_children : (net : Dict ℕ) → (left parent_id depth : ℕ) → Dict ℕ → Dict ℕ
find_children net zero parent_id depth downline = downline
find_children net (suc left) parent_id depth downline =
    each_child (λ child. find_children net left child (depth + 1)) parent_id depth net downline

abbrev pub empty_levels : Dict ℕ
empty_levels = (1, 0) ∷ ((2, 0) ∷ ((3, 0) ∷ ((4, 0) ∷ [])))

-- `getDownline`
unfoldable pub get_downline : ℕ → Mlm → Dict ℕ
get_downline user m = find_children m.network m.max_depth user 1 empty_levels

-- `Object.values(downline).reduce(…)`
unfoldable pub sum_values : Dict ℕ → ℕ
sum_values [] = 0
sum_values ((k, n) ∷ d) = n + sum_values d

-- `getNetworkStats`
pub record NetworkStats : Type 0 where
  pub total_downline : ℕ
  pub downline_by_level : Dict ℕ
  pub level1_count : ℕ
  pub level2_count : ℕ
  pub level3_count : ℕ
  pub level4_count : ℕ

unfoldable pub get_network_stats : ℕ → Mlm → NetworkStats
get_network_stats user m =
    let downline = get_downline user m in
    record {
      total_downline = sum_values downline;
      downline_by_level = downline;
      level1_count = count_at 1 downline;
      level2_count = count_at 2 downline;
      level3_count = count_at 3 downline;
      level4_count = count_at 4 downline;
    }
