-- ===== src/Calculator/Defs.antt =====
-- `class CommissionCalculator`, over abstract floats. Names and currencies are numbers; the formatted
-- texts are left out.
use siam_siam_ecosystem.Common.{
  ℕ, ◌+◌, Bool, ◌&&◌, ◌||◌, Option, none, some, List, [], ◌∷◌, if◌then◌else◌, truthy,
}
use siam_siam_ecosystem.Dict.{Dict, lookup}
use siam_siam_ecosystem.Double.{Double}

pub data Kind : Type 0 where
  fixed percent tiered hybrid other : Kind

-- the text 'USD'
abbrev pub usd : ℕ
usd = 1

module _ (d : Double) where
  open d use {D, of_ℕ, add, mul, div, round, lt, le}

  pub record Tier : Type 0 where
    pub threshold : D
    pub amount : D
    pub percentual : Bool
    pub name : ℕ

  -- a reward's configuration, its defaults filled in; 0 is a missing amount
  pub record Reward : Type 0 where
    pub kind : Kind
    pub amount : D
    pub currency : ℕ
    pub min_amount : D
    pub max_amount : Option D
    pub tiers : List Tier
    pub fixed_amount : D
    pub percent_amount : D

  pub record Commission : Type 0 where
    pub amount : D
    pub currency : ℕ

  -- `sort((a, b) => b.threshold - a.threshold)`: the highest first, equal ones in their order
  unfoldable pub place : Tier → List Tier → List Tier
  place t [] = t ∷ []
  place t (u ∷ us) = if lt t.threshold u.threshold then u ∷ place t us else t ∷ (u ∷ us)

  unfoldable pub sorted : List Tier → List Tier
  unfolding place
  sorted [] = []
  sorted (t ∷ ts) = place t (sorted ts)

  -- the first tier whose threshold is reached
  unfoldable pub first_reached : D → List Tier → Option Tier
  first_reached x [] = none
  first_reached x (t ∷ ts) = if le t.threshold x then some t else first_reached x ts

  abbrev pub percentage : D → D → D
  percentage base rate = div (mul base rate) (of_ℕ 100)

  -- `Math.round(x * 100) / 100`
  abbrev pub round_cents : D → D
  round_cents x = div (round (mul x (of_ℕ 100))) (of_ℕ 100)

  unfoldable pub calculate_tiered : List Tier → D → D
  unfolding sorted first_reached
  calculate_tiered tiers action = elim (first_reached action (sorted tiers)) [
    | none ↦ of_ℕ 0
    | some t ↦ if t.percentual then percentage action t.amount else t.amount
  ]

  -- the `switch` of `calculate`
  unfoldable pub base_commission : Reward → D → D
  unfolding calculate_tiered
  base_commission r action = elim r.kind [
    | fixed ↦ r.amount
    | percent ↦ percentage action r.amount
    | tiered ↦ calculate_tiered r.tiers action
    | hybrid ↦ add r.fixed_amount (percentage action r.percent_amount)
    | other ↦ r.amount
  ]

  unfoldable pub at_least : D → D → D
  at_least low x = if lt (of_ℕ 0) low && lt x low then low else x

  -- 0 and `NaN` are no maximum
  unfoldable pub at_most : Option D → D → D
  at_most none x = x
  at_most (some high) x = if (lt high (of_ℕ 0) || lt (of_ℕ 0) high) && lt high x then high else x

  unfoldable pub calculate : Option Reward → D → Commission
  unfolding base_commission at_least at_most
  calculate none action = record { amount = of_ℕ 0; currency = usd }
  calculate (some r) action = record {
    amount = round_cents (at_most r.max_amount (at_least r.min_amount (base_commission r action)));
    currency = r.currency;
  }

  pub data Label : Type 0 where
    none_reached : Label
    named numbered : ℕ → Label

  pub record TierReward : Type 0 where
    pub amount : D
    pub label : Label

  -- the first tier of the sorted list that is reached, with its place in it, from 1
  unfoldable pub first_numbered : D → ℕ → List Tier → TierReward
  first_numbered x n [] = record { amount = of_ℕ 0; label = none_reached }
  first_numbered x n (t ∷ ts) =
      if le t.threshold x
      then record { amount = t.amount; label = if truthy t.name then named t.name else numbered n }
      else first_numbered x (n + 1) ts

  -- `calculateTieredReward`, which leaves the tiers sorted
  unfoldable pub calculate_tiered_reward : List Tier → D → TierReward × List Tier
  unfolding sorted first_numbered
  calculate_tiered_reward tiers referrals =
      (first_numbered referrals 1 (sorted tiers), sorted tiers)

  pub record LevelCommission : Type 0 where
    pub amount : D
    pub rate : D

  -- `calculateLevelCommission`; a level without a rate, or with the rate 0, gets nothing
  unfoldable pub calculate_level_commission : Dict D → ℕ → D → LevelCommission
  calculate_level_commission rates level action = elim (lookup level rates) [
    | none ↦ record { amount = of_ℕ 0; rate = of_ℕ 0 }
    | some rate ↦
        if lt rate (of_ℕ 0) || lt (of_ℕ 0) rate
        then record { amount = round_cents (percentage action rate); rate = rate }
        else record { amount = of_ℕ 0; rate = of_ℕ 0 }
  ]
