-- ===== src/Referral/Defs.antt =====
-- `class MultiLevelCommissions`. A user is a number, and 0 is the empty text, at which the code's
-- tests `while (current)` and `if (!referrerId)` stop.
use siam_siam_ecosystem.Common.{
  ℕ, zero, suc, ◌+◌, Bool, true, false, Option, none, some, List, [], ◌∷◌, ◌==◌, ltb, leb,
  if◌then◌else◌, truthy, length, min, ◌++◌,
}
use siam_siam_ecosystem.Dict.{Dict, lookup, contains, insert}
use siam_siam_ecosystem.Double.{Double}

-- `network` maps a referred user to the referrer.
pub record Mlm : Type 0 where
  pub network : Dict ℕ
  pub level_rates : Dict ℕ
  pub max_depth : ℕ
  pub max_total_commission : ℕ
  pub min_purchase_amount : ℕ

-- the constructor
abbrev pub new : Mlm
new = record {
  network = [];
  level_rates = (1, 10) ∷ (2, 5) ∷ (3, 2) ∷ (4, 1) ∷ [];
  max_depth = 4;
  max_total_commission = 20;
  min_purchase_amount = 10;
}

-- the user after `current` on the way up, or `none` where the code's loops stop
unfoldable pub parent : Dict ℕ → ℕ → Option ℕ
parent net u = elim (lookup u net) [ none ↦ none | some p ↦ if truthy p then some p else none ]

-- The `while` loop of `_wouldCreateCycle` from a truthy `current`; `none` when the fuel runs out.
unfoldable pub climbs_to : ℕ → Dict ℕ → ℕ → ℕ → Option Bool
climbs_to zero net target current = none
climbs_to (suc fuel) net target current = elim (current == target) [
  | true ↦ some true
  | false ↦ elim (parent net current) [ none ↦ some false | some p ↦ climbs_to fuel net target p ]
]

unfoldable pub would_create_cycle : Dict ℕ → ℕ → ℕ → Option Bool
would_create_cycle net referrer referred =
    if truthy referrer then climbs_to (length net + 1) net referred referrer else some false

-- the two errors that `addRelationship` throws, and a loop that does not end
pub data Refused : Type 0 where
  circular has_referrer diverged : Refused

pub data Added : Type 0 where
  added : Mlm → Added
  refused : Refused → Added

unfoldable pub add_relationship : Mlm → ℕ → ℕ → Added
add_relationship m referrer referred = elim (would_create_cycle m.network referrer referred) [
  | none ↦ refused diverged
  | some true ↦ refused circular
  | some false ↦
      if contains referred m.network
      then refused has_referrer
      else added (record m { network = insert referred referrer m.network })
]

-- `this.levelRates[level] || 0`
unfoldable pub rate_at : Mlm → ℕ → ℕ
rate_at m level = elim (lookup level m.level_rates) [ none ↦ 0 | some r ↦ r ]

pub data Signed : Type 0 where
  nonneg : ℕ → Signed
  negative : Signed

-- `setLevelRate`, for whole rates: a negative rate is set to 0, one above 100 to 100
unfoldable pub set_level_rate : Mlm → ℕ → Signed → Mlm
set_level_rate m level (nonneg r) = record m {
  level_rates = insert level (min r 100) m.level_rates;
}
set_level_rate m level negative = record m { level_rates = insert level 0 m.level_rates }

module _ (F : Double) where
  open F use {D, of_ℕ, add, mul, div, round, lt}

  -- the entry pushed to `commissions`; `relationship` is the text made of the two users
  pub record Commission : Type 0 where
    pub referrer : ℕ
    pub level : ℕ
    pub rate : ℕ
    pub amount : D
    pub relationship : ℕ × ℕ

  -- `Math.round(x * 100) / 100`
  unfoldable pub round_cents : D → D
  round_cents x = div (round (mul x (of_ℕ 100))) (of_ℕ 100)

  pub record Payout : Type 0 where
    pub commissions : List Commission
    pub total_amount : D
    pub total_percent : ℕ
    pub levels_traversed : ℕ
    pub reached_max_depth : Bool
    pub reached_max_commission : Bool

  -- the variables of the loop of `calculateNetworkCommissions`
  pub record Loop : Type 0 where
    pub commissions : List Commission
    pub percent : ℕ
    pub amount : D
    pub level : ℕ

  -- what one level earns: `(purchaseAmount * rate) / 100`
  unfoldable pub share : D → ℕ → D
  share purchase rate = div (mul purchase (of_ℕ rate)) (of_ℕ 100)

  -- the body of `if (rate > 0)`, once the limit has been checked
  unfoldable pub push_commission : D → ℕ → ℕ → ℕ → Loop → Loop
  push_commission purchase current referrer rate s = record {
    commissions =
        s.commissions
        ++ (record {
          referrer = referrer;
          level = s.level + 1;
          rate = rate;
          amount = round_cents (share purchase rate);
          relationship = (current, referrer);
        }
            ∷ []);
    percent = s.percent + rate;
    amount = add s.amount (share purchase rate);
    level = s.level + 1;
  }

  -- The `while` loop, on the rounds left until `level` is `maxDepth`.
  unfoldable pub pay_up : ℕ → Mlm → D → ℕ → Loop → Loop
  pay_up zero m purchase current s = s
  pay_up (suc rounds) m purchase current s = elim (ltb s.percent m.max_total_commission) [
    | false ↦ s
    | true ↦ elim (parent m.network current) [
      | none ↦ s
      | some referrer ↦
          let rate = rate_at m (s.level + 1) in
          let counted : Loop = record s { level = s.level + 1 } in
          elim (truthy rate) [
            | false ↦ pay_up rounds m purchase referrer counted
            | true ↦ elim (ltb m.max_total_commission (s.percent + rate)) [
              | true ↦ counted
              | false ↦
                  pay_up rounds m purchase referrer
                    (push_commission purchase current referrer rate s)
            ]
          ]
    ]
  ]

  abbrev pub start : Loop
  start = record { commissions = []; percent = 0; amount = of_ℕ 0; level = 0 }

  -- `calculateNetworkCommissions`; `none` is the answer "Purchase amount below minimum"
  unfoldable pub calculate_network_commissions : Mlm → ℕ → D → Option Payout
  calculate_network_commissions m purchaser amount =
      if lt amount (of_ℕ m.min_purchase_amount)
      then none
      else (let s = pay_up m.max_depth m amount purchaser start in
          some (record {
            commissions = s.commissions;
            total_amount = round_cents s.amount;
            total_percent = s.percent;
            levels_traversed = s.level;
            reached_max_depth = leb m.max_depth s.level;
            reached_max_commission = leb m.max_total_commission s.percent;
          }))

pub record Ancestor : Type 0 where
  pub user : ℕ
  pub level : ℕ
  pub rate : ℕ

-- the loop of `getUpline`, on the rounds left
unfoldable pub upline_from : ℕ → Mlm → ℕ → ℕ → List Ancestor
upline_from zero m current level = []
upline_from (suc rounds) m current level = elim (parent m.network current) [
  | none ↦ []
  | some p ↦
      record { user = p; level = level + 1; rate = rate_at m (level + 1) }
      ∷ upline_from rounds m p (level + 1)
]

unfoldable pub get_upline : Mlm → ℕ → ℕ → List Ancestor
get_upline m user max_depth = upline_from max_depth m user 0
