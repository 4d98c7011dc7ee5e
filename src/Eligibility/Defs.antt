-- ===== src/Eligibility/Defs.antt =====
-- `class RefundEligibilityChecker`. Texts are numbers, the empty or absent one 0; times are milliseconds
-- where the code keeps texts that `new Date` can read, and a call reads the clock once. The policy engine is a function
-- that is a parameter.
use siam_siam_ecosystem.Time.{Time, missing, at, no_date, or_time, Days, whole, nan}
use siam_siam_ecosystem.Common.{
  ℕ, suc, ◌-◌, ◌/◌, Bool, true, false, not, ◌&&◌, ◌||◌, Option, none, some, List, [], ◌∷◌, leb, ltb,
  ◌==◌, if◌then◌else◌, truthy, or_default, length,
}

-- the statuses of orders and of refunds that the code names
pub data OrderStatus : Type 0 where
  completed delivered partially_delivered pending confirmed processing : OrderStatus
  other : ℕ → OrderStatus

pub data RefundStatus : Type 0 where
  fully_refunded in_progress no_refund : RefundStatus

pub record Item : Type 0 where
  pub id : ℕ
  pub name : ℕ
  pub product_name : ℕ
  pub refund_status : RefundStatus
  pub category : ℕ
  pub product_category : ℕ
  pub refund_policy : ℕ
  pub condition : ℕ
  pub is_opened : Bool
  pub has_original_packaging : Option Bool
  pub has_tags : Option Bool
  pub is_damaged : Bool
  pub is_digital : Bool
  pub price : ℕ

-- `status` is `none` where the order has none
pub record Order : Type 0 where
  pub status : Option OrderStatus
  pub user_id : ℕ
  pub gift_recipient_id : ℕ
  pub allow_recipient_refund : Bool
  pub delivered_at : Time
  pub completed_at : Time
  pub shipped_at : Time
  pub created_at : Time
  pub merchant_policy : ℕ
  pub type : ℕ
  pub currency : ℕ

-- the texts 'standard', 'good', 'USD' and 'non_refundable'
abbrev pub standard : ℕ
standard = 1

abbrev pub good : ℕ
good = 1

abbrev pub usd : ℕ
usd = 1

abbrev pub non_refundable : ℕ
non_refundable = 1

-- what the policy engine is asked
pub record Question : Type 0 where
  pub product_category : ℕ
  pub days_since_purchase : Days
  pub merchant_policy : ℕ
  pub product_policy : ℕ
  pub order_type : ℕ
  pub product_condition : ℕ
  pub is_opened : Bool
  pub has_original_packaging : Bool
  pub has_tags : Bool
  pub is_damaged : Bool
  pub price : ℕ
  pub currency : ℕ

-- and what it answers
pub record Policy : Type 0 where
  pub eligible : Bool
  pub condition : ℕ
  pub terms : ℕ

pub data Result : Type 0 where
  item_required already_refunded refund_in_progress max_attempts_reached : Result
  unknown_status invalid_status no_reference_date invalid_date unauthorized : Result
  policy_denied : Policy → Days → Result
  eligible : (requires_return : Bool) → Policy → Days → (reference_date : Time) → Result

abbrev pub max_refund_attempts : ℕ
max_refund_attempts = 3

abbrev pub day : ℕ
day = 86_400_000

-- `_checkOrderStatus`
pub data StatusCheck : Type 0 where
  unknown good_to_refund cancellable invalid : StatusCheck

unfoldable pub check_order_status : Option OrderStatus → StatusCheck
check_order_status none = unknown
check_order_status (some s) = elim s [
  | completed ↦ good_to_refund
  | delivered ↦ good_to_refund
  | partially_delivered ↦ good_to_refund
  | pending ↦ cancellable
  | confirmed ↦ cancellable
  | processing ↦ cancellable
  | other _ ↦ invalid
]

-- `_getReferenceDate`
unfoldable pub get_reference_date : Order → Time
get_reference_date o =
    or_time o.delivered_at (or_time o.completed_at (or_time o.shipped_at o.created_at))

-- `_daysSince`: the whole days, or `none` where the date lies ahead and they are below 0
unfoldable pub days_since : ℕ → Time → Option Days
days_since now missing = some (whole 999)
days_since now (at date) = if ltb now date then none else some (whole ((now - date) / day))
days_since now no_date = some nan

-- `_checkUserAuthorization`
unfoldable pub check_user_authorization : ℕ → Order → Bool
check_user_authorization user o =
    (o.user_id == user) || ((o.gift_recipient_id == user) && o.allow_recipient_refund)

abbrev pub not_false : Option Bool → Bool
not_false none = true
not_false (some b) = b

abbrev pub question : Item → Order → (merchant_policy : ℕ) → Days → Question
question i o merchant_policy days = record {
  product_category = or_default i.category i.product_category;
  days_since_purchase = days;
  merchant_policy = or_default merchant_policy o.merchant_policy;
  product_policy = i.refund_policy;
  order_type = or_default o.type standard;
  product_condition = or_default i.condition good;
  is_opened = i.is_opened;
  has_original_packaging = not_false i.has_original_packaging;
  has_tags = not_false i.has_tags;
  is_damaged = i.is_damaged;
  price = i.price;
  currency = or_default o.currency usd;
}

abbrev pub is_eligible : Result → Bool
is_eligible (eligible requires_return p days reference_date) = true
is_eligible _ = false

pub record Checked : Type 0 where
  pub item_id : ℕ
  pub product_name : ℕ
  pub result : Result

abbrev pub count_eligible : Bool → List Checked → ℕ
count_eligible wanted [] = 0
count_eligible wanted (c ∷ cs) =
    let rest = count_eligible wanted cs in
    if wanted
    then (if is_eligible c.result then suc rest else rest)
    else (if is_eligible c.result then rest else suc rest)

abbrev pub every_eligible : List Checked → Bool
every_eligible [] = true
every_eligible (c ∷ cs) = is_eligible c.result && every_eligible cs

abbrev pub some_eligible : List Checked → Bool
some_eligible [] = false
some_eligible (c ∷ cs) = is_eligible c.result || some_eligible cs

pub record Summary : Type 0 where
  pub total_items : ℕ
  pub eligible_items : ℕ
  pub ineligible_items : ℕ
  pub all_eligible : Bool
  pub any_eligible : Bool

module _ (evaluate : Question → Policy) where
  -- the end of `check`, by the policy
  unfoldable pub by_policy : Item → Order → (merchant_policy : ℕ) → Time → Days → Result
  by_policy i o merchant_policy reference_date days =
      let p = evaluate (question i o merchant_policy days) in
      if not p.eligible
      then policy_denied p days
      else eligible (not i.is_digital && not (p.condition == non_refundable)) p days reference_date

  -- `check` once there is a reference date
  unfoldable pub check_date : (now user merchant_policy : ℕ) → Item → Order → Time → Result
  check_date now user merchant_policy i o date = elim (days_since now date) [
    | none ↦ invalid_date
    | some days ↦
        if (truthy user && truthy o.user_id && not (user == o.user_id))
          && not (check_user_authorization user o)
        then unauthorized
        else by_policy i o merchant_policy date days
  ]

  -- `check` from the reference date on
  unfoldable pub check_dates : (now user merchant_policy : ℕ) → Item → Order → Result
  check_dates now user merchant_policy i o = elim (get_reference_date o) [
    | missing ↦ no_reference_date
    | at t ↦ check_date now user merchant_policy i o (at t)
    | no_date ↦ check_date now user merchant_policy i o no_date
  ]

  -- `check` of an item: the user, the merchant's policy and the number of earlier refunds
  unfoldable pub check_item :
      (now user merchant_policy previous_refunds : ℕ) → Item → Order → Result
  check_item now user merchant_policy previous_refunds i o = elim i.refund_status [
    | fully_refunded ↦ already_refunded
    | in_progress ↦ refund_in_progress
    | no_refund ↦
        if leb max_refund_attempts previous_refunds
        then max_attempts_reached
        else elim (check_order_status o.status) [
          | unknown ↦ unknown_status
          | invalid ↦ invalid_status
          | good_to_refund ↦ check_dates now user merchant_policy i o
          | cancellable ↦ check_dates now user merchant_policy i o
        ]
  ]

  unfoldable pub check :
      (now user merchant_policy previous_refunds : ℕ) → Option Item → Order → Result
  unfolding check_item
  check now user merchant_policy previous_refunds none o = item_required
  check now user merchant_policy previous_refunds (some i) o =
      check_item now user merchant_policy previous_refunds i o

  unfoldable pub quick_check : ℕ → Item → Order → Bool
  quick_check now i o = is_eligible (check now 0 0 0 (some i) o)

  abbrev pub check_all : ℕ → List Item → Order → List Checked
  check_all now [] o = []
  check_all now (i ∷ is) o =
      record {
        item_id = i.id;
        product_name = or_default i.name i.product_name;
        result = check now 0 0 0 (some i) o;
      }
      ∷ check_all now is o

  unfoldable pub check_batch : ℕ → List Item → Order → List Checked × Summary
  check_batch now items o =
      let cs = check_all now items o in
      (
        cs,
        record {
          total_items = length cs;
          eligible_items = count_eligible true cs;
          ineligible_items = count_eligible false cs;
          all_eligible = every_eligible cs;
          any_eligible = some_eligible cs;
        },
      )
