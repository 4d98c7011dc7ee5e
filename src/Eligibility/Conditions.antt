-- ===== src/Eligibility/Conditions.antt =====
-- Exactly when an item can be refunded.
use siam_siam_ecosystem.Time.{Time, missing, at, no_date, Days, whole, nan}
use siam_siam_ecosystem.Common.{refl, ◌≢◌, ◌↔◌, inl}
use siam_siam_ecosystem.Eligibility.Defs.{
  unknown, invalid, completed, delivered, partially_delivered, pending, confirmed, processing,
  quick_check,
}
use siam_siam_ecosystem.Eligibility.Defs.{
  Result, no_reference_date, check_date, Question, Order, Policy, OrderStatus, check_dates, Item,
  other, question, by_policy, no_refund, days_since, check_user_authorization, get_reference_date,
  max_refund_attempts, is_eligible, day, check, check_order_status,
}
use siam_siam_ecosystem.Common.{Option, ℕ, ◌≡◌, some, ◌⊎◌, ◌-◌, true, ◌<◌, none, ◌/◌, ◌≤◌, arith}
use Prim.Native.Nat.{ℕ}

-- the statuses of orders that allow a refund or a cancellation
abbrev pub AllowsRefund : Option OrderStatus → Type 0
AllowsRefund none = ⊥
AllowsRefund (some (other s)) = ⊥
AllowsRefund (some _) = Unit

-- the user is unknown, owns the order, or is its recipient and may ask for a refund
abbrev pub MayAsk : ℕ → Order → Type 0
MayAsk user o =
    (user ≡ 0)
    ⊎ (o.user_id ≡ 0)
    ⊎ (user ≡ o.user_id)
    ⊎ ((o.gift_recipient_id ≡ user) × (o.allow_recipient_refund ≡ true))

-- There is a date, and it does not lie ahead or it cannot be read.
abbrev pub IsPast : ℕ → Time → Type 0
IsPast now missing = ⊥
IsPast now (at t) = t ≤ now
IsPast now no_date = Unit

-- the days since a date that does not lie ahead
abbrev pub days_between : ℕ → Time → Days
days_between now missing = whole 999
days_between now (at t) = whole ((now - t) / day)
days_between now no_date = nan

-- what the policy engine says of the item at the order's reference date
abbrev pub policy_at : (Question → Policy) → (now merchant_policy : ℕ) → Item → Order → Policy
policy_at evaluate now merchant_policy i o =
    evaluate (question i o merchant_policy (days_between now (get_reference_date o)))

pub record IsRefundable (evaluate : Question → Policy)
    (now user merchant_policy previous_refunds : ℕ) (i : Item) (o : Order) : Type 0 where
  pub none_yet : i.refund_status ≡ no_refund
  pub attempts : previous_refunds < max_refund_attempts
  pub allowed : AllowsRefund o.status
  pub past : IsPast now (get_reference_date o)
  pub asked : MayAsk user o
  pub granted : (policy_at evaluate now merchant_policy i o).eligible ≡ true

status_allowed :
    (st : Option OrderStatus)
    → check_order_status st ≢ unknown
    → check_order_status st ≢ invalid
    → AllowsRefund st
unfolding check_order_status
status_allowed none u v = absurd (u refl)
status_allowed (some (other s)) u v = absurd (v refl)
status_allowed (some completed) u v = tt
status_allowed (some delivered) u v = tt
status_allowed (some partially_delivered) u v = tt
status_allowed (some pending) u v = tt
status_allowed (some confirmed) u v = tt
status_allowed (some processing) u v = tt

module _ (evaluate : Question → Policy) where
  -- what is asked of an order at its reference date
  abbrev MeetsAt : (now user merchant_policy : ℕ) → Item → Order → Time → Type 0
  MeetsAt now user merchant_policy i o date =
      IsPast now date
      × MayAsk user o
      × ((evaluate (question i o merchant_policy (days_between now date))).eligible ≡ true)

  abbrev checked_at : (now user merchant_policy : ℕ) → Item → Order → Time → Result
  checked_at now user merchant_policy i o date = elim date [
    | missing ↦ no_reference_date
    | at t ↦ check_date evaluate now user merchant_policy i o (at t)
    | no_date ↦ check_date evaluate now user merchant_policy i o no_date
  ]

  dates_lem :
      (now user merchant_policy : ℕ) (i : Item) (o : Order) (date : Time)
      → is_eligible (checked_at now user merchant_policy i o date) ≡ true
      → MeetsAt now user merchant_policy i o date
  unfolding check_date by_policy days_since check_user_authorization
  dates_lem now user merchant_policy i o missing h = absurd (ground arith)
  dates_lem now user merchant_policy i o (at t) h = (ground arith, ground arith, ground arith)
  dates_lem now user merchant_policy i o no_date h = (tt, ground arith, ground arith)

  dates_eligible :
      (now user merchant_policy : ℕ) (i : Item) (o : Order) (date : Time)
      → IsPast now date
      → MayAsk user o
      → (evaluate (question i o merchant_policy (days_between now date))).eligible ≡ true
      → is_eligible (checked_at now user merchant_policy i o date) ≡ true
  unfolding check_date by_policy days_since check_user_authorization
  dates_eligible now user merchant_policy i o missing past asked granted = absurd past
  dates_eligible now user merchant_policy i o (at t) past asked granted = ground arith
  dates_eligible now user merchant_policy i o no_date past asked granted = ground arith

  IsRefundable-checks :
      (now user merchant_policy previous_refunds : ℕ) (i : Item) (o : Order)
      → IsRefundable evaluate now user merchant_policy previous_refunds i o
      → is_eligible (check evaluate now user merchant_policy previous_refunds (some i) o) ≡ true
  unfolding check check_order_status check_dates
  IsRefundable-checks now user merchant_policy previous_refunds i o r = ground (
    arith,
    dates_eligible now user merchant_policy i o (get_reference_date o) r.past r.asked r.granted,
    r.none_yet,
    r.attempts,
    r.allowed,
  )

  checks-IsRefundable :
      (now user merchant_policy previous_refunds : ℕ) (i : Item) (o : Order)
      → is_eligible (check evaluate now user merchant_policy previous_refunds (some i) o) ≡ true
      → IsRefundable evaluate now user merchant_policy previous_refunds i o
  unfolding check check_order_status check_dates
  checks-IsRefundable now user merchant_policy previous_refunds i o h =
      let e : is_eligible (check_dates evaluate now user merchant_policy i o) ≡ true =
        ground arith in
      let (past, asked, granted) =
        dates_lem now user merchant_policy i o (get_reference_date o) e in
      record {
        none_yet = ground arith;
        attempts = ground arith;
        allowed = status_allowed o.status (ground arith) (ground arith);
        past = past;
        asked = asked;
        granted = granted;
      }

  -- An item is found eligible exactly when it has no refund that is complete or in progress, fewer
  -- than three refunds were tried, the order has one of the six statuses that allow a refund or a
  -- cancellation and a date that does not lie ahead or cannot be read, the user is unknown, owns the
  -- order or is its recipient and allowed to ask, or the owner is unknown, and the policy engine
  -- grants the refund for the whole days since that date, or for `NaN` where it cannot be read.
  pub check_lem :
      (now user merchant_policy previous_refunds : ℕ) (i : Item) (o : Order)
      → (is_eligible (check evaluate now user merchant_policy previous_refunds (some i) o) ≡ true)
        ↔ IsRefundable evaluate now user merchant_policy previous_refunds i o
  check_lem now user merchant_policy previous_refunds i o = (
    checks-IsRefundable now user merchant_policy previous_refunds i o,
    IsRefundable-checks now user merchant_policy previous_refunds i o,
  )

  -- The quick check, which batches use too, and the check that is passed no merchant's policy: the
  -- check for a user after earlier refunds succeeds exactly where the quick check does, the user may
  -- ask for a refund, and fewer than three refunds were tried.
  pub quick_check_lem :
      (now user previous_refunds : ℕ) (i : Item) (o : Order)
      → (is_eligible (check evaluate now user 0 previous_refunds (some i) o) ≡ true) ↔ (
          (quick_check evaluate now i o ≡ true)
          × MayAsk user o
          × (previous_refunds < max_refund_attempts))
  unfolding quick_check
  quick_check_lem now user previous_refunds i o = (
    λ h.
        let r = checks-IsRefundable now user 0 previous_refunds i o h in
        (
          IsRefundable-checks now 0 0 0 i o (record {
            none_yet = r.none_yet;
            attempts = omega arith;
            allowed = r.allowed;
            past = r.past;
            asked = inl refl;
            granted = r.granted;
          }),
          r.asked,
          r.attempts,
        ),
    λ h.
        let r = checks-IsRefundable now 0 0 0 i o h.0 in
        IsRefundable-checks now user 0 previous_refunds i o (record {
          none_yet = r.none_yet;
          attempts = h.2;
          allowed = r.allowed;
          past = r.past;
          asked = h.1;
          granted = r.granted;
        }),
  )
