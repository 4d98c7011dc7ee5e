-- ===== src/Tracker/Defs.antt =====
-- `class ReferralTracker`. Identifiers, types of events and other texts are numbers; amounts are
-- floats, a parameter. An event's random identifier is left out.
use siam_siam_ecosystem.Common.{
  ℕ, ◌+◌, Bool, false, ◌&&◌, ◌||◌, Option, none, some, List, [], ◌∷◌, ◌++◌, leb, ltb, ◌==◌,
  if◌then◌else◌, same, length, last_n,
}
use siam_siam_ecosystem.Dict.{Dict, lookup, insert}
use siam_siam_ecosystem.Double.{Double}

-- the types of events that the code names
abbrev pub created : ℕ
created = 1

abbrev pub shared : ℕ
shared = 2

abbrev pub clicked : ℕ
clicked = 3

abbrev pub signed_up : ℕ
signed_up = 4

abbrev pub converted : ℕ
converted = 5

abbrev pub commission_earned : ℕ
commission_earned = 6

abbrev pub commission_paid : ℕ
commission_paid = 7

abbrev pub deactivated : ℕ
deactivated = 8

abbrev pub max_events_per_referral : ℕ
max_events_per_referral = 1000

abbrev pub list_of {ℓ} : {A : Type ℓ} → Option (List A) → List A
list_of none = []
list_of (some xs) = xs

module _ (d : Double) where
  open d use {D, of_ℕ, add, mul, div, round}

  -- the data of an event, as far as the code reads it; 0 is a missing device or address
  pub record Data : Type 0 where
    pub user_id : Option ℕ
    pub device_id : ℕ
    pub ip : ℕ
    pub amount : D

  pub record Event : Type 0 where
    pub referral_id : ℕ
    pub type : ℕ
    pub info : Data
    pub timestamp : ℕ

  abbrev pub Tracker : Type 0
  Tracker = Dict (List Event)

  -- the `find` of `trackEvent`
  unfoldable pub has_duplicate : ℕ → Option ℕ → List Event → Bool
  has_duplicate type user [] = false
  has_duplicate type user (e ∷ es) =
      ((e.type == type) && same e.info.user_id user) || has_duplicate type user es

  unfoldable pub trim : List Event → List Event
  trim es =
      if ltb max_events_per_referral (length es) then last_n max_events_per_referral es else es

  unfoldable pub track_event : (now referral_id type : ℕ) → Data → Tracker → Tracker
  track_event now referral_id type info t =
      let events = list_of (lookup referral_id t) in
      if ((type == converted) || (type == commission_earned))
        && has_duplicate type info.user_id events
      then insert referral_id events t
      else insert referral_id
          (trim (
            events
            ++ (record { referral_id = referral_id; type = type; info = info; timestamp = now }
                ∷ [])))
          t

  unfoldable pub of_type : ℕ → List Event → List Event
  of_type type [] = []
  of_type type (e ∷ es) = if e.type == type then e ∷ of_type type es else of_type type es

  -- `getEvents` with a type, and without
  unfoldable pub get_events : ℕ → Option ℕ → Tracker → List Event
  unfolding of_type
  get_events referral_id none t = list_of (lookup referral_id t)
  get_events referral_id (some type) t = of_type type (list_of (lookup referral_id t))

  pub record Counters : Type 0 where
    pub shares : ℕ
    pub clicks : ℕ
    pub signups : ℕ
    pub conversions : ℕ
    pub commissions_earned : ℕ
    pub commissions_paid : ℕ
    pub total_earned : D

  -- the `switch` of `getReferralStats`
  unfoldable pub count_event : Event → Counters → Counters
  count_event e c =
      if e.type == shared
      then record c { shares = c.shares + 1 }
      else if e.type == clicked
      then record c { clicks = c.clicks + 1 }
      else if e.type == signed_up
      then record c { signups = c.signups + 1 }
      else if e.type == converted
      then record c { conversions = c.conversions + 1 }
      else if e.type == commission_earned
      then record c {
        commissions_earned = c.commissions_earned + 1;
        total_earned = add c.total_earned e.info.amount;
      }
      else if e.type == commission_paid
      then record c { commissions_paid = c.commissions_paid + 1 }
      else c

  unfoldable pub count_events : List Event → Counters → Counters
  unfolding count_event
  count_events [] c = c
  count_events (e ∷ es) c = count_events es (count_event e c)

  -- `Math.round(a / b * 10000) / 100`, in percent with two places
  abbrev pub rate : ℕ → ℕ → D
  rate a b = div (round (mul (div (of_ℕ a) (of_ℕ b)) (of_ℕ 10_000))) (of_ℕ 100)

  pub record Stats : Type 0 where
    pub total_events : ℕ
    pub counters : Counters
    pub conversion_rate : D
    pub share_conversion_rate : Option D
    pub first_event : Option ℕ
    pub last_event : Option ℕ

  abbrev pub first_time : List Event → Option ℕ
  first_time [] = none
  first_time (e ∷ es) = some e.timestamp

  abbrev pub last_time : List Event → Option ℕ
  last_time [] = none
  last_time (e ∷ []) = some e.timestamp
  last_time (e ∷ (f ∷ es)) = last_time (f ∷ es)

  unfoldable pub get_referral_stats : ℕ → Tracker → Stats
  unfolding count_events
  get_referral_stats referral_id t =
      let events = list_of (lookup referral_id t) in
      let c = count_events events (record {
        shares = 0;
        clicks = 0;
        signups = 0;
        conversions = 0;
        commissions_earned = 0;
        commissions_paid = 0;
        total_earned = of_ℕ 0;
      }) in
      record {
        total_events = length events;
        counters = c;
        conversion_rate = if ltb 0 c.clicks then rate c.conversions c.clicks else of_ℕ 0;
        share_conversion_rate = if ltb 0 c.shares then some (rate c.conversions c.shares) else none;
        first_event = first_time events;
        last_event = last_time events;
      }

  -- the inner loop of `getEventCountsByDate`
  unfoldable pub count_between : (start end : ℕ) → List Event → Dict ℕ → Dict ℕ
  count_between start end [] counts = counts
  count_between start end (e ∷ es) counts = count_between start end es (
      if leb start e.timestamp && leb e.timestamp end
      then insert e.type (elim (lookup e.type counts) [ none ↦ 1 | some n ↦ n + 1 ]) counts
      else counts)

  unfoldable pub counts_by_date : (start end : ℕ) → Tracker → Dict ℕ → Dict ℕ
  unfolding count_between
  counts_by_date start end [] counts = counts
  counts_by_date start end ((k, es) ∷ t) counts =
      counts_by_date start end t (count_between start end es counts)

  unfoldable pub get_event_counts_by_date : (start end : ℕ) → Tracker → Dict ℕ
  unfolding counts_by_date
  get_event_counts_by_date start end t = counts_by_date start end t []
