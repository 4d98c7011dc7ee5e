-- ===== src/Engine/Defs.antt =====
-- `class ReferralEngine`, over the tracker and the commission calculator. Identifiers, codes and other
-- texts are numbers, the empty or absent one 0; amounts are floats, a parameter. A call reads the clock
-- once and is given the identifier and the code that it would generate; times are milliseconds where
-- the code keeps ISO texts. Countries, the dates of a program, its rewards for the referred and the
-- user's own metadata are stored and never read, and are left out.
use siam_siam_ecosystem.Common.{
  ℕ, ◌+◌, ◌*◌, Bool, true, false, not, ◌&&◌, ◌||◌, Option, none, some, List, [], ◌∷◌, leb, ltb,
  ◌==◌, if◌then◌else◌, truthy, or_default, length,
}
use siam_siam_ecosystem.Dict.{Dict, lookup, insert}
use siam_siam_ecosystem.Double.{Double}
use siam_siam_ecosystem.Tracker.Defs.{
  Tracker, Data, Event, track_event, get_events, created, converted, commission_earned, deactivated,
}
use siam_siam_ecosystem.Calculator.Defs.{Reward, Commission, calculate, fixed, usd}

-- the texts 'default', 'active' and 'deactivated'
abbrev pub default : ℕ
default = 1

abbrev pub active : ℕ
active = 1

abbrev pub inactive : ℕ
inactive = 2

abbrev pub day : ℕ
day = 86_400_000

module _ (d : Double) where
  open d use {D, of_ℕ, add, lt}

  pub record Program : Type 0 where
    pub id : ℕ
    pub name : ℕ
    pub referrer_reward : Reward d
    pub min_purchase_amount : D
    pub max_referrals_per_user : ℕ
    pub referral_expiry_days : ℕ
    pub fraud_detection_enabled : Bool
    pub allow_self_referral : Bool
    pub is_active : Bool

  pub record Config : Type 0 where
    pub name : ℕ
    pub referrer_reward : Option (Reward d)
    pub min_purchase_amount : D
    pub max_referrals_per_user : ℕ
    pub referral_expiry_days : ℕ
    pub fraud_detection_enabled : Option Bool
    pub allow_self_referral : Bool
    pub is_active : Option Bool

  pub record Referral : Type 0 where
    pub id : ℕ
    pub referrer_id : ℕ
    pub program_id : ℕ
    pub code : ℕ
    pub status : ℕ
    pub expires_at : ℕ
    pub conversions : ℕ
    pub total_earned : D

  pub record Engine : Type 0 where
    pub programs : Dict Program
    pub referrals : Dict Referral
    pub tracker : Tracker d

  abbrev pub not_false : Option Bool → Bool
  not_false none = true
  not_false (some b) = b

  abbrev pub ten_dollars : Reward d
  ten_dollars = record {
    kind = fixed;
    amount = of_ℕ 10;
    currency = usd;
    min_amount = of_ℕ 0;
    max_amount = none;
    tiers = [];
    fixed_amount = of_ℕ 0;
    percent_amount = of_ℕ 0;
  }

  abbrev pub program_of : ℕ → Config → Program
  program_of id c = record {
    id = id;
    name = or_default c.name id;
    referrer_reward = elim c.referrer_reward [ none ↦ ten_dollars | some r ↦ r ];
    min_purchase_amount = c.min_purchase_amount;
    max_referrals_per_user = or_default c.max_referrals_per_user 100;
    referral_expiry_days = or_default c.referral_expiry_days 365;
    fraud_detection_enabled = not_false c.fraud_detection_enabled;
    allow_self_referral = c.allow_self_referral;
    is_active = not_false c.is_active;
  }

  unfoldable pub create_program : ℕ → Config → Engine → Engine
  create_program id c s = record s { programs = insert id (program_of id c) s.programs }

  -- the configuration of the program that `createReferral` makes; the name is a text that is not 0
  abbrev pub default_config : Config
  default_config = record {
    name = 2;
    referrer_reward = none;
    min_purchase_amount = of_ℕ 0;
    max_referrals_per_user = 0;
    referral_expiry_days = 0;
    fraud_detection_enabled = none;
    allow_self_referral = false;
    is_active = none;
  }

  -- `_getUserReferrals`; program 0 is any
  unfoldable pub user_referrals : (user program : ℕ) → Dict Referral → List Referral
  user_referrals user program [] = []
  user_referrals user program ((k, r) ∷ rs) =
      if (r.referrer_id == user) && (not (truthy program) || (r.program_id == program))
      then r ∷ user_referrals user program rs
      else user_referrals user program rs

  pub data Created : Type 0 where
    -- the exceptions
    program_not_found program_not_active maximum_reached : Created
    referral : (id code expires_at : ℕ) → Created

  abbrev pub no_data : Data d
  no_data = record { user_id = none; device_id = 0; ip = 0; amount = of_ℕ 0 }

  -- `createReferral`, once there is a program
  unfoldable pub create_for :
      (now id referrer program_id code : ℕ) → Program → Engine → Created × Engine
  unfolding user_referrals
  create_for now id referrer program_id code p s =
      if not p.is_active
      then (program_not_active, s)
      else if leb p.max_referrals_per_user (length (user_referrals referrer program_id s.referrals))
      then (maximum_reached, s)
      else (
        referral id code (now + p.referral_expiry_days * day),
        record s {
          referrals =
              insert id
                (record {
                  id = id;
                  referrer_id = referrer;
                  program_id = program_id;
                  code = code;
                  status = active;
                  expires_at = now + p.referral_expiry_days * day;
                  conversions = 0;
                  total_earned = of_ℕ 0;
                })
                s.referrals;
          tracker = track_event d now id created no_data s.tracker;
        },
      )

  -- `createReferral`, with `options.code` and the code that would be generated
  unfoldable pub create_referral :
      (now id referrer program_id given_code generated_code : ℕ) → Engine → Created × Engine
  create_referral now id referrer program_id given_code generated_code s =
      let code = or_default given_code generated_code in
      let s' = create_program default default_config s in
      elim (lookup program_id s.programs) [
        | some p ↦ create_for now id referrer program_id code p s
        | none ↦
            if program_id == default
            then create_for now id referrer program_id code (program_of default default_config) s'
            else (program_not_found, s)
      ]

  -- `_findByCode`
  unfoldable pub find_by_code : ℕ → Dict Referral → Option Referral
  find_by_code code [] = none
  find_by_code code ((k, r) ∷ rs) =
      if (r.code == code) && (r.status == active) then some r else find_by_code code rs

  -- what is known of the one who converts
  pub record Context : Type 0 where
    pub user_id : Option ℕ
    pub device_id : ℕ
    pub ip : ℕ

  -- `e.deviceId` and `e.ip`: an event has no such attributes, what is known of the device and of the
  -- address is under `e.data`; so both are undefined
  abbrev pub device_id_of : Event d → Option ℕ
  device_id_of e = none

  abbrev pub ip_of : Event d → Option ℕ
  ip_of e = none

  -- `attribute === value`
  abbrev pub is_value : ℕ → Option ℕ → Bool
  is_value value none = false
  is_value value (some a) = a == value

  unfoldable pub same_device : ℕ → List (Event d) → Bool
  same_device device [] = false
  same_device device (e ∷ es) = is_value device (device_id_of e) || same_device device es

  unfoldable pub same_ip : ℕ → List (Event d) → Bool
  same_ip ip [] = false
  same_ip ip (e ∷ es) = is_value ip (ip_of e) || same_ip ip es

  pub data Fraud : Type 0 where
    passed self_referral duplicate_device duplicate_ip : Fraud

  -- `_performFraudCheck`
  unfoldable pub fraud_check : Referral → ℕ → Context → Tracker d → Fraud
  fraud_check r referred c t =
      let earlier = get_events d r.id (some converted) t in
      if r.referrer_id == referred
      then self_referral
      else if truthy c.device_id && same_device c.device_id earlier
      then duplicate_device
      else if truthy c.ip && same_ip c.ip earlier
      then duplicate_ip
      else passed

  pub data Conversion : Type 0 where
    invalid_code inactive_referral expired_code : Conversion
    fraud : Fraud → Conversion
    success : (referral_id referrer_id referred program_id : ℕ) → Conversion

  -- the end of `trackConversion`: the event and the count
  unfoldable pub convert : (now referred : ℕ) → Context → Referral → Engine → Conversion × Engine
  convert now referred c r s = (
    success r.id r.referrer_id referred r.program_id,
    record s {
      referrals = insert r.id (record r { conversions = r.conversions + 1 }) s.referrals;
      tracker =
          track_event d now r.id converted
            (record { user_id = c.user_id; device_id = c.device_id; ip = c.ip; amount = of_ℕ 0 })
            s.tracker;
    },
  )

  abbrev pub detects : Option Program → Bool
  detects none = false
  detects (some p) = p.fraud_detection_enabled

  -- the verdict of the fraud check, if the program asks for it
  abbrev pub suspicion : Referral → ℕ → Context → Engine → Fraud
  suspicion r referred c s =
      if detects (lookup r.program_id s.programs)
      then fraud_check r referred c s.tracker
      else passed

  unfoldable pub settle_conversion :
      Fraud → (now referred : ℕ) → Context → Referral → Engine → Conversion × Engine
  settle_conversion passed now referred c r s = convert now referred c r s
  settle_conversion self_referral now referred c r s = (fraud self_referral, s)
  settle_conversion duplicate_device now referred c r s = (fraud duplicate_device, s)
  settle_conversion duplicate_ip now referred c r s = (fraud duplicate_ip, s)

  unfoldable pub track_conversion : (now code referred : ℕ) → Context → Engine → Conversion × Engine
  track_conversion now code referred c s = elim (find_by_code code s.referrals) [
    | none ↦ (invalid_code, s)
    | some r ↦
        if not (r.status == active)
        then (inactive_referral, s)
        else if ltb r.expires_at now
        then (expired_code, s)
        else settle_conversion (suspicion r referred c s) now referred c r s
  ]

  pub data Processed : Type 0 where
    -- the exceptions
    referral_not_found no_program : Processed
    minimum_not_met : Processed
    paid : (referrer : ℕ) → Commission d → D → Processed

  -- the end of `processCommission`
  unfoldable pub pay : (now referral_id : ℕ) → D → Program → Referral → Engine → Processed × Engine
  pay now referral_id action p r s =
      let c = calculate d (some p.referrer_reward) action in
      (
        paid r.referrer_id c (add r.total_earned c.amount),
        record s {
          referrals =
              insert referral_id (record r { total_earned = add r.total_earned c.amount })
                s.referrals;
          tracker =
              track_event d now r.id commission_earned
                (record { user_id = none; device_id = 0; ip = 0; amount = c.amount }) s.tracker;
        },
      )

  unfoldable pub process_commission : (now referral_id : ℕ) → D → Engine → Processed × Engine
  process_commission now referral_id action s = elim (lookup referral_id s.referrals) [
    | none ↦ (referral_not_found, s)
    | some r ↦ elim (lookup r.program_id s.programs) [
      | none ↦ (no_program, s)
      | some p ↦
          if lt (of_ℕ 0) p.min_purchase_amount && lt action p.min_purchase_amount
          then (minimum_not_met, s)
          else pay now referral_id action p r s
    ]
  ]

  pub data Validity : Type 0 where
    no_code no_longer_active out_of_date : Validity
    valid : Option ℕ → Validity

  unfoldable pub validate_code : (now code : ℕ) → Engine → Validity
  validate_code now code s = elim (find_by_code code s.referrals) [
    | none ↦ no_code
    | some r ↦
        if not (r.status == active)
        then no_longer_active
        else if ltb r.expires_at now
        then out_of_date
        else valid (elim (lookup r.program_id s.programs) [ none ↦ none | some p ↦ some p.name ])
  ]

  unfoldable pub deactivate_referral : (now referral_id : ℕ) → Engine → Engine
  deactivate_referral now referral_id s = elim (lookup referral_id s.referrals) [
    | none ↦ s
    | some r ↦ record s {
      referrals = insert referral_id (record r { status = inactive }) s.referrals;
      tracker = track_event d now referral_id deactivated no_data s.tracker;
    }
  ]

  pub record UserStats : Type 0 where
    pub total_referrals : ℕ
    pub active_referrals : List Referral
    pub total_conversions : ℕ
    pub earned : D

  abbrev pub active_of : List Referral → List Referral
  active_of [] = []
  active_of (r ∷ rs) = if r.status == active then r ∷ active_of rs else active_of rs

  abbrev pub conversions_of : List Referral → ℕ
  conversions_of [] = 0
  conversions_of (r ∷ rs) = r.conversions + conversions_of rs

  abbrev pub earned_of : D → List Referral → D
  earned_of sum [] = sum
  earned_of sum (r ∷ rs) = earned_of (add sum r.total_earned) rs

  unfoldable pub get_user_stats : ℕ → Engine → UserStats
  unfolding user_referrals
  get_user_stats user s =
      let rs = user_referrals user 0 s.referrals in
      record {
        total_referrals = length rs;
        active_referrals = active_of rs;
        total_conversions = conversions_of rs;
        earned = earned_of (of_ℕ 0) rs;
      }
