-- ===== src/Engine/Tests.antt =====
-- Runs of the referral engine in thousandths, and its theorems at concrete states.
use siam_siam_ecosystem.Tracker.Defs.{
  Data, Tracker, track_event, get_events, has_duplicate, trim, converted, commission_earned,
}
use siam_siam_ecosystem.Engine.Conversions.{new, reached_once, next, start, creates, converts}
use siam_siam_ecosystem.Double.{thousandths}
use siam_siam_ecosystem.Engine.Outcomes.{track_conversion-fraud_check}
use siam_siam_ecosystem.Common.{length, none, ◌∷◌, [], refl, ◌≡◌, some, ◌≤◌, ◌≢◌, arith}
use siam_siam_ecosystem.Engine.Defs.{
  Context, create_referral, Engine, Program, track_conversion, Referral, create_for, default,
  create_program, program_of, find_by_code, default_config, active, fraud_check, fraud,
  self_referral, same_device, same_ip, settle_conversion, convert, user_referrals, success,
}

abbrev begun : Engine thousandths
begun = (create_referral thousandths 1000 50 7 default 900 0 (new thousandths)).1

abbrev phone : Context thousandths
phone = record { user_id = none; device_id = 77; ip = 0 }

abbrev tablet : Context thousandths
tablet = record { user_id = none; device_id = 78; ip = 0 }

abbrev phone_data : Data thousandths
phone_data = record { user_id = none; device_id = 77; ip = 0; amount = 0 }

abbrev after_two : Engine thousandths
after_two =
    (track_conversion thousandths 3000 900 9 tablet
      (track_conversion thousandths 2000 900 8 phone begun).1).1

-- The same device converts twice and is not refused; only the first conversion is on record.
tablet_again :
    (track_conversion thousandths 4000 900 10 tablet after_two).0 ≡ success 50 7 10 default
unfolding create_referral create_for create_program track_conversion find_by_code fraud_check
    same_device same_ip settle_conversion convert user_referrals track_event has_duplicate trim
    get_events
tablet_again = refl

abbrev referral_50 : Referral thousandths
referral_50 = record {
  id = 50;
  referrer_id = 7;
  program_id = default;
  code = 900;
  status = active;
  expires_at = 9000;
  conversions = 1;
  total_earned = 0;
}

abbrev simple : Program thousandths
simple = program_of thousandths default (default_config thousandths)

abbrev earlier : Tracker thousandths
earlier =
    (50, record { referral_id = 50; type = converted; info = phone_data; timestamp = 5 } ∷ []) ∷ []

-- a referral with a conversion from the telephone
abbrev with_referral : Engine thousandths
with_referral = record {
  programs = (default, simple) ∷ [];
  referrals = (50, referral_50) ∷ [];
  tracker = earlier;
}

reached_once_example :
    (length (get_events thousandths 50 (some converted) after_two.tracker) ≤ 1)
    × (length (get_events thousandths 50 (some commission_earned) after_two.tracker) ≤ 1)
reached_once_example = reached_once thousandths 50 (
    next (next (next start (creates 1000 50 7 default 900 0)) (converts 2000 900 8 phone refl))
      (converts 3000 900 9 tablet refl))

track_conversion-fraud_check_example :
    (referral_50.referrer_id ≡ 8
      → track_conversion thousandths 3000 900 8 phone with_referral
        ≡ (fraud self_referral, with_referral))
    × (referral_50.referrer_id ≢ 8
        → track_conversion thousandths 3000 900 8 phone with_referral
          ≡ convert thousandths 3000 8 phone referral_50 with_referral)
unfolding find_by_code
track_conversion-fraud_check_example =
    track_conversion-fraud_check thousandths 3000 900 8 phone referral_50 simple with_referral refl
      (omega arith) refl refl
