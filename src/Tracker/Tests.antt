-- ===== src/Tracker/Tests.antt =====
-- A run of the tracker in thousandths.
use siam_siam_ecosystem.Common.{none, [], ◌≡◌, refl}
use siam_siam_ecosystem.Double.{thousandths}
use siam_siam_ecosystem.Tracker.Defs.{
  Data, get_referral_stats, Tracker, track_event, converted, has_duplicate, clicked, trim,
}

abbrev click : Data thousandths
click = record { user_id = none; device_id = 0; ip = 0; amount = 0 }

abbrev tracked : Tracker thousandths
tracked =
    track_event thousandths 3 1 converted click
      (track_event thousandths 2 1 converted click (track_event thousandths 1 1 clicked click []))

-- Two conversions are reported, one is recorded.
counted_once : (get_referral_stats thousandths 1 tracked).counters.conversions ≡ 1
unfolding get_referral_stats track_event has_duplicate trim
counted_once = refl
