-- ===== src/Presence/Tests.antt =====
-- Runs of the presence tracker, and its theorems at concrete users.
use siam_siam_ecosystem.Presence.Timer.{run_ticks, run_ticks_keeps}
use siam_siam_ecosystem.Dict.{lookup}
use siam_siam_ecosystem.Common.{none, some, ◌∷◌, [], ◌≡◌, refl, ◌≢◌, arith}
use siam_siam_ecosystem.Presence.Defs.{
  Users, Metadata, Presence, online, offline, set_online, set_offline,
}

abbrev phone : Metadata
phone = record { device = some 7; session_id = some 8; rest = 0 }

abbrev someone : Presence
someone = record {
  status = online;
  last_seen = 1000;
  connected_at = 1000;
  devices = 7 ∷ [];
  sessions = 8 ∷ [];
  metadata = 0;
  status_history = record { from = offline; to = online; timestamp = 1000 } ∷ [];
}

abbrev users : Users
users = (5, someone) ∷ []

connects : set_online 1000 99 5 phone [] ≡ users
unfolding set_online
connects = refl

-- The entry that `setOffline` writes says that the user was offline before.
offline_from_offline :
    set_offline 2000 5 users
    ≡ (
      5,
      record someone {
        status = offline;
        last_seen = 2000;
        status_history =
            record { from = offline; to = online; timestamp = 1000 }
            ∷ record { from = offline; to = offline; timestamp = 2000 }
            ∷ [];
      },
    )
      ∷ []
unfolding set_offline
offline_from_offline = refl

run_ticks_keeps_example : lookup 5 (run_ticks (400_000 ∷ 1_100_000 ∷ 2_700_000 ∷ []) users) ≢ none
run_ticks_keeps_example =
    run_ticks_keeps (400_000 ∷ 1_100_000 ∷ 2_700_000 ∷ []) 5 users someone (refl, tt) refl
      (omega arith)
