-- ===== src/Sessions/Stats.antt =====
-- What `getStats` counts.
use siam_siam_ecosystem.Common.{◌∷◌, ◌+◌, ◌-◌, ◌≤◌, [], suc, arith}
use Prim.Native.Nat.{ℕ}
use siam_siam_ecosystem.Dict.{Dict, insert, lookup}
use siam_siam_ecosystem.Common.{ℕ, ◌+◌, ◌≡◌, length, ◌≤◌, arith, ◌-◌, []}
use siam_siam_ecosystem.Sessions.Defs.{
  live, count_active, get_stats, Session, cleanup_expired_sessions, Manager, value_of,
}

abbrev pub total : Dict ℕ → ℕ
total [] = 0
total ((k, n) ∷ d) = n + total d

total-insert : (k n : ℕ) (d : Dict ℕ) → total (insert k n d) + value_of (lookup k d) ≡ total d + n
total-insert k n [] = omega arith
total-insert k n ((j, m) ∷ d) = ground (arith, total-insert k n d)

count_active_lem :
    (now : ℕ) (d : Dict Session) (active : ℕ) (by_menu : Dict ℕ)
    → ((count_active now d active by_menu).0 ≡ active + length (live now d))
      × (total (count_active now d active by_menu).1 ≡ total by_menu + length (live now d))
unfolding count_active live
count_active_lem now [] active by_menu = omega arith
count_active_lem now ((k, s) ∷ d) active by_menu =
    let more = insert s.current_menu (suc (value_of (lookup s.current_menu by_menu))) by_menu in
    ground (
      arith,
      count_active_lem now d (active + 1) more,
      count_active_lem now d active by_menu,
      total-insert s.current_menu (suc (value_of (lookup s.current_menu by_menu))) by_menu,
    )

length-live-le : (now : ℕ) (d : Dict Session) → length (live now d) ≤ length d
unfolding live
length-live-le now [] = omega arith
length-live-le now ((k, s) ∷ d) = ground (arith, length-live-le now d)

-- The statistics and the clean-up agree: the active sessions are as many as a clean-up at that time
-- would leave, the expired ones as many as it would take, both together are all, and the numbers for
-- the menus add up to the active ones.
pub get_stats_cleanup :
    (now : ℕ) (m : Manager)
    → ((get_stats now m).active_sessions ≡ length (cleanup_expired_sessions now m).sessions)
      × ((get_stats now m).expired_sessions
          ≡ length m.sessions - length (cleanup_expired_sessions now m).sessions)
      × ((get_stats now m).active_sessions + (get_stats now m).expired_sessions
          ≡ (get_stats now m).total_sessions)
      × (total (get_stats now m).by_menu ≡ (get_stats now m).active_sessions)
unfolding get_stats cleanup_expired_sessions
get_stats_cleanup now m =
    ground (arith, count_active_lem now m.sessions 0 [], length-live-le now m.sessions)
