-- ===== src/Presence/Counts.antt =====
-- The statistics count each user once.
use siam_siam_ecosystem.Common.{ℕ, ◌+◌, ◌≡◌, [], ◌∷◌, length, arith}
use siam_siam_ecosystem.Presence.Defs.{
  Users, Status, online, idle, away, offline, Counters, count_loop, count_status, get_stats,
  get_users_by_status,
}

abbrev number : Status → Users → ℕ
number s us = length (get_users_by_status s us)

count_loop_lem :
    (us : Users) (c : Counters)
    → let r = count_loop us c in
      (r.online_count ≡ c.online_count + number online us)
      × (r.idle_count ≡ c.idle_count + number idle us)
      × (r.away_count ≡ c.away_count + number away us)
unfolding count_loop get_users_by_status
count_loop_lem [] c = omega arith
count_loop_lem ((user, p) ∷ us) c = ground (arith, count_loop_lem us (count_status p.status c))

number_total :
    (us : Users)
    → number online us + number idle us + number away us + number offline us ≡ length us
unfolding get_users_by_status
number_total [] = omega arith
number_total ((user, p) ∷ us) = ground (arith, number_total us)

-- Each counter of `getStats` is the number of users that `getUsersByStatus` lists for that status,
-- also the offline one, which the code finds by subtraction, and the four add up to the total.
pub get_stats_lem :
    (us : Users)
    → let s = get_stats us in
      (s.counters.online_count ≡ length (get_users_by_status online us))
      × (s.counters.idle_count ≡ length (get_users_by_status idle us))
      × (s.counters.away_count ≡ length (get_users_by_status away us))
      × (s.offline_count ≡ length (get_users_by_status offline us))
      × (s.counters.online_count + s.counters.idle_count + s.counters.away_count + s.offline_count
          ≡ s.total)
unfolding get_stats
get_stats_lem us = omega (
  arith,
  count_loop_lem us (record { online_count = 0; idle_count = 0; away_count = 0 }),
  number_total us,
)
