-- ===== src/Presence/Defs.antt =====
-- `class PresenceTracker`. A call reads the clock once; users, devices, sessions and the metadata
-- object are numbers, and a device or session that is not given is `none`.
use siam_siam_ecosystem.Common.{
  ℕ, ◌+◌, ◌-◌, Bool, true, false, Option, none, some, List, [], ◌∷◌, ◌++◌, ◌&&◌, ltb, if◌then◌else◌,
  truthy, or_default, length,
}
use siam_siam_ecosystem.Dict.{Dict, lookup, insert}
use siam_siam_ecosystem.Sets.{add, union}

pub data Status : Type 0 where
  online idle away offline : Status

-- an entry of `statusHistory`
pub record Change : Type 0 where
  pub from : Status
  pub to : Status
  pub timestamp : ℕ

pub record Presence : Type 0 where
  pub status : Status
  pub last_seen : ℕ
  pub connected_at : ℕ
  pub devices : List ℕ
  pub sessions : List ℕ
  pub metadata : ℕ
  pub status_history : List Change

pub record Metadata : Type 0 where
  pub device : Option ℕ
  pub session_id : Option ℕ
  pub rest : ℕ

abbrev pub Users : Type 0
Users = Dict Presence

-- the text 'unknown'
abbrev pub unknown : ℕ
unknown = 1

abbrev pub idle_timeout : ℕ
idle_timeout = 300_000

abbrev pub away_timeout : ℕ
away_timeout = 600_000

abbrev pub offline_timeout : ℕ
offline_timeout = 1_800_000

abbrev pub is_status : Status → Status → Bool
is_status online online = true
is_status idle idle = true
is_status away away = true
is_status offline offline = true
is_status _ _ = false

abbrev pub text_or : ℕ → Option ℕ → ℕ
text_or d none = d
text_or d (some t) = or_default t d

abbrev pub change : ℕ → Status → Status → Change
change now from to = record { from = from; to = to; timestamp = now }

abbrev pub joined : Option Presence → List ℕ → (Presence → List ℕ) → List ℕ
joined none new old = new
joined (some p) new old = union (old p) new

abbrev pub old_status : Option Presence → Status
old_status none = offline
old_status (some p) = p.status

abbrev pub old_history : Option Presence → List Change
old_history none = []
old_history (some p) = p.status_history

-- the object that `setOnline` stores; `fresh_session` is the text `sess_${Date.now()}`
abbrev pub online_presence : ℕ → ℕ → Metadata → Option Presence → Presence
online_presence now fresh_session meta existing = record {
  status = online;
  last_seen = now;
  connected_at = now;
  devices = joined existing (text_or unknown meta.device ∷ []) (λ p. p.devices);
  sessions = joined existing (text_or fresh_session meta.session_id ∷ []) (λ p. p.sessions);
  metadata = meta.rest;
  status_history = old_history existing ++ (change now (old_status existing) online ∷ []);
}

unfoldable pub set_online : ℕ → ℕ → ℕ → Metadata → Users → Users
set_online now fresh_session user meta us =
    insert user (online_presence now fresh_session meta (lookup user us)) us

-- The status is set before it is read for the history, so the entry says from 'offline'.
abbrev pub to_offline : ℕ → Presence → Presence
to_offline now p = record p {
  status = offline;
  last_seen = now;
  status_history = p.status_history ++ (change now offline offline ∷ []);
}

unfoldable pub set_offline : ℕ → ℕ → Users → Users
set_offline now user us = elim (lookup user us) [
  | none ↦ us
  | some p ↦ insert user (to_offline now p) us
]

abbrev pub to_away : ℕ → Presence → Presence
to_away now p = record p {
  status = away;
  last_seen = now;
  status_history = p.status_history ++ (change now online away ∷ []);
}

unfoldable pub set_away : ℕ → ℕ → Users → Users
set_away now user us = elim (lookup user us) [
  | none ↦ us
  | some p ↦ if is_status p.status offline then us else insert user (to_away now p) us
]

abbrev pub to_idle : ℕ → Presence → Presence
to_idle now p = record p { status = idle; last_seen = now }

unfoldable pub set_idle : ℕ → ℕ → Users → Users
set_idle now user us = elim (lookup user us) [
  | none ↦ us
  | some p ↦ if is_status p.status offline then us else insert user (to_idle now p) us
]

abbrev pub add_device : Option ℕ → List ℕ → List ℕ
add_device none ds = ds
add_device (some d) ds = if truthy d then add d ds else ds

unfoldable pub heartbeat : ℕ → ℕ → ℕ → Metadata → Users → Users
unfolding set_online
heartbeat now fresh_session user meta us = elim (lookup user us) [
  | none ↦ set_online now fresh_session user meta us
  | some p ↦
      insert user
        (record p { status = online; last_seen = now; devices = add_device meta.device p.devices })
        us
]

-- the fields of `getStatus`; `lastSeenAgo` is `now - lastSeen`, and the clock does not go back
unfoldable pub get_status : ℕ → ℕ → Users → Status × Option ℕ
get_status now user us = elim (lookup user us) [
  | none ↦ (offline, none)
  | some p ↦ (p.status, some (now - p.last_seen))
]

unfoldable pub get_users_by_status : Status → Users → List ℕ
get_users_by_status s [] = []
get_users_by_status s ((user, p) ∷ us) =
    if is_status p.status s then user ∷ get_users_by_status s us else get_users_by_status s us

unfoldable pub get_online_users : Users → List ℕ
unfolding get_users_by_status
get_online_users = get_users_by_status online

pub record Counters : Type 0 where
  pub online_count : ℕ
  pub idle_count : ℕ
  pub away_count : ℕ

-- the `switch` of `getStats`
abbrev pub count_status : Status → Counters → Counters
count_status online c = record c { online_count = c.online_count + 1 }
count_status idle c = record c { idle_count = c.idle_count + 1 }
count_status away c = record c { away_count = c.away_count + 1 }
count_status offline c = c

unfoldable pub count_loop : Users → Counters → Counters
count_loop [] c = c
count_loop ((user, p) ∷ us) c = count_loop us (count_status p.status c)

pub record Stats : Type 0 where
  pub total : ℕ
  pub counters : Counters
  pub offline_count : ℕ

unfoldable pub get_stats : Users → Stats
get_stats us =
    let c = count_loop us (record { online_count = 0; idle_count = 0; away_count = 0 }) in
    record {
      total = length us;
      counters = c;
      offline_count = length us - c.online_count - c.idle_count - c.away_count;
    }

unfoldable pub is_online : ℕ → Users → Bool
is_online user us = elim (lookup user us) [ none ↦ false | some p ↦ is_status p.status online ]

unfoldable pub get_last_activity : ℕ → ℕ → Users → Option ℕ
get_last_activity now user us = elim (lookup user us) [
  | none ↦ none
  | some p ↦ some (now - p.last_seen)
]

-- what the timer does to one user: `none` when the user is removed
unfoldable pub tick_one : ℕ → Presence → Option Presence
tick_one now p =
    let quiet = now - p.last_seen in
    if is_status p.status online && ltb idle_timeout quiet
    then some (to_idle now p)
    else if is_status p.status idle && ltb away_timeout quiet
    then some (to_away now p)
    else if ltb offline_timeout quiet
    then none
    else some p

-- the loop of `_startCleanup`'s timer, which changes only the entry it has come to
unfoldable pub tick : ℕ → Users → Users
tick now [] = []
tick now ((user, p) ∷ us) = elim (tick_one now p) [
  | none ↦ tick now us
  | some p' ↦ (user, p') ∷ tick now us
]
