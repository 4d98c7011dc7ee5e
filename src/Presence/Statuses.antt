-- ===== src/Presence/Statuses.antt =====
-- What the calls of the presence tracker do to a user, and to nobody else.
use siam_siam_ecosystem.Common.{
  ℕ, ◌+◌, ◌≡◌, Bool, true, false, Option, none, some, List, [], ◌∷◌, if◌then◌else◌, ◌==◌, length,
  arith, Option-cases, inl, inr, ◌&&◌, length-append, not,
}
use siam_siam_ecosystem.Dict.{lookup, lookup-insert}
use siam_siam_ecosystem.Sets.{has, has-union, has-add}
use siam_siam_ecosystem.Presence.Defs.{
  Users, Presence, Metadata, Status, online, idle, away, offline, set_online, set_offline, set_away,
  set_idle, heartbeat, is_online, online_presence, is_status, get_status, text_or, to_idle, unknown,
  to_away, change, add_device, to_offline,
}

abbrev pub device_of : Metadata → ℕ
device_of meta = text_or unknown meta.device

abbrev pub has_device : ℕ → ℕ → Users → Bool
has_device d user us = elim (lookup user us) [ none ↦ false | some p ↦ has d p.devices ]

abbrev pub history_length : ℕ → Users → ℕ
history_length user us = elim (lookup user us) [ none ↦ 0 | some p ↦ length p.status_history ]

abbrev pub status_of : ℕ → Users → Status
status_of user us = elim (lookup user us) [ none ↦ offline | some p ↦ p.status ]

-- `setOnline` makes the user online, with the new device and every device and session known before,
-- and adds one entry to the status history; nobody else changes.
pub set_online_lem :
    (now fresh_session user : ℕ) (meta : Metadata) (us : Users) (other device : ℕ)
    → let us' = set_online now fresh_session user meta us in
      (is_online user us' ≡ true)
      × (has_device device user us'
          ≡ (if has_device device user us then true else device == device_of meta))
      × (history_length user us' ≡ history_length user us + 1)
      × (lookup other us' ≡ (
          if other == user
          then some (online_presence now fresh_session meta (lookup user us))
          else lookup other us))
unfolding set_online is_online
set_online_lem now fresh_session user meta us other device = elim (Option-cases (lookup user us)) [
  | inl missing ↦ ground (
    arith,
    lookup-insert user user (online_presence now fresh_session meta none) us,
    lookup-insert other user (online_presence now fresh_session meta none) us,
  )
  | inr (p, there) ↦ ground (
    arith,
    lookup-insert user user (online_presence now fresh_session meta (some p)) us,
    lookup-insert other user (online_presence now fresh_session meta (some p)) us,
    has-union device p.devices (device_of meta ∷ []),
    length-append p.status_history (change now p.status online ∷ []),
  )
]

-- A user who is offline or not tracked stays so under `setIdle` and `setAway`; any other becomes
-- idle or away; and `setOffline` leaves every user offline.
pub demotions :
    (now user : ℕ) (us : Users)
    → (status_of user (set_idle now user us)
        ≡ (if is_status (status_of user us) offline then offline else idle))
      × (status_of user (set_away now user us)
          ≡ (if is_status (status_of user us) offline then offline else away))
      × (status_of user (set_offline now user us) ≡ offline)
unfolding set_idle set_away set_offline
demotions now user us = elim (Option-cases (lookup user us)) [
  | inl missing ↦ ground arith
  | inr (p, there) ↦ ground (
    arith,
    lookup-insert user user (to_idle now p) us,
    lookup-insert user user (to_away now p) us,
    lookup-insert user user (to_offline now p) us,
  )
]

has-add_device :
    (d : ℕ) (o : Option ℕ) (ds : List ℕ) → (has d ds && not (has d (add_device o ds))) ≡ false
has-add_device d none ds = ground arith
has-add_device d (some x) ds = ground (arith, has-add d x ds)

-- A heartbeat makes any user online and seen now, and keeps the devices that are known.
pub heartbeat_lem :
    (now fresh_session user : ℕ) (meta : Metadata) (us : Users) (device : ℕ)
    → let us' = heartbeat now fresh_session user meta us in
      (get_status now user us' ≡ (online, some 0))
      × ((has_device device user us && not (has_device device user us')) ≡ false)
unfolding heartbeat get_status
heartbeat_lem now fresh_session user meta us device = elim (Option-cases (lookup user us)) [
  | inl missing ↦
      ground (arith, lookup-insert user user (online_presence now fresh_session meta none) us)
  | inr (p, there) ↦
      let p' : Presence = record p {
        status = online;
        last_seen = now;
        devices = add_device meta.device p.devices;
      } in
      ground (arith, lookup-insert user user p' us, has-add_device device meta.device p.devices)
]
