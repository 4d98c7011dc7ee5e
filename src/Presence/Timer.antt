-- ===== src/Presence/Timer.antt =====
-- What one run of the timer does to each user.
use siam_siam_ecosystem.Common.{
  ℕ, ◌≡◌, refl, Option, none, some, [], ◌∷◌, arith, List, ◌≤◌, ◌+◌, ◌-◌, if◌then◌else◌, ◌&&◌, ltb,
  not, All, Option-cases, inl, ◌≢◌, ◌∙◌, inr, ap,
}
use siam_siam_ecosystem.Dict.{lookup, IsMap, lookup-insert}
use siam_siam_ecosystem.Presence.Defs.{
  Users, Presence, tick, tick_one, set_idle, set_away, is_status, online, idle_timeout,
  away_timeout, idle, offline_timeout, to_idle, to_away,
}

abbrev pub after_tick : ℕ → Option Presence → Option Presence
after_tick now none = none
after_tick now (some p) = tick_one now p

lookup-tick-none : (now u : ℕ) (us : Users) → lookup u us ≡ none → lookup u (tick now us) ≡ none
unfolding tick
lookup-tick-none now u [] h = refl
lookup-tick-none now u ((v, p) ∷ us) h = ground (arith, lookup-tick-none now u us)

lookup-tick :
    (now u : ℕ) (us : Users) → IsMap us → lookup u (tick now us) ≡ after_tick now (lookup u us)
unfolding tick
lookup-tick now u [] m = refl
lookup-tick now u ((v, p) ∷ us) m =
    ground (arith, lookup-tick now u us m.1, lookup-tick-none now v us m.0)

pub tick-IsMap : (now : ℕ) (us : Users) → IsMap us → IsMap (tick now us)
unfolding tick
tick-IsMap now [] m = tt
tick-IsMap now ((v, p) ∷ us) m =
    ground (arith, tick-IsMap now us m.1, lookup-tick-none now v us m.0)

-- One run of the timer treats a user as `setIdle` does if the user is online and has been quiet for
-- over 5 minutes, as `setAway` does if idle and quiet for over 10, and removes any other user that
-- is neither online nor idle and has been quiet for over 30; all others stay as they were.
pub tick_lem :
    (now user : ℕ) (us : Users) {p : Presence}
    → IsMap us
    → lookup user us ≡ some p
    → let found = lookup user (tick now us) in
      let quiet = now - p.last_seen in
      (found ≡ (
        if is_status p.status online && ltb idle_timeout quiet
        then lookup user (set_idle now user us)
        else if is_status p.status idle && ltb away_timeout quiet
        then lookup user (set_away now user us)
        else if not (is_status p.status online)
            && not (is_status p.status idle)
            && ltb offline_timeout quiet
        then none
        else some p))
unfolding set_idle set_away tick_one
tick_lem now user us {p} m there = ground (
  arith,
  lookup-tick now user us m,
  lookup-insert user user (to_idle now p) us,
  lookup-insert user user (to_away now p) us,
)

-- the runs of the timer at the given times, with no call in between
unfoldable pub run_ticks : List ℕ → Users → Users
run_ticks [] us = us
run_ticks (t ∷ ts) us = run_ticks ts (tick t us)

-- the time up to which the timer keeps the user
abbrev pub kept_until : Presence → ℕ
kept_until p = p.last_seen + (elim p.status [
  | online ↦ idle_timeout + away_timeout + offline_timeout
  | idle ↦ away_timeout + offline_timeout
  | _ ↦ offline_timeout
])

All-weaken : (a b : ℕ) → a ≤ b → (ts : List ℕ) → All (λ t. t ≤ a) ts → All (λ t. t ≤ b) ts
All-weaken a b l [] h = tt
All-weaken a b l (t ∷ ts) (first, rest) = (omega arith, All-weaken a b l ts rest)

tick_one_keeps :
    (now : ℕ) (p : Presence)
    → now ≤ kept_until p
    → (p' : Presence) × (tick_one now p ≡ some p') × (kept_until p ≤ kept_until p')
unfolding tick_one
tick_one_keeps now p h = elim (Option-cases (tick_one now p)) [
  | inl removed ↦ absurd (ground arith)
  | inr (p', e) ↦ (p', e, ground arith)
]

-- A tracked user is still tracked after any runs of the timer, as long as each comes before the
-- user's time is up: 45 minutes after an online user was last seen, 40 after an idle one became
-- idle, and 30 for the others.
pub run_ticks_keeps :
    (ts : List ℕ) (user : ℕ) (us : Users) (p : Presence)
    → IsMap us
    → lookup user us ≡ some p
    → All (λ t. t ≤ kept_until p) ts
    → lookup user (run_ticks ts us) ≢ none
unfolding run_ticks
run_ticks_keeps [] user us p m there h = ground arith
run_ticks_keeps (t ∷ ts) user us p m there (first, rest) =
    let (p', ticked, later) = tick_one_keeps t p first in
    run_ticks_keeps ts user (tick t us) p' (tick-IsMap t us m)
      (lookup-tick t user us m ∙ ap (after_tick t) there ∙ ticked)
      (All-weaken (kept_until p) (kept_until p') later ts rest)
