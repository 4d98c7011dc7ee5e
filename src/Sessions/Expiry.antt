-- ===== src/Sessions/Expiry.antt =====
-- How long a session lasts, and what the clean-up takes away.
use siam_siam_ecosystem.Sessions.Limits.{live-absent}
use siam_siam_ecosystem.Sessions.Navigation.{get_live, touched_keeps}
use siam_siam_ecosystem.Dict.{Dict, lookup, IsMap, lookup-erase_self, insert, lookup-insert_self}
use siam_siam_ecosystem.Common.{
  ℕ, Option, List, ◌∷◌, ◌≡◌, [], some, ◌≤◌, ◌+◌, if◌then◌else◌, arith, true, is_some, ltb, ◌||◌,
  ◌<◌, refl, not, none, ap, ◌∙◌, subst, sym,
}
use siam_siam_ecosystem.Sessions.Defs.{
  get, live, cleanup_expired_sessions, destroy, Session, Manager, touched,
}
use Prim.Native.Nat.{ℕ}

-- `get` of the session at each of these times
pub poll : ℕ → List ℕ → Manager → Manager
poll id [] m = m
poll id (t ∷ ts) m = poll id ts (get t id m).1

-- each time is at most the timeout after the one before
abbrev pub OnTime : ℕ → ℕ → List ℕ → Type 0
OnTime timeout last [] = Unit
OnTime timeout last (t ∷ ts) = (t ≤ last + timeout) × OnTime timeout t ts

abbrev pub last_of : ℕ → List ℕ → ℕ
last_of last [] = last
last_of last (t ∷ ts) = last_of t ts

poll_keeps :
    (id timeout last : ℕ) (ts : List ℕ) (m : Manager) (s : Session)
    → m.session_timeout ≡ timeout
    → lookup id m.sessions ≡ some s
    → s.is_active ≡ true
    → s.expires_at ≡ last + timeout
    → OnTime timeout last ts
    → (s' : Session) × (lookup id (poll id ts m).sessions ≡ some s')
      × (s'.is_active ≡ true)
      × (s'.expires_at ≡ last_of last ts + timeout)
unfolding poll
poll_keeps id timeout last [] m s w e alive till on = (s, e, alive, till)
poll_keeps id timeout last (t ∷ ts) m s w e alive till on =
    let g = get_live t id m s e alive (omega arith) in
    let s' = touched t m.session_timeout s in
    let kept = touched_keeps t m.session_timeout s in
    subst
      (λ (n : Manager).
        (x : Session) × (lookup id (poll id ts n).sessions ≡ some x)
        × (x.is_active ≡ true)
        × (x.expires_at ≡ last_of t ts + timeout))
      (sym (ap (λ (r : Option Session × Manager). r.1) g))
      (poll_keeps id timeout t ts (record m { sessions = insert id s' m.sessions }) s' w
        (lookup-insert_self id s' m.sessions) (kept.2 ∙ alive) (omega arith) on.1)

-- An active session that runs out one timeout after `last` is found at every time of a series in
-- which each time is at most the timeout after the one before, however long the series is; and the
-- first time that comes later than that finds nothing and takes the session away.
pub get-poll :
    (id last : ℕ) (ts : List ℕ) (later : ℕ) (m : Manager) (s : Session)
    → lookup id m.sessions ≡ some s
    → s.is_active ≡ true
    → s.expires_at ≡ last + m.session_timeout
    → OnTime m.session_timeout last ts
    → (later ≤ last_of last ts + m.session_timeout → is_some (get later id (poll id ts m)).0 ≡ true)
      × (last_of last ts + m.session_timeout < later
          → ((get later id (poll id ts m)).0 ≡ none)
            × (lookup id (get later id (poll id ts m)).1.sessions ≡ none))
unfolding get destroy
get-poll id last ts later m s e alive till on =
    let (s', e', alive', till') =
      poll_keeps id m.session_timeout last ts m s refl e alive till on in
    (
      λ early. ground (arith, e', alive', till'),
      λ late. ground (arith, e', alive', till', lookup-erase_self id (poll id ts m).sessions),
    )

-- what the clean-up at `now` leaves of an entry
abbrev pub left_of : ℕ → Option Session → Option Session
left_of now none = none
left_of now (some s) = if ltb s.expires_at now || not s.is_active then none else some s

lookup-live :
    (now k : ℕ) (d : Dict Session) → IsMap d → lookup k (live now d) ≡ left_of now (lookup k d)
unfolding live
lookup-live now k [] h = refl
lookup-live now k ((j, s) ∷ d) h = ground (arith, lookup-live now k d h.1, live-absent now k d)

-- The clean-up takes away only what no later call would find: for any session, `get` gives the same
-- with it and without it.
pub get-cleanup_expired_sessions :
    (now later id : ℕ) (m : Manager)
    → IsMap m.sessions
    → now ≤ later
    → (get later id (cleanup_expired_sessions now m)).0 ≡ (get later id m).0
unfolding get cleanup_expired_sessions
get-cleanup_expired_sessions now later id m distinct h =
    ground (arith, lookup-live now id m.sessions distinct)
