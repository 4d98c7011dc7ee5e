-- ===== src/Sessions/Limits.antt =====
-- What holds of the sessions in every reachable state.
use siam_siam_ecosystem.Dict.{
  Dict, erase, IsMap, insert, lookup, Each, insert-IsMap, Each-insert, erase_absent,
}
use Prim.Native.Nat.{ℕ}
use siam_siam_ecosystem.Common.{
  ℕ, Option-cases, List, ◌≡◌, ◌≤◌, inl, refl, ◌∷◌, inr, ◌<◌, arith, [], Bool-cases, truthy, true,
  none, leb, ◌⊎◌, List-cases,
}
use siam_siam_ecosystem.Sessions.Defs.{
  destroy, Manager, Session, sessions_by_phone, get, create, make_room, Updates, new_session,
  cleanup_expired_sessions, update, live, new, go_back, go_home, set_data, get_data, clear_data,
}
use siam_siam_ecosystem.Sessions.Counting.{on_phone, Stored, InSync}
use siam_siam_ecosystem.Sessions.Changes.{
  IsSound, on_phone-insert, on_phone-erase_first, Stored-insert, erase-IsSound, destroy-IsSound,
  get-IsSound, with_session-IsSound, Keeps-refl, updated-Keeps, back-Keeps, home-Keeps,
  data_of-Keeps,
}

-- `destroy` takes the session out, whether it is there or not.
pub destroy_erases :
    (k : ℕ) (m : Manager) → (destroy k m).1 ≡ record m { sessions = erase k m.sessions }
unfolding destroy
destroy_erases k m = elim (Option-cases (lookup k m.sessions)) [
  | inl e ↦ rw (e, destroy, erase_absent k m.sessions e)
  | inr (s, e) ↦ rw (e, destroy)
]

-- `make_room` finds the phone below its limit, or destroys the first of its sessions.
make_room_cases :
    (phone : ℕ) (m : Manager)
    → 0 < m.max_sessions_per_phone
    → ((make_room phone m ≡ m) × (on_phone phone m.sessions < m.max_sessions_per_phone))
      ⊎ ((o : Session) × (rest : List Session) × (sessions_by_phone phone m.sessions ≡ o ∷ rest)
          × (make_room phone m ≡ record m { sessions = erase o.id m.sessions }))
unfolding make_room
make_room_cases phone m pos =
    elim (Bool-cases (leb m.max_sessions_per_phone (on_phone phone m.sessions))) [
      | inr few ↦ inl (simp (few, make_room), ground arith)
      | inl full ↦ elim (List-cases (sessions_by_phone phone m.sessions)) [
        | inl e ↦ absurd (ground arith)
        | inr (o, rest, e) ↦ inr (o, rest, e, ground (arith, destroy_erases o.id m))
      ]
    ]

make_room-max :
    (phone : ℕ) (m : Manager)
    → 0 < m.max_sessions_per_phone
    → (make_room phone m).max_sessions_per_phone ≡ m.max_sessions_per_phone
make_room-max phone m pos = elim (make_room_cases phone m pos) [
  | inl (e, _) ↦ rw e
  | inr (o, rest, _, e) ↦ rw e
]

-- The phone has room for one more.
on_phone-make_room :
    (phone : ℕ) (m : Manager)
    → IsSound m
    → on_phone phone (make_room phone m).sessions < m.max_sessions_per_phone
on_phone-make_room phone m v = elim (make_room_cases phone m v.room) [
  | inl (e, h) ↦ rw e h
  | inr (o, rest, first, e) ↦
      rw e
        (omega (arith, on_phone-erase_first phone o rest m.sessions first v.stored, v.capped phone))
]

make_room-IsSound : (phone : ℕ) (m : Manager) → IsSound m → IsSound (make_room phone m)
make_room-IsSound phone m v = elim (make_room_cases phone m v.room) [
  | inl (e, _) ↦ rw e v
  | inr (o, rest, _, e) ↦ rw e (erase-IsSound o.id m v)
]

pub create-IsSound :
    (now id phone menu : ℕ) (metadata : Dict ℕ) (m : Manager)
    → truthy menu ≡ true
    → IsSound m
    → IsSound (create now id phone menu metadata m).1
unfolding create
create-IsSound now id phone menu metadata m h v =
    let m' = make_room phone m in
    let v' = make_room-IsSound phone m v in
    let s = new_session now m.session_timeout id phone menu metadata in
    record {
      distinct = insert-IsMap id s m'.sessions v'.distinct;
      stored = Stored-insert id s m'.sessions refl v'.stored;
      synced = Each-insert InSync id s m'.sessions (ground arith) v'.synced;
      room = v'.room;
      capped = λ p. ground (
        arith,
        on_phone-insert p id s m'.sessions,
        on_phone-make_room phone m v,
        v'.capped p,
        make_room-max phone m,
      );
    }

live-Stored : (now : ℕ) (d : Dict Session) → Stored d → Stored (live now d)
unfolding live
live-Stored now [] h = tt
live-Stored now ((k, s) ∷ d) h = ground (arith, live-Stored now d)

pub live-absent : (now k : ℕ) (d : Dict Session) → lookup k d ≡ none → lookup k (live now d) ≡ none
unfolding live
live-absent now k [] h = refl
live-absent now k ((j, s) ∷ d) h = ground (arith, live-absent now k d)

live-IsMap : (now : ℕ) (d : Dict Session) → IsMap d → IsMap (live now d)
unfolding live
live-IsMap now [] h = tt
live-IsMap now ((k, s) ∷ d) h = ground (arith, live-IsMap now d, live-absent now k d)

live-Each : (now : ℕ) (d : Dict Session) → Each InSync d → Each InSync (live now d)
unfolding live
live-Each now [] h = tt
live-Each now ((k, s) ∷ d) h = ground (arith, live-Each now d)

on_phone-live-le : (now p : ℕ) (d : Dict Session) → on_phone p (live now d) ≤ on_phone p d
unfolding live sessions_by_phone
on_phone-live-le now p [] = omega arith
on_phone-live-le now p ((k, s) ∷ d) = ground (arith, on_phone-live-le now p d)

cleanup_expired_sessions-IsSound :
    (now : ℕ) (m : Manager) → IsSound m → IsSound (cleanup_expired_sessions now m)
unfolding cleanup_expired_sessions
cleanup_expired_sessions-IsSound now m v = record {
  distinct = live-IsMap now m.sessions v.distinct;
  stored = live-Stored now m.sessions v.stored;
  synced = live-Each now m.sessions v.synced;
  room = v.room;
  capped = λ p. omega (arith, on_phone-live-le now p m.sessions, v.capped p);
}

-- the calls and the timer; a menu that is given is not the empty text
pub data Step (m : Manager) : Manager → Type 0 where
  creates :
      (now id phone menu : ℕ) (metadata : Dict ℕ)
      → truthy menu ≡ true
      → Step m (create now id phone menu metadata m).1
  gets : (now id : ℕ) → Step m (get now id m).1
  updates : (now id : ℕ) (u : Updates) → Step m (update now id u m).1
  goes_back : (now id : ℕ) → Step m (go_back now id m).1
  goes_home : (now id : ℕ) → Step m (go_home now id m).1
  destroys : (id : ℕ) → Step m (destroy id m).1
  sets_data : (now id key value : ℕ) → Step m (set_data now id key value m).1
  gets_data : (now id key : ℕ) → Step m (get_data now id key m).1
  clears_data : (now id : ℕ) → Step m (clear_data now id m).1
  cleans_up : (now : ℕ) → Step m (cleanup_expired_sessions now m)

pub data Reach (m : Manager) : Manager → Type 0 where
  start : Reach m m
  next : {t u : Manager} → Reach m t → Step t u → Reach m u

Step-IsSound : {m m' : Manager} → Step m m' → IsSound m → IsSound m'
unfolding update go_back go_home set_data get_data clear_data
Step-IsSound {m} (creates now id phone menu metadata h) v =
    create-IsSound now id phone menu metadata m h v
Step-IsSound {m} (gets now id) v = get-IsSound now id m v
Step-IsSound {m} (updates now id u) v =
    with_session-IsSound now id _ _ m (updated-Keeps now m.session_timeout u) v
Step-IsSound {m} (goes_back now id) v = with_session-IsSound now id _ _ m back-Keeps v
Step-IsSound {m} (goes_home now id) v = with_session-IsSound now id _ _ m home-Keeps v
Step-IsSound {m} (destroys id) v = destroy-IsSound id m v
Step-IsSound {m} (sets_data now id key value) v =
    with_session-IsSound now id _ _ m (λ s. data_of-Keeps (insert key value s.data_of) s) v
Step-IsSound {m} (gets_data now id key) v = with_session-IsSound now id _ _ m Keeps-refl v
Step-IsSound {m} (clears_data now id) v = with_session-IsSound now id _ _ m (data_of-Keeps []) v
Step-IsSound {m} (cleans_up now) v = cleanup_expired_sessions-IsSound now m v

Reach-IsSound : {m t : Manager} → IsSound m → Reach m t → IsSound t
Reach-IsSound v start = v
Reach-IsSound v (next r st) = Step-IsSound st (Reach-IsSound v r)

new-IsSound : IsSound new
unfolding sessions_by_phone
new-IsSound = record {
  distinct = tt;
  stored = tt;
  synced = tt;
  room = omega arith;
  capped = λ p. omega arith;
}

-- In every state that calls and timer runs can lead to from the start, as long as no session is created
-- with the empty text as its menu: identifiers are distinct and each session is stored under its own;
-- a session's current menu is the top of its menu stack, or the main menu where the stack is empty;
-- and no phone number has more than the allowed number of sessions.
pub reached-IsSound : {m : Manager} → Reach new m → IsSound m
reached-IsSound = Reach-IsSound new-IsSound
