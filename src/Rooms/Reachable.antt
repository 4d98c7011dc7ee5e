-- ===== src/Rooms/Reachable.antt =====
-- Every sequence of calls keeps the two maps of the room manager in agreement.
use siam_siam_ecosystem.Sets.{has}
use siam_siam_ecosystem.Common.{
  ℕ, ◌≡◌, refl, Bool, none, some, [], ◌∷◌, length, arith, Option-cases, Bool-cases, inl, inr,
  length-append, length-drop, ap, ◌∙◌, ◌++◌, ◌-◌,
}
use siam_siam_ecosystem.Dict.{
  Dict, lookup, insert, IsMap, insert-IsMap, Each-insert, Each-lookup, Each,
}
use siam_siam_ecosystem.Rooms.Defs.{
  Room, Manager, Options, create, join, leave, delete, set_lock, add_message, push_message, sweep,
  cleanup_empty_rooms, is_idle, Message,
}
use siam_siam_ecosystem.Rooms.Membership.{tracked_in, member_in, member-insert, member_at, has_nil}
use siam_siam_ecosystem.Rooms.Consistency.{
  IsConsistent, IsWithin, delete-IsConsistent, leave-IsConsistent,
}
use siam_siam_ecosystem.Rooms.Joining.{join-IsConsistent, create-IsConsistent}

-- A room may be replaced by one with the same members.
replace-IsConsistent :
    (name : ℕ) (room room' : Room) (s : Manager)
    → lookup name s.rooms ≡ some room
    → room'.members ≡ room.members
    → IsWithin room'
    → IsConsistent s
    → IsConsistent (record s { rooms = insert name room' s.rooms })
replace-IsConsistent name room room' s there same_members w c = record {
  distinct = insert-IsMap name room' s.rooms c.distinct;
  within = Each-insert IsWithin name room' s.rooms w c.within;
  agreed = λ r m. ground (
    arith,
    c.agreed r m,
    member-insert r m name room' s.rooms,
    member_at name m s.rooms there,
    ap (has m) same_members,
  );
}

set_lock-IsConsistent :
    (name : ℕ) (lock : Bool) (s : Manager) → IsConsistent s → IsConsistent (set_lock name lock s).1
unfolding set_lock
set_lock-IsConsistent name lock s c = elim (Option-cases (lookup name s.rooms)) [
  | inl missing ↦ rw (missing, set_lock) c
  | inr (room, there) ↦
      let w = Each-lookup IsWithin name room s.rooms c.within there in
      rw (there, set_lock)
        (replace-IsConsistent name room (record room { is_locked = lock }) s there refl
          (ground arith) c)
]

push_message-IsWithin : (m : Message) (room : Room) → IsWithin room → IsWithin (push_message m room)
unfolding push_message
push_message-IsWithin m room w = ground (
  arith,
  length-append room.history (m ∷ []),
  length-drop (length (room.history ++ (m ∷ [])) - room.history_size) (room.history ++ (m ∷ [])),
)

push_message-members : (m : Message) (room : Room) → (push_message m room).members ≡ room.members
unfolding push_message
push_message-members m room = refl

add_message-IsConsistent :
    (now name message : ℕ) (s : Manager)
    → IsConsistent s
    → IsConsistent (add_message now name message s)
unfolding add_message
add_message-IsConsistent now name message s c = elim (Option-cases (lookup name s.rooms)) [
  | inl missing ↦ rw (missing, add_message) c
  | inr (room, there) ↦
      let w = Each-lookup IsWithin name room s.rooms c.within there in
      rw (there, add_message)
        (replace-IsConsistent name room (push_message (message, now) room) s there
          (push_message-members (message, now) room) (push_message-IsWithin (message, now) room w)
          c)
]

lookup-sweep-none : (name : ℕ) (d : Dict Room) → lookup name d ≡ none → lookup name (sweep d) ≡ none
unfolding sweep
lookup-sweep-none name [] e = refl
lookup-sweep-none name ((j, room) ∷ d) e = ground (arith, lookup-sweep-none name d)

sweep-IsMap : (d : Dict Room) → IsMap d → IsMap (sweep d)
unfolding sweep
sweep-IsMap [] m = tt
sweep-IsMap ((j, room) ∷ d) m = ground (arith, sweep-IsMap d m.1, lookup-sweep-none j d m.0)

sweep-Each : (d : Dict Room) → Each IsWithin d → Each IsWithin (sweep d)
unfolding sweep
sweep-Each [] w = tt
sweep-Each ((j, room) ∷ d) w = elim (Bool-cases (is_idle room)) [
  | inl idle ↦ rw (idle, sweep, Each) (sweep-Each d w.1)
  | inr kept ↦ rw (kept, sweep, Each) (w.0, sweep-Each d w.1)
]

member-sweep :
    (name m : ℕ) (d : Dict Room) → IsMap d → member_in name m (sweep d) ≡ member_in name m d
unfolding sweep member_in
member-sweep name m [] k = refl
member-sweep name m ((j, room) ∷ d) k =
    ground (arith, member-sweep name m d k.1, has_nil m room.members, lookup-sweep-none j d k.0)

-- The timer drops rooms that nobody is in.
cleanup-IsConsistent : (s : Manager) → IsConsistent s → IsConsistent (cleanup_empty_rooms s)
unfolding cleanup_empty_rooms
cleanup-IsConsistent s c = record {
  distinct = sweep-IsMap s.rooms c.distinct;
  within = sweep-Each s.rooms c.within;
  agreed = λ r m. member-sweep r m s.rooms c.distinct ∙ c.agreed r m;
}

-- One call that changes the manager, or a run of its timer.
pub data Step : Manager → Manager → Type 0 where
  creates : (now name : ℕ) (o : Options) (s : Manager) → Step s (create now name o s).1
  deletes : (name : ℕ) (s : Manager) → Step s (delete name s).1
  joins : (now name member : ℕ) (o : Options) (s : Manager) → Step s (join now name member o s).1
  leaves : (name member : ℕ) (s : Manager) → Step s (leave name member s).1
  locks : (name : ℕ) (lock : Bool) (s : Manager) → Step s (set_lock name lock s).1
  posts : (now name message : ℕ) (s : Manager) → Step s (add_message now name message s)
  sweeps : (s : Manager) → Step s (cleanup_empty_rooms s)

pub data Reach (s : Manager) : Manager → Type 0 where
  start : Reach s s
  next : {t u : Manager} → Reach s t → Step t u → Reach s u

Step-IsConsistent : {s t : Manager} → Step s t → IsConsistent s → IsConsistent t
Step-IsConsistent (creates now name o s) c = create-IsConsistent now name o s c
Step-IsConsistent (deletes name s) c = delete-IsConsistent name s c
Step-IsConsistent (joins now name member o s) c = join-IsConsistent now name member o s c
Step-IsConsistent (leaves name member s) c = leave-IsConsistent name member s c
Step-IsConsistent (locks name lock s) c = set_lock-IsConsistent name lock s c
Step-IsConsistent (posts now name message s) c = add_message-IsConsistent now name message s c
Step-IsConsistent (sweeps s) c = cleanup-IsConsistent s c

Reach-IsConsistent : {s t : Manager} → IsConsistent s → Reach s t → IsConsistent t
Reach-IsConsistent c start = c
Reach-IsConsistent c (next r st) = Step-IsConsistent st (Reach-IsConsistent c r)

abbrev pub empty : Manager
empty = record { rooms = []; member_rooms = [] }

empty-IsConsistent : IsConsistent empty
unfolding member_in tracked_in
empty-IsConsistent = record { distinct = tt; within = tt; agreed = λ r m. refl }

-- After any sequence of calls and timer runs from the empty manager, a room lists a member exactly
-- when the member lists the room; every room keeps to its limit of members and of history; and no
-- member is listed twice.
pub reachable-IsConsistent : {s : Manager} → Reach empty s → IsConsistent s
reachable-IsConsistent = Reach-IsConsistent empty-IsConsistent
