-- ===== src/Rooms/Joining.antt =====
-- What `join` and `leave` answer, and what they change.
use siam_siam_ecosystem.Common.{
  ℕ, ◌≡◌, refl, Bool, true, false, not, Option, none, some, [], ◌∷◌, ◌&&◌, if◌then◌else◌, ◌==◌,
  truthy, length, arith, Option-cases, Bool-cases, inl, inr, ◌⊎◌, is_some, subst, same, sym, leb,
  or_null, suc, zero,
}
use siam_siam_ecosystem.Dict.{
  lookup, contains, insert, lookup-insert, insert-IsMap, Each-insert, Each-lookup,
  lookup-insert_self,
}
use siam_siam_ecosystem.Sets.{remove, has-add, has-remove, add-IsDistinct, length-add}
use siam_siam_ecosystem.Rooms.Defs.{
  Room, Manager, Options, Joined, joined, enter, join, create, leave, new_room, auto_options,
  with_member, track, remove_member, get_members, get_room_count, without,
}
use siam_siam_ecosystem.Rooms.Membership.{
  member_in, tracked-track, member-insert, member-erase, member_at, member_absent, has_nil,
}
use siam_siam_ecosystem.Rooms.Consistency.{IsConsistent, IsWithin}

-- A room that lets the options in: not locked or the lock bypassed, no password or the right one,
-- and a place left.
abbrev pub admits : Options → Room → Bool
admits o room =
    not (room.is_locked && not o.bypass_lock)
    && not (is_some room.password && not (same o.password room.password))
    && not (truthy room.max_members && leb room.max_members (length room.members))

with_member-IsWithin :
    (member : ℕ) (o : Options) (room : Room)
    → IsWithin room
    → admits o room ≡ true
    → IsWithin (with_member member room)
with_member-IsWithin member o room w a =
    ground (arith, add-IsDistinct member room.members, length-add member room.members)

pub enter-IsConsistent :
    (name member : ℕ) (o : Options) (room : Room) (s : Manager)
    → lookup name s.rooms ≡ some room
    → IsConsistent s
    → IsConsistent (enter name member o room s).1
unfolding enter
enter-IsConsistent name member o room s there c = elim (Bool-cases (admits o room)) [
  | inr refused ↦
      let same_state : (enter name member o room s).1 ≡ s = ground arith in
      subst IsConsistent (sym same_state) c
  | inl let_in ↦ subst IsConsistent (sym (entered let_in)) (record {
    distinct = insert-IsMap name (with_member member room) s.rooms c.distinct;
    within =
        Each-insert IsWithin name (with_member member room) s.rooms
          (with_member-IsWithin member o room
            (Each-lookup IsWithin name room s.rooms c.within there) let_in)
          c.within;
    agreed = λ r m. ground (
      arith,
      c.agreed r m,
      member-insert r m name (with_member member room) s.rooms,
      tracked-track r m name member s.member_rooms,
      has-add m member room.members,
      member_at name m s.rooms there,
    );
  })
]
  where
    entered :
        admits o room ≡ true
        → (enter name member o room s).1 ≡ record {
          rooms = insert name (with_member member room) s.rooms;
          member_rooms = track member name s.member_rooms;
        }
    entered let_in = ground arith

-- A room that does not exist yet can be created under any options.
pub create-IsConsistent :
    (now name : ℕ) (o : Options) (s : Manager)
    → IsConsistent s
    → IsConsistent (create now name o s).1
unfolding create
create-IsConsistent now name o s c = elim (Option-cases (lookup name s.rooms)) [
  | inr (room, there) ↦ rw (there, create) c
  | inl missing ↦
      rw (missing, create)
        (record {
          distinct = insert-IsMap name (new_room now o) s.rooms c.distinct;
          within = Each-insert IsWithin name (new_room now o) s.rooms (omega arith) c.within;
          agreed = λ r m. ground (
            arith,
            c.agreed r m,
            member-insert r m name (new_room now o) s.rooms,
            member_absent name m s.rooms missing,
          );
        })
]

create-lookup :
    (now name : ℕ) (o : Options) (s : Manager)
    → lookup name (create now name o s).1.rooms ≡ some (create now name o s).0
unfolding create
create-lookup now name o s = elim (Option-cases (lookup name s.rooms)) [
  | inr (room, there) ↦ rw (there, create) there
  | inl missing ↦ rw (missing, create) (lookup-insert_self name (new_room now o) s.rooms)
]

pub join-IsConsistent :
    (now name member : ℕ) (o : Options) (s : Manager)
    → IsConsistent s
    → IsConsistent (join now name member o s).1
unfolding join
join-IsConsistent now name member o s c = elim (Option-cases (lookup name s.rooms)) [
  | inr (room, there) ↦ rw (there, join) (enter-IsConsistent name member o room s there c)
  | inl missing ↦
      let (room, s') = create now name (auto_options o) s in
      rw (missing, join)
        (enter-IsConsistent name member o room s' (create-lookup now name (auto_options o) s)
          (create-IsConsistent now name (auto_options o) s c))
]

abbrev pub has_joined : Joined → Bool
has_joined (joined n) = true
has_joined _ = false

-- Joining a room that exists succeeds exactly when the room lets the options in, and then answers
-- the new number of members; it adds the member to the room and to nothing else, and a refused join
-- changes nothing.
pub join_existing :
    (now name member : ℕ) (o : Options) (s : Manager) (q m : ℕ) {room : Room}
    → lookup name s.rooms ≡ some room
    → let (answer, s') = join now name member o s in
      (has_joined answer ≡ admits o room)
      × (member_in q m s'.rooms
          ≡ (if admits o room && (q == name) && (m == member) then true else member_in q m s.rooms))
      × ((s' ≡ s) ⊎ (answer ≡ joined (get_room_count name s')))
unfolding join enter get_room_count
join_existing now name member o s q m {room} there = ground (
  arith,
  member-insert q m name (with_member member room) s.rooms,
  has-add m member room.members,
  member_at name m s.rooms there,
  lookup-insert name name (with_member member room) s.rooms,
)

same-or_null : (p : Option ℕ) → (is_some (or_null p) && not (same p (or_null p))) ≡ false
same-or_null none = refl
same-or_null (some zero) = refl
same-or_null (some (suc n)) = ground arith

-- Joining a room that does not exist makes the room and always succeeds, as its one member, also if
-- the options carry a password or a limit.
pub join_new :
    (now name member : ℕ) (o : Options) (s : Manager)
    → lookup name s.rooms ≡ none
    → let (answer, s') = join now name member o s in
      (answer ≡ joined 1) × (get_members name s' ≡ member ∷ [])
unfolding join enter create get_members
join_new now name member o s missing = ground (
  arith,
  same-or_null o.password,
  lookup-insert name name (with_member member (new_room now (auto_options o)))
      (insert name (new_room now (auto_options o)) s.rooms),
)

-- `leave` answers whether the room exists. It takes the member out of that room and of no other,
-- and nobody else leaves.
pub leave_lem :
    (name member : ℕ) (s : Manager) (q m : ℕ)
    → let (answer, s') = leave name member s in
      (answer ≡ contains name s.rooms)
      × (member_in q m s'.rooms
          ≡ (if (q == name) && (m == member) then false else member_in q m s.rooms))
unfolding leave remove_member
leave_lem name member s q m = elim (Option-cases (lookup name s.rooms)) [
  | inl missing ↦ ground (arith, member_absent name m s.rooms missing)
  | inr (room, there) ↦ ground (
    arith,
    member-insert q m name (without member room) s.rooms,
    member-erase q m name (insert name (without member room) s.rooms),
    has-remove m member room.members,
    member_at name m s.rooms there,
    has_nil m (remove member room.members),
  )
]
