-- ===== src/Rooms/Consistency.antt =====
-- The rooms' sets of members and the members' sets of rooms agree, whatever is done.
use siam_siam_ecosystem.Common.{
  ℕ, ◌≡◌, arith, Option-cases, inl, inr, if◌then◌else◌, false, List, ◌==◌, Bool-cases, ◌⊎◌, ◌&&◌,
  length, ◌≤◌, ◌∷◌, [],
}
use siam_siam_ecosystem.Dict.{
  lookup, IsMap, insert-IsMap, Each, erase, Each-insert, Each-lookup, erase-IsMap, Each-erase,
}
use siam_siam_ecosystem.Sets.{
  has-remove, IsDistinct, remove-IsDistinct, length-remove-le, has, remove,
}
use siam_siam_ecosystem.Rooms.Defs.{
  Manager, without, remove_member, leave, delete, remove_members, Room, is_idle,
}
use siam_siam_ecosystem.Rooms.Membership.{
  tracked_in, member_in, tracked-untrack, member-insert, member_at, member_absent, has_nil,
  member-erase,
}

-- A room's members are distinct and no more than its limit, where it has one, and its history is no
-- longer than its size.
pub record IsWithin (room : Room) : Type 0 where
  pub distinct : IsDistinct room.members
  pub limited : (room.max_members ≡ 0) ⊎ (length room.members ≤ room.max_members)
  pub recent : length room.history ≤ room.history_size

pub record IsConsistent (s : Manager) : Type 0 where
  pub distinct : IsMap s.rooms
  pub within : Each IsWithin s.rooms
  pub agreed : (r m : ℕ) → member_in r m s.rooms ≡ tracked_in r m s.member_rooms

without-IsWithin : (member : ℕ) (room : Room) → IsWithin room → IsWithin (without member room)
without-IsWithin member room w =
    ground (arith, remove-IsDistinct member room.members, length-remove-le member room.members)

pub remove_member-IsConsistent :
    (member name : ℕ) (s : Manager) → IsConsistent s → IsConsistent (remove_member member name s)
unfolding remove_member
remove_member-IsConsistent member name s c = elim (Option-cases (lookup name s.rooms)) [
  | inl missing ↦ rw (missing, remove_member) c
  | inr (room, there) ↦
      rw (there, remove_member)
        (record {
          distinct = insert-IsMap name (without member room) s.rooms c.distinct;
          within =
              Each-insert IsWithin name (without member room) s.rooms
                (without-IsWithin member room
                  (Each-lookup IsWithin name room s.rooms c.within there))
                c.within;
          agreed = λ r m. ground (
            arith,
            c.agreed r m,
            member-insert r m name (without member room) s.rooms,
            tracked-untrack r m name member s.member_rooms,
            has-remove m member room.members,
            member_at name m s.rooms there,
          );
        })
]

pub remove_members-IsConsistent :
    (ms : List ℕ) (name : ℕ) (s : Manager)
    → IsConsistent s
    → IsConsistent (remove_members ms name s)
unfolding remove_members
remove_members-IsConsistent [] name s c = c
remove_members-IsConsistent (m ∷ ms) name s c =
    remove_members-IsConsistent ms name (remove_member m name s)
      (remove_member-IsConsistent m name s c)

member-remove_member :
    (r m member name : ℕ) (s : Manager)
    → member_in r m (remove_member member name s).rooms
      ≡ (if (r == name) && (m == member) then false else member_in r m s.rooms)
unfolding remove_member
member-remove_member r m member name s = elim (Option-cases (lookup name s.rooms)) [
  | inl missing ↦ ground (arith, member_absent name m s.rooms missing)
  | inr (room, there) ↦ ground (
    arith,
    member-insert r m name (without member room) s.rooms,
    has-remove m member room.members,
    member_at name m s.rooms there,
  )
]

member-remove_members :
    (r m : ℕ) (ms : List ℕ) (name : ℕ) (s : Manager)
    → member_in r m (remove_members ms name s).rooms
      ≡ (if (r == name) && has m ms then false else member_in r m s.rooms)
unfolding remove_members
member-remove_members r m [] name s = ground arith
member-remove_members r m (x ∷ ms) name s = ground (
  arith,
  member-remove_members r m ms name (remove_member x name s),
  member-remove_member r m x name s,
)

-- A room without members can be dropped from the map.
erase-IsConsistent :
    (name : ℕ) (s : Manager)
    → IsConsistent s
    → ((m : ℕ) → member_in name m s.rooms ≡ false)
    → IsConsistent (record s { rooms = erase name s.rooms })
erase-IsConsistent name s c empty = record {
  distinct = erase-IsMap name s.rooms c.distinct;
  within = Each-erase IsWithin name s.rooms c.within;
  agreed = λ r m. ground (arith, c.agreed r m, member-erase r m name s.rooms, empty m);
}

pub delete-IsConsistent : (name : ℕ) (s : Manager) → IsConsistent s → IsConsistent (delete name s).1
unfolding delete
delete-IsConsistent name s c = elim (Option-cases (lookup name s.rooms)) [
  | inl missing ↦ rw (missing, delete) c
  | inr (room, there) ↦
      rw (there, delete)
        (erase-IsConsistent name (remove_members room.members name s)
          (remove_members-IsConsistent room.members name s c)
          (λ m. ground (
            arith,
            member-remove_members name m room.members name s,
            member_at name m s.rooms there,
          )))
]

pub leave-IsConsistent :
    (name member : ℕ) (s : Manager) → IsConsistent s → IsConsistent (leave name member s).1
unfolding leave
leave-IsConsistent name member s c = elim (Option-cases (lookup name s.rooms)) [
  | inl missing ↦ rw (missing, leave) c
  | inr (room, there) ↦
      let s' = remove_member member name s in
      let c' = remove_member-IsConsistent member name s c in
      elim (Bool-cases (is_idle (without member room))) [
        | inr kept ↦ rw (there, kept, leave) c'
        | inl idle ↦
            rw (there, idle, leave)
              (erase-IsConsistent name s' c' (λ m. ground (
                arith,
                member-remove_member name m member name s,
                member_at name m s.rooms there,
                has_nil m (remove member room.members),
                has-remove m member room.members,
              )))
      ]
]
