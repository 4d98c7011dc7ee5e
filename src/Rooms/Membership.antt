-- ===== src/Rooms/Membership.antt =====
-- Who is in a room by the room's own set, and by the member's set of rooms, after each change.
use siam_siam_ecosystem.Common.{
  ℕ, ◌≡◌, refl, Bool, true, false, none, some, List, [], ◌∷◌, ◌&&◌, if◌then◌else◌, ◌==◌, truthy,
  length, arith, Option-cases, Bool-cases, inl, inr,
}
use siam_siam_ecosystem.Dict.{Dict, lookup, insert, erase, lookup-insert, lookup-erase}
use siam_siam_ecosystem.Sets.{has, add, remove, has-add, has-remove}
use siam_siam_ecosystem.Rooms.Defs.{Room, untrack, track}

-- `getMemberRooms(member).includes(name)`
unfoldable pub tracked_in : ℕ → ℕ → Dict (List ℕ) → Bool
tracked_in name member tracks = elim (lookup member tracks) [
  | none ↦ false
  | some names ↦ has name names
]

unfoldable pub member_in : ℕ → ℕ → Dict Room → Bool
member_in name member rooms = elim (lookup name rooms) [
  | none ↦ false
  | some room ↦ has member room.members
]

pub has_nil : (a : ℕ) (xs : List ℕ) → truthy (length xs) ≡ false → has a xs ≡ false
has_nil a [] h = refl
has_nil a (x ∷ xs) h = ground arith

pub tracked-untrack :
    (r m name member : ℕ) (t : Dict (List ℕ))
    → tracked_in r m (untrack member name t)
      ≡ (if (r == name) && (m == member) then false else tracked_in r m t)
unfolding tracked_in
tracked-untrack r m name member t = elim (Option-cases (lookup member t)) [
  | inl missing ↦ ground (arith)
  | inr (names, there) ↦ elim (Bool-cases (truthy (length (remove name names)))) [
    | inl some_left ↦
        ground (arith, lookup-insert m member (remove name names) t, has-remove r name names)
    | inr none_left ↦ ground (
      arith,
      lookup-erase m member t,
      has-remove r name names,
      has_nil r (remove name names) none_left,
    )
  ]
]

pub tracked-track :
    (r m name member : ℕ) (t : Dict (List ℕ))
    → tracked_in r m (track member name t)
      ≡ (if (r == name) && (m == member) then true else tracked_in r m t)
unfolding tracked_in
tracked-track r m name member t = elim (Option-cases (lookup member t)) [
  | inl missing ↦ ground (arith, lookup-insert m member (name ∷ []) t)
  | inr (names, there) ↦
      ground (arith, lookup-insert m member (add name names) t, has-add r name names)
]

pub member-insert :
    (r m name : ℕ) (room : Room) (d : Dict Room)
    → member_in r m (insert name room d)
      ≡ (if r == name then has m room.members else member_in r m d)
unfolding member_in
member-insert r m name room d = ground (arith, lookup-insert r name room d)

pub member-erase :
    (r m name : ℕ) (d : Dict Room)
    → member_in r m (erase name d) ≡ (if r == name then false else member_in r m d)
unfolding member_in
member-erase r m name d = ground (arith, lookup-erase r name d)

pub member_at :
    (name m : ℕ) {room : Room} (d : Dict Room)
    → lookup name d ≡ some room
    → member_in name m d ≡ has m room.members
unfolding member_in
member_at name m d e = ground arith

pub member_absent : (name m : ℕ) (d : Dict Room) → lookup name d ≡ none → member_in name m d ≡ false
unfolding member_in
member_absent name m d e = ground arith
