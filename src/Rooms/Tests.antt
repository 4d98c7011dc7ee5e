-- ===== src/Rooms/Tests.antt =====
-- Runs of the room manager, and its theorems at concrete managers.
use siam_siam_ecosystem.Rooms.Reachable.{empty, reachable-IsConsistent, next, start, joins, leaves}
use siam_siam_ecosystem.Rooms.Consistency.{IsConsistent}
use siam_siam_ecosystem.Common.{none, some, false, ◌∷◌, [], ◌≡◌, refl}
use siam_siam_ecosystem.Rooms.Defs.{
  Options, Manager, join, leave, create, enter, joined, get_history, get_member_rooms, get_members,
  Joined, remove_member, add_message, push_message, delete, remove_members, wrong_password,
}

-- Rooms for two members, with the password 9.
abbrev pair_room : Options
pair_room = record {
  kind = none;
  created_by = 0;
  metadata = 0;
  persistent = false;
  max_members = 2;
  password = some 9;
  allow_broadcast = none;
  allow_invite = none;
  history_size = 3;
  bypass_lock = false;
}

abbrev guest : Options
guest = record pair_room { password = none }

abbrev one : Manager
one = (join 5 1 70 pair_room empty).1

abbrev two : Manager
two = (join 6 1 71 pair_room one).1

runs :
    ((join 6 1 71 guest one).0 ≡ wrong_password)
    × ((join 6 1 71 pair_room one).0 ≡ joined 2)
    × ((join 7 1 72 pair_room two).0 ≡ Joined.is_full)
    × (get_member_rooms 70 two ≡ 1 ∷ [])
    × (get_members 1 (leave 1 70 two).1 ≡ 71 ∷ [])
    × ((delete 1 two).1 ≡ empty)
unfolding join create enter get_member_rooms get_members leave remove_member delete remove_members
runs = (refl, refl, refl, refl, refl, refl)

-- A member of a full room cannot join it again, though it would add nobody.
refused_again : (join 7 1 70 pair_room two).0 ≡ Joined.is_full
unfolding join create enter
refused_again = refl

history_trimmed :
    get_history 1 50
      (add_message 4 1 104 (add_message 3 1 103 (add_message 2 1 102 (add_message 1 1 101 two))))
    ≡ (102, 2) ∷ (103, 3) ∷ (104, 4) ∷ []
unfolding join create enter get_history add_message push_message
history_trimmed = refl

reachable-IsConsistent_example : IsConsistent (leave 1 70 (join 5 1 70 pair_room empty).1).1
reachable-IsConsistent_example =
    reachable-IsConsistent (next (next start (joins 5 1 70 pair_room empty)) (leaves 1 70 _))
