-- ===== src/Rooms/Views.antt =====
-- The queries of the room manager that describe rooms: `getInfo` and `getAllRooms`.
use siam_siam_ecosystem.Dict.{Dict, lookup}
use siam_siam_ecosystem.Rooms.Defs.{Manager, Room}
use siam_siam_ecosystem.Common.{none, some, [], ◌∷◌, ℕ, Option, List, Bool, length, is_some}

pub record Info : Type 0 where
  pub name : ℕ
  pub kind : ℕ
  pub created_at : ℕ
  pub member_count : ℕ
  pub persistent : Bool
  pub is_locked : Bool
  pub has_password : Bool
  pub total_joined : ℕ
  pub total_left : ℕ
  pub messages_count : ℕ
  pub metadata : ℕ

-- `getInfo`
unfoldable pub get_info : ℕ → Manager → Option Info
get_info name s = elim (lookup name s.rooms) [
  | none ↦ none
  | some room ↦ some (record {
    name = name;
    kind = room.kind;
    created_at = room.created_at;
    member_count = length room.members;
    persistent = room.persistent;
    is_locked = room.is_locked;
    has_password = is_some room.password;
    total_joined = room.total_joined;
    total_left = room.total_left;
    messages_count = room.messages_count;
    metadata = room.metadata;
  })
]

pub record Listed : Type 0 where
  pub name : ℕ
  pub kind : ℕ
  pub member_count : ℕ
  pub persistent : Bool
  pub is_locked : Bool

unfoldable pub list_rooms : Dict Room → List Listed
list_rooms [] = []
list_rooms ((name, room) ∷ d) =
    record {
      name = name;
      kind = room.kind;
      member_count = length room.members;
      persistent = room.persistent;
      is_locked = room.is_locked;
    }
    ∷ list_rooms d

-- `getAllRooms`
unfoldable pub get_all_rooms : Manager → List Listed
get_all_rooms s = list_rooms s.rooms
