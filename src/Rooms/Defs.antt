-- ===== src/Rooms/Defs.antt =====
-- `class RoomManager`. Names, passwords and messages are numbers, as texts that are only compared; a
-- call reads the clock once. The two maps refer to rooms by name, and a room is changed in its map.
use siam_siam_ecosystem.Common.{
  ℕ, ◌+◌, ◌/◌, ◌*◌, Bool, true, false, not, Option, none, some, List, [], ◌∷◌, ◌++◌, ◌&&◌, ltb, leb,
  if◌then◌else◌, truthy, or_default, or_null, same, length, is_some, last_n,
}
use siam_siam_ecosystem.Dict.{Dict, lookup, insert, erase}
use siam_siam_ecosystem.Sets.{has, add, remove}

-- a message and its time stamp
abbrev pub Message : Type 0
Message = ℕ × ℕ

pub record Room : Type 0 where
  pub kind : ℕ
  pub created_at : ℕ
  pub created_by : ℕ
  pub members : List ℕ
  pub metadata : ℕ
  pub persistent : Bool
  pub max_members : ℕ
  pub is_locked : Bool
  pub password : Option ℕ
  pub total_joined : ℕ
  pub total_left : ℕ
  pub messages_count : ℕ
  pub allow_broadcast : Bool
  pub allow_invite : Bool
  pub history_size : ℕ
  pub history : List Message

-- `options` of `create` and `join`; a number that is not given is 0
pub record Options : Type 0 where
  pub kind : Option ℕ
  pub created_by : ℕ
  pub metadata : ℕ
  pub persistent : Bool
  pub max_members : ℕ
  pub password : Option ℕ
  pub allow_broadcast : Option Bool
  pub allow_invite : Option Bool
  pub history_size : ℕ
  pub bypass_lock : Bool

-- the texts 'general', 'auto' and 'system'
abbrev pub general : ℕ
general = 1

abbrev pub auto : ℕ
auto = 2

abbrev pub system : ℕ
system = 3

pub record Manager : Type 0 where
  pub rooms : Dict Room
  pub member_rooms : Dict (List ℕ)

-- `options.type || 'general'`
abbrev kind_of : Option ℕ → ℕ
kind_of none = general
kind_of (some k) = or_default k general

-- `flag !== false`
abbrev not_false : Option Bool → Bool
not_false (some false) = false
not_false _ = true

abbrev pub new_room : ℕ → Options → Room
new_room now o = record {
  kind = kind_of o.kind;
  created_at = now;
  created_by = or_default o.created_by system;
  members = [];
  metadata = o.metadata;
  persistent = o.persistent;
  max_members = o.max_members;
  is_locked = false;
  password = or_null o.password;
  total_joined = 0;
  total_left = 0;
  messages_count = 0;
  allow_broadcast = not_false o.allow_broadcast;
  allow_invite = not_false o.allow_invite;
  history_size = or_default o.history_size 100;
  history = [];
}

-- `create` returns the room that is there, or a new one.
unfoldable pub create : ℕ → ℕ → Options → Manager → Room × Manager
create now name o s = elim (lookup name s.rooms) [
  | some room ↦ (room, s)
  | none ↦ (new_room now o, record s { rooms = insert name (new_room now o) s.rooms })
]

-- `_removeMemberFromRoom`: the member's side
abbrev pub untrack : ℕ → ℕ → Dict (List ℕ) → Dict (List ℕ)
untrack member name tracks = elim (lookup member tracks) [
  | none ↦ tracks
  | some names ↦
      let left = remove name names in
      if truthy (length left) then insert member left tracks else erase member tracks
]

abbrev pub without : ℕ → Room → Room
without member room = record room {
  members = remove member room.members;
  total_left = room.total_left + 1;
}

unfoldable pub remove_member : ℕ → ℕ → Manager → Manager
remove_member member name s = elim (lookup name s.rooms) [
  | none ↦ s
  | some room ↦ record {
    rooms = insert name (without member room) s.rooms;
    member_rooms = untrack member name s.member_rooms;
  }
]

-- the loop of `delete` over the members, each of which it removes from the set it runs over
unfoldable pub remove_members : List ℕ → ℕ → Manager → Manager
remove_members [] name s = s
remove_members (m ∷ ms) name s = remove_members ms name (remove_member m name s)

unfoldable pub delete : ℕ → Manager → Bool × Manager
delete name s = elim (lookup name s.rooms) [
  | none ↦ (false, s)
  | some room ↦
      let s' = remove_members room.members name s in
      (true, record s' { rooms = erase name s'.rooms })
]

pub data Joined : Type 0 where
  joined : ℕ → Joined
  locked : Joined
  wrong_password : Joined
  is_full : Joined

-- `{ type: 'auto', ...options }`
abbrev pub auto_options : Options → Options
auto_options o = record o { kind = elim o.kind [ none ↦ some auto | some k ↦ some k ] }

abbrev pub with_member : ℕ → Room → Room
with_member member room = record room {
  members = add member room.members;
  total_joined = room.total_joined + 1;
}

abbrev pub track : ℕ → ℕ → Dict (List ℕ) → Dict (List ℕ)
track member name tracks = elim (lookup member tracks) [
  | none ↦ insert member (name ∷ []) tracks
  | some names ↦ insert member (add name names) tracks
]

-- the part of `join` after the room has been found or made
unfoldable pub enter : ℕ → ℕ → Options → Room → Manager → Joined × Manager
enter name member o room s =
    if room.is_locked && not o.bypass_lock
    then (locked, s)
    else if is_some room.password && not (same o.password room.password)
    then (wrong_password, s)
    else if truthy room.max_members && leb room.max_members (length room.members)
    then (is_full, s)
    else (
      joined (length (add member room.members)),
      record {
        rooms = insert name (with_member member room) s.rooms;
        member_rooms = track member name s.member_rooms;
      },
    )

unfoldable pub join : ℕ → ℕ → ℕ → Options → Manager → Joined × Manager
join now name member o s = elim (lookup name s.rooms) [
  | some room ↦ enter name member o room s
  | none ↦ let (room, s') = create now name (auto_options o) s in enter name member o room s'
]

-- `leave`: the room is the one in the map after the removal
unfoldable pub leave : ℕ → ℕ → Manager → Bool × Manager
leave name member s = elim (lookup name s.rooms) [
  | none ↦ (false, s)
  | some room ↦
      let s' = remove_member member name s in
      let left = without member room in
      if not left.persistent && not (truthy (length left.members))
      then (true, record s' { rooms = erase name s'.rooms })
      else (true, s')
]

unfoldable pub get_members : ℕ → Manager → List ℕ
get_members name s = elim (lookup name s.rooms) [ none ↦ [] | some room ↦ room.members ]

unfoldable pub get_member_rooms : ℕ → Manager → List ℕ
get_member_rooms member s = elim (lookup member s.member_rooms) [ none ↦ [] | some names ↦ names ]

unfoldable pub is_member : ℕ → ℕ → Manager → Bool
is_member name member s = elim (lookup name s.rooms) [
  | none ↦ false
  | some room ↦ has member room.members
]

unfoldable pub get_room_count : ℕ → Manager → ℕ
get_room_count name s = elim (lookup name s.rooms) [ none ↦ 0 | some room ↦ length room.members ]

unfoldable pub set_lock : ℕ → Bool → Manager → Bool × Manager
set_lock name lock s = elim (lookup name s.rooms) [
  | none ↦ (false, s)
  | some room ↦ (true, record s { rooms = insert name (record room { is_locked = lock }) s.rooms })
]

-- the message list after `push` and the trim
unfoldable pub push_message : Message → Room → Room
push_message m room =
    let history = room.history ++ (m ∷ []) in
    record room {
      history =
          if ltb room.history_size (length history)
          then last_n room.history_size history
          else history;
      messages_count = room.messages_count + 1;
    }

unfoldable pub add_message : ℕ → ℕ → ℕ → Manager → Manager
add_message now name message s = elim (lookup name s.rooms) [
  | none ↦ s
  | some room ↦ record s { rooms = insert name (push_message (message, now) room) s.rooms }
]

-- `getHistory`; `slice(-0)` is the whole list
unfoldable pub get_history : ℕ → ℕ → Manager → List Message
get_history name limit s = elim (lookup name s.rooms) [
  | none ↦ []
  | some room ↦ if truthy limit then last_n limit room.history else room.history
]

-- `_cleanupEmptyRooms`, which the timer runs
abbrev pub is_idle : Room → Bool
is_idle room = not room.persistent && not (truthy (length room.members))

unfoldable pub sweep : Dict Room → Dict Room
sweep [] = []
sweep ((name, room) ∷ d) = if is_idle room then sweep d else (name, room) ∷ sweep d

unfoldable pub cleanup_empty_rooms : Manager → Manager
cleanup_empty_rooms s = record s { rooms = sweep s.rooms }

-- the sum that `getStats` calls `totalMembers`, and its average, rounded half up
unfoldable pub total_members : Dict Room → ℕ
total_members [] = 0
total_members ((name, room) ∷ d) = length room.members + total_members d

unfoldable pub average_members : Manager → ℕ
average_members s =
    if truthy (length s.rooms)
    then (2 * total_members s.rooms + length s.rooms) / (2 * length s.rooms)
    else 0

-- `_countByType`
unfoldable pub count_by_type : Dict Room → Dict ℕ → Dict ℕ
count_by_type [] counts = counts
count_by_type ((name, room) ∷ d) counts =
    count_by_type d
      (insert room.kind ((elim (lookup room.kind counts) [ none ↦ 0 | some n ↦ n ]) + 1) counts)
