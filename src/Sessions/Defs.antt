-- ===== src/Sessions/Defs.antt =====
-- `class USSDSessionManager`. Identifiers, phone numbers, menus and values are numbers; a call reads
-- the clock once and is given the identifier that `_generateSessionId` draws. A change of a session
-- object is an `insert` under its key, which keeps the session's place in the map.
use siam_siam_ecosystem.Common.{
  ℕ, suc, ◌+◌, ◌-◌, Bool, true, false, not, ◌&&◌, ◌||◌, Option, none, some, List, [], ◌∷◌, ◌++◌,
  ltb, leb, ◌==◌, if◌then◌else◌, truthy, or_default, or_null, length,
}
use siam_siam_ecosystem.Dict.{Dict, lookup, insert, erase}

-- the text 'main_menu'
abbrev pub main_menu : ℕ
main_menu = 1

-- the keys of a session's metadata that the manager itself writes, and two of its texts
abbrev pub created_at_key : ℕ
created_at_key = 1

abbrev pub last_activity_key : ℕ
last_activity_key = 2

abbrev pub request_count_key : ℕ
request_count_key = 3

abbrev pub language_key : ℕ
language_key = 4

abbrev pub network_provider_key : ℕ
network_provider_key = 5

abbrev pub session_type_key : ℕ
session_type_key = 6

abbrev pub en : ℕ
en = 1

abbrev pub user : ℕ
user = 1

pub record Input : Type 0 where
  pub input : ℕ
  pub menu : ℕ
  pub timestamp : ℕ

pub record Session : Type 0 where
  pub id : ℕ
  pub phone_number : ℕ
  pub current_menu : ℕ
  pub previous_menu : Option ℕ
  pub menu_stack : List ℕ
  pub data_of : Dict ℕ
  pub input_history : List Input
  pub metadata : Dict ℕ
  pub is_active : Bool
  pub expires_at : ℕ

pub record Manager : Type 0 where
  pub sessions : Dict Session
  pub session_timeout : ℕ
  pub max_sessions_per_phone : ℕ

abbrev pub new : Manager
new = record { sessions = []; session_timeout = 120_000; max_sessions_per_phone = 3 }

-- the value under a key, `undefined` and `null` being 0
abbrev pub value_of : Option ℕ → ℕ
value_of none = 0
value_of (some n) = n

-- `{ ...a, ...b }`
abbrev pub spread : Dict ℕ → Dict ℕ → Dict ℕ
spread a [] = a
spread a ((k, v) ∷ b) = spread (insert k v a) b

-- `_getSessionsByPhone`. The sort compares ISO texts by `-`, which is `NaN`, so it leaves the order of
-- insertion.
unfoldable pub sessions_by_phone : ℕ → Dict Session → List Session
sessions_by_phone phone [] = []
sessions_by_phone phone ((id, s) ∷ d) =
    if (s.phone_number == phone) && s.is_active
    then s ∷ sessions_by_phone phone d
    else sessions_by_phone phone d

unfoldable pub get_sessions_by_phone : ℕ → Manager → List Session
get_sessions_by_phone phone m = sessions_by_phone phone m.sessions

unfoldable pub destroy : ℕ → Manager → Bool × Manager
destroy id m = elim (lookup id m.sessions) [
  | none ↦ (false, m)
  | some s ↦ (true, record m { sessions = erase id m.sessions })
]

-- the metadata of a new session
abbrev pub metadata_of : ℕ → Dict ℕ → Dict ℕ
metadata_of now metadata = spread metadata (
    (created_at_key, now)
    ∷ ((last_activity_key, now)
        ∷ ((request_count_key, 0)
            ∷ ((language_key, or_default (value_of (lookup language_key metadata)) en)
                ∷ ((network_provider_key, value_of (lookup network_provider_key metadata))
                    ∷ ((
                      session_type_key,
                      or_default (value_of (lookup session_type_key metadata)) user,
                    )
                        ∷ []))))))

abbrev pub new_session : ℕ → ℕ → ℕ → ℕ → ℕ → Dict ℕ → Session
new_session now timeout id phone initial_menu metadata = record {
  id = id;
  phone_number = phone;
  current_menu = initial_menu;
  previous_menu = none;
  menu_stack = initial_menu ∷ [];
  data_of = [];
  input_history = [];
  metadata = metadata_of now metadata;
  is_active = true;
  expires_at = now + timeout;
}

-- `create`: first the room for one more session of the phone
unfoldable pub make_room : ℕ → Manager → Manager
make_room phone m =
    let existing = sessions_by_phone phone m.sessions in
    if leb m.max_sessions_per_phone (length existing)
    then (elim existing [ [] ↦ m | oldest ∷ _ ↦ (destroy oldest.id m).1 ])
    else m

unfoldable pub create : (now id phone initial_menu : ℕ) → Dict ℕ → Manager → Session × Manager
create now id phone initial_menu metadata m =
    let m' = make_room phone m in
    let s = new_session now m.session_timeout id phone initial_menu metadata in
    (s, record m' { sessions = insert id s m'.sessions })

-- what `get` makes of a session that it returns
unfoldable pub touched : ℕ → ℕ → Session → Session
touched now timeout s = record s {
  metadata =
      insert request_count_key (suc (value_of (lookup request_count_key s.metadata)))
        (insert last_activity_key now s.metadata);
  expires_at = now + timeout;
}

unfoldable pub get : ℕ → ℕ → Manager → Option Session × Manager
get now id m = elim (lookup id m.sessions) [
  | none ↦ (none, m)
  | some s ↦
      if not s.is_active
      then (none, m)
      else if ltb s.expires_at now
      then (none, (destroy id m).1)
      else (
        some (touched now m.session_timeout s),
        record m { sessions = insert id (touched now m.session_timeout s) m.sessions },
      )
]

-- The shape of the operations that follow: `get` the session, or give up with `failure`; then the
-- session is changed in its place.
abbrev pub with_session {ℓ} :
    {R : Type ℓ} → ℕ → ℕ → R → (Session → R × Session) → Manager → R × Manager
with_session now id failure change m =
    let (found, m') = get now id m in
    elim found [
      | none ↦ (failure, m')
      | some s ↦ ((change s).0, record m' { sessions = insert id (change s).1 m'.sessions })
    ]

pub record Updates : Type 0 where
  pub current_menu : Option ℕ
  pub data_of : Option (Dict ℕ)
  pub input : Option ℕ
  pub metadata : Option (Dict ℕ)

abbrev pub go_to : Option ℕ → Session → Session
go_to none s = s
go_to (some menu) s =
    if truthy menu && not (menu == s.current_menu)
    then record s {
      previous_menu = some s.current_menu;
      current_menu = menu;
      menu_stack = s.menu_stack ++ (menu ∷ []);
    }
    else s

abbrev pub put_data : Option (Dict ℕ) → Session → Session
put_data none s = s
put_data (some more) s = record s { data_of = spread s.data_of more }

abbrev pub put_input : ℕ → Option ℕ → Session → Session
put_input now none s = s
put_input now (some i) s = record s {
  input_history =
      s.input_history ++ (record { input = i; menu = s.current_menu; timestamp = now } ∷ []);
}

abbrev pub put_metadata : Option (Dict ℕ) → Session → Session
put_metadata none s = s
put_metadata (some more) s = record s { metadata = spread s.metadata more }

unfoldable pub updated : ℕ → ℕ → Updates → Session → Session
updated now timeout u s =
    let s' =
      put_metadata u.metadata
        (put_input now u.input (put_data u.data_of (go_to u.current_menu s))) in
    record s' { metadata = insert last_activity_key now s'.metadata; expires_at = now + timeout }

unfoldable pub update : ℕ → ℕ → Updates → Manager → Bool × Manager
update now id u m = with_session now id false (λ s. (true, updated now m.session_timeout u s)) m

-- `stack.pop()`
abbrev pub pop : List ℕ → List ℕ
pop [] = []
pop (x ∷ []) = []
pop (x ∷ (y ∷ xs)) = x ∷ pop (y ∷ xs)

-- `stack[stack.length - 1]`, `undefined` being 0
abbrev pub top : List ℕ → ℕ
top [] = 0
top (x ∷ []) = x
top (x ∷ (y ∷ xs)) = top (y ∷ xs)

unfoldable pub back : Session → Option ℕ × Session
back s =
    let stack = pop s.menu_stack in
    let previous = or_default (top stack) main_menu in
    (
      some previous,
      record s { menu_stack = stack; previous_menu = some s.current_menu; current_menu = previous },
    )

unfoldable pub go_back : ℕ → ℕ → Manager → Option ℕ × Manager
go_back now id m = with_session now id none back m

unfoldable pub home : Session → Option ℕ × Session
home s = (
  some main_menu,
  record s {
    previous_menu = some s.current_menu;
    current_menu = main_menu;
    menu_stack = main_menu ∷ [];
    data_of = [];
  },
)

unfoldable pub go_home : ℕ → ℕ → Manager → Option ℕ × Manager
go_home now id m = with_session now id none home m

unfoldable pub set_data : ℕ → ℕ → ℕ → ℕ → Manager → Bool × Manager
set_data now id key value m =
    with_session now id false (λ s. (true, record s { data_of = insert key value s.data_of })) m

unfoldable pub get_data : ℕ → ℕ → ℕ → Manager → Option ℕ × Manager
get_data now id key m = with_session now id none (λ s. (or_null (lookup key s.data_of), s)) m

unfoldable pub clear_data : ℕ → ℕ → Manager → Bool × Manager
clear_data now id m = with_session now id false (λ s. (true, record s { data_of = [] })) m

unfoldable pub live : ℕ → Dict Session → Dict Session
live now [] = []
live now ((id, s) ∷ d) =
    if ltb s.expires_at now || not s.is_active then live now d else (id, s) ∷ live now d

-- `_cleanupExpiredSessions`, one run of the timer
unfoldable pub cleanup_expired_sessions : ℕ → Manager → Manager
unfolding live
cleanup_expired_sessions now m = record m { sessions = live now m.sessions }

pub record Stats : Type 0 where
  pub total_sessions : ℕ
  pub active_sessions : ℕ
  pub expired_sessions : ℕ
  pub by_menu : Dict ℕ

-- the loop of `getStats`
unfoldable pub count_active : ℕ → Dict Session → ℕ → Dict ℕ → ℕ × Dict ℕ
count_active now [] active by_menu = (active, by_menu)
count_active now ((id, s) ∷ d) active by_menu =
    let counted = s.is_active && leb now s.expires_at in
    count_active now d (if counted then active + 1 else active) (
      if counted
      then insert s.current_menu (suc (value_of (lookup s.current_menu by_menu))) by_menu
      else by_menu)

unfoldable pub get_stats : ℕ → Manager → Stats
unfolding count_active
get_stats now m =
    let (active, by_menu) = count_active now m.sessions 0 [] in
    record {
      total_sessions = length m.sessions;
      active_sessions = active;
      expired_sessions = length m.sessions - active;
      by_menu = by_menu;
    }
