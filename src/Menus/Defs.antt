-- ===== src/Menus/Defs.antt =====
-- `class MenuBuilder`. Menus' identifiers, labels and targets are numbers, the empty or absent one 0;
-- what a user types is a list of ASCII codes. A validator, a handler and dynamic items are functions
-- of the input and of the context, which is a number. Rendering a menu's text is left out.
use siam_siam_ecosystem.Texts.{Text, text_eq, lower}
use siam_siam_ecosystem.StateMachine.Defs.{zero_key, double_zero, back_word, home_word}
use siam_siam_ecosystem.Dict.{Dict, lookup, insert, erase, contains}
use siam_siam_ecosystem.Common.{
  ℕ, zero, suc, ◌+◌, ◌-◌, ◌*◌, Bool, false, ◌&&◌, ◌||◌, Option, none, some, List, [], ◌∷◌, leb,
  ◌==◌, if◌then◌else◌, truthy, or_default,
}

-- the texts 'main_menu' and 'parent' 'main' 'end'
abbrev pub main_menu : ℕ
main_menu = 1

pub data BackAction : Type 0 where
  parent main end_session : BackAction
  other_back : ℕ → BackAction

pub data InputType : Type 0 where
  selection free : InputType

pub data Action : Type 0 where
  navigate execute external input confirm end other : Action

-- an item's number: a text or a number, or none
pub data Number : Type 0 where
  word : Text → Number
  number : ℕ → Number
  no_number : Number

-- `action` is the text of the action too, for the items whose action is a menu
pub record Item : Type 0 where
  pub number_of : Number
  pub action : Action
  pub action_text : ℕ
  pub target : ℕ

pub data Reply : Type 0 where
  menu_not_found invalid_selection : Reply
  -- the message of the validator
  rejected : ℕ → Reply
  navigates ends : (target : ℕ) → Reply
  executes opens asks confirms : (target : ℕ) → Text → Reply
  -- what the menu's handler answers
  handled : ℕ → Reply
  continues : Text → Reply
  goodbye : Reply

pub record Menu : Type 0 where
  pub items : List Item
  pub parent_of : ℕ
  pub back_action : BackAction
  pub input_type : InputType
  -- `none` is a valid input, and otherwise there is a message
  pub validator : Option (Text → ℕ → Option ℕ)
  pub handler : Option (Text → ℕ → ℕ)
  pub dynamic_items : Option (ℕ → List Item)

abbrev pub Menus : Type 0
Menus = Dict Menu

-- the configuration of a menu: the fields that may be missing
pub record Config : Type 0 where
  pub items : List Item
  pub parent_of : ℕ
  pub back_action : Option BackAction
  pub input_type : Option InputType
  pub validator : Option (Text → ℕ → Option ℕ)
  pub handler : Option (Text → ℕ → ℕ)
  pub dynamic_items : Option (ℕ → List Item)

abbrev pub menu_of : Config → Menu
menu_of c = record {
  items = c.items;
  parent_of = c.parent_of;
  back_action = elim c.back_action [ none ↦ parent | some b ↦ b ];
  input_type = elim c.input_type [ none ↦ selection | some t ↦ t ];
  validator = c.validator;
  handler = c.handler;
  dynamic_items = c.dynamic_items;
}

unfoldable pub add_menu : ℕ → Config → Menus → Menus
add_menu id c ms = insert id (menu_of c) ms

unfoldable pub remove_menu : ℕ → Menus → Menus
remove_menu id ms = erase id ms

unfoldable pub get_menu : ℕ → Menus → Option Menu
get_menu id ms = lookup id ms

unfoldable pub has_menu : ℕ → Menus → Bool
has_menu id ms = contains id ms

abbrev pub add_menus : List (ℕ × Config) → Menus → Menus
add_menus [] ms = ms
add_menus ((id, c) ∷ cs) ms = add_menus cs (add_menu id c ms)

unfoldable pub build_application : Config → List (ℕ × Config) → Menus → Menus
build_application main_config subs ms =
    add_menus subs (add_menu main_menu (record main_config { parent_of = 0 }) ms)

-- `_processAction`
unfoldable pub process_action : Item → Text → Reply
process_action i typed = elim i.action [
  | navigate ↦ navigates i.target
  | execute ↦ executes i.target typed
  | external ↦ opens i.target typed
  | input ↦ asks i.target typed
  | confirm ↦ confirms i.target typed
  | end ↦ ends i.target
  | other ↦ navigates i.action_text
]

-- `_handleBack`
unfoldable pub handle_back : Menu → Reply
handle_back m = elim m.back_action [
  | parent ↦ navigates (or_default m.parent_of main_menu)
  | main ↦ navigates main_menu
  | end_session ↦ goodbye
  | other_back _ ↦ navigates (or_default m.parent_of main_menu)
]

abbrev pub is_space : ℕ → Bool
is_space c = (c == 32) || (leb 9 c && leb c 13)

abbrev pub skip_spaces : Text → Text
skip_spaces [] = []
skip_spaces (c ∷ s) = if is_space c then skip_spaces s else c ∷ s

abbrev pub is_digit : ℕ → Bool
is_digit c = leb b'0' c && leb c b'9'

-- the digits at the start, after some that were read
abbrev pub decimal : Text → Option ℕ → Option ℕ
decimal [] read = read
decimal (c ∷ s) read =
    if is_digit c
    then decimal s (some (elim read [ none ↦ c - b'0' | some n ↦ n * 10 + (c - b'0') ]))
    else read

abbrev pub hex_digit : ℕ → Option ℕ
hex_digit c =
    if is_digit c
    then some (c - b'0')
    else if leb b'a' c && leb c b'f'
    then some (c - b'a' + 10)
    else if leb b'A' c && leb c b'F'
    then some (c - b'A' + 10)
    else none

abbrev pub hexadecimal : Text → Option ℕ → Option ℕ
hexadecimal [] read = read
hexadecimal (c ∷ s) read = elim (hex_digit c) [
  | none ↦ read
  | some v ↦ hexadecimal s (some (elim read [ none ↦ v | some n ↦ n * 16 + v ]))
]

-- the number without its sign
abbrev pub magnitude : Text → Option ℕ
magnitude [] = none
magnitude (c ∷ []) = decimal (c ∷ []) none
magnitude (c ∷ (x ∷ s)) =
    if (c == b'0') && ((x == b'x') || (x == b'X'))
    then hexadecimal s none
    else decimal (c ∷ (x ∷ s)) none

abbrev pub signed : Text → Option ℕ
signed [] = none
signed (c ∷ s) =
    if c == b'-'
    then (elim (magnitude s) [ none ↦ none | some n ↦ elim n [ zero ↦ some 0 | suc _ ↦ none ] ])
    else if c == b'+'
    then magnitude s
    else magnitude (c ∷ s)

-- `parseInt`; a number below 0 is `none` too, since it is no item's number
unfoldable pub parse_int : Text → Option ℕ
parse_int s = signed (skip_spaces s)

-- `item.number === input || item.number === parseInt(input)`
unfoldable pub is_chosen : Text → Item → Bool
is_chosen typed i = elim i.number_of [
  | no_number ↦ false
  | word w ↦ text_eq w typed
  | number n ↦ elim (parse_int typed) [ none ↦ false | some k ↦ n == k ]
]

unfoldable pub chosen : Text → List Item → Option Item
chosen typed [] = none
chosen typed (i ∷ is) = if is_chosen typed i then some i else chosen typed is

-- the validator's message, if there is one
abbrev pub objection : Menu → Text → ℕ → Option ℕ
objection m typed context = elim m.validator [ none ↦ none | some v ↦ v typed context ]

abbrev pub dynamic : Menu → ℕ → List Item
dynamic m context = elim m.dynamic_items [ none ↦ [] | some f ↦ f context ]

unfoldable pub select : Menu → Text → ℕ → Reply
select m typed context = elim (chosen typed m.items) [
  | some i ↦ process_action i typed
  | none ↦ elim (chosen typed (dynamic m context)) [
    | some i ↦ process_action i typed
    | none ↦ invalid_selection
  ]
]

-- `handleInput` on a menu, for an input that is no word for going back or home
unfoldable pub handle_choice : Menu → Text → ℕ → Reply
handle_choice m typed context = elim (objection m typed context) [
  | some message ↦ rejected message
  | none ↦ elim m.input_type [
    | selection ↦ select m typed context
    | free ↦ elim m.handler [ none ↦ continues typed | some h ↦ handled (h typed context) ]
  ]
]

abbrev pub is_back : Text → Bool
is_back typed = text_eq typed zero_key || text_eq (lower typed) back_word

abbrev pub is_home : Text → Bool
is_home typed = text_eq typed double_zero || text_eq (lower typed) home_word

unfoldable pub handle_input : ℕ → Text → ℕ → Menus → Reply
handle_input id typed context ms = elim (lookup id ms) [
  | none ↦ menu_not_found
  | some m ↦
      if is_back typed
      then handle_back m
      else if is_home typed
      then navigates main_menu
      else handle_choice m typed context
]

-- the loop of `getNavigationPath`: `none` is a loop that is not over when the fuel is
unfoldable pub climb : ℕ → ℕ → List ℕ → Menus → Option (List ℕ)
climb zero current path ms = none
climb (suc fuel) current path ms = elim (lookup current ms) [
  | none ↦ some path
  | some m ↦
      let rest = climb fuel m.parent_of (m.parent_of ∷ path) ms in
      if truthy m.parent_of then rest else some path
]

unfoldable pub get_navigation_path : ℕ → ℕ → Menus → Option (List ℕ)
get_navigation_path fuel target ms = climb fuel target (target ∷ []) ms
