-- ===== src/StateMachine/Defs.antt =====
-- `class USSDStateMachine`. Texts are lists of ASCII codes, the empty one stands for an absent one; a
-- guard is a function of the context, which is a number. The hooks of a state are stored and never
-- called, and are left out.
use siam_siam_ecosystem.Texts.{Text, TextMap, text_eq, text_or, lower, find, put}
use siam_siam_ecosystem.Common.{
  ◌∷◌, [], ◌++◌, ℕ, ◌||◌, is_some, Option, List, if◌then◌else◌, some, none, or_default, Bool, true,
}

-- the texts 'main_menu', '0', '00', 'back', 'home' and '*'
abbrev pub main_menu : Text
main_menu = b'm' ∷ (b'a' ∷ (b'i' ∷ (b'n' ∷ (b'_' ∷ (b'm' ∷ (b'e' ∷ (b'n' ∷ (b'u' ∷ []))))))))

abbrev pub zero_key : Text
zero_key = b'0' ∷ []

abbrev pub double_zero : Text
double_zero = b'0' ∷ (b'0' ∷ [])

abbrev pub back_word : Text
back_word = b'b' ∷ (b'a' ∷ (b'c' ∷ (b'k' ∷ [])))

abbrev pub home_word : Text
home_word = b'h' ∷ (b'o' ∷ (b'm' ∷ (b'e' ∷ [])))

abbrev pub star : Text
star = b'*' ∷ []

pub record State : Type 0 where
  pub name : Text
  pub type : ℕ
  pub timeout : ℕ
  pub retry_limit : ℕ
  pub parent : Text

pub record Config : Type 0 where
  pub type : ℕ
  pub timeout : ℕ
  pub retry_limit : ℕ
  pub parent : Text

pub record Transition : Type 0 where
  pub from_state : Text
  pub to_state : Text
  pub input : Text
  pub guard : Option (ℕ → Bool)

pub record Machine : Type 0 where
  pub states : TextMap State
  pub transitions : TextMap Transition
  pub current_state : Option Text

abbrev pub new : Machine
new = record { states = []; transitions = []; current_state = none }

-- the type 'menu'
abbrev pub menu : ℕ
menu = 1

unfoldable pub add_state : Text → Config → Machine → Machine
add_state name c m = record m {
  states =
      put name
        (record {
          name = name;
          type = or_default c.type menu;
          timeout = or_default c.timeout 30;
          retry_limit = or_default c.retry_limit 3;
          parent = c.parent;
        })
        m.states;
}

-- `${fromState}:${input}`
abbrev pub key : Text → Text → Text
key from_state input = from_state ++ (b':' ∷ input)

unfoldable pub add_transition : Transition → Machine → Machine
add_transition t m = record m { transitions = put (key t.from_state t.input) t m.transitions }

pub data Outcome : Type 0 where
  blocked : Outcome
  moved wildcard back : (to_state : Text) → Outcome
  home : Outcome
  invalid : Outcome

abbrev pub parent_or_main : Option State → Text
parent_or_main none = main_menu
parent_or_main (some s) = text_or s.parent main_menu

-- `_handleBack`
unfoldable pub handle_back : Text → Machine → Outcome
handle_back from_state m = back (parent_or_main (find from_state m.states))

abbrev pub passes : Option (ℕ → Bool) → ℕ → Bool
passes none context = true
passes (some guard) context = guard context

-- the end of `transition`, where no transition is defined
unfoldable pub default_transition : Text → Text → Machine → Outcome
default_transition from_state input m =
    if text_eq input zero_key || text_eq (lower input) back_word
    then handle_back from_state m
    else if text_eq input double_zero || text_eq (lower input) home_word
    then home
    else invalid

unfoldable pub transition : Text → Text → ℕ → Machine → Outcome
transition from_state input context m = elim (find (key from_state input) m.transitions) [
  | some t ↦ if passes t.guard context then moved t.to_state else blocked
  | none ↦ elim (find (key from_state star) m.transitions) [
    | some t ↦ wildcard t.to_state
    | none ↦ default_transition from_state input m
  ]
]

-- `setState`; `none` is the exception
unfoldable pub set_state : Text → Machine → Option Machine
set_state name m =
    if is_some (find name m.states) then some (record m { current_state = some name }) else none

unfoldable pub get_valid_transitions : Text → TextMap Transition → List (Text × Text)
get_valid_transitions from_state [] = []
get_valid_transitions from_state ((k, t) ∷ ts) =
    if text_eq t.from_state from_state
    then (t.input, t.to_state) ∷ get_valid_transitions from_state ts
    else get_valid_transitions from_state ts

unfoldable pub is_valid_transition : Text → Text → Machine → Bool
is_valid_transition from_state input m =
    is_some (find (key from_state input) m.transitions)
    || is_some (find (key from_state star) m.transitions)

abbrev pub add_states : List (Text × Config) → Machine → Machine
add_states [] m = m
add_states ((name, c) ∷ cs) m = add_states cs (add_state name c m)

abbrev pub add_transitions : List Transition → Machine → Machine
add_transitions [] m = m
add_transitions (t ∷ ts) m = add_transitions ts (add_transition t m)

unfoldable pub build_flow : List (Text × Config) → List Transition → Machine → Machine
build_flow states transitions m = add_transitions transitions (add_states states m)

unfoldable pub reset : Machine → Machine
reset m = record m { current_state = none }
