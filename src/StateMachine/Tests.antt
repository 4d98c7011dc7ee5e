-- ===== src/StateMachine/Tests.antt =====
-- Runs of the state machine, and its theorem at a concrete machine.
use siam_siam_ecosystem.StateMachine.Keys.{outcome_of, transition-add_transition}
use siam_siam_ecosystem.Texts.{Text, text_eq}
use siam_siam_ecosystem.Common.{◌∷◌, none, [], ◌≡◌, if◌then◌else◌, refl, ◌&&◌, arith}
use siam_siam_ecosystem.StateMachine.Defs.{
  Transition, transition, Machine, main_menu, add_transition, new, default_transition, zero_key,
  handle_back, back, moved,
}

abbrev one : Text
one = b'1' ∷ []

abbrev send : Text
send = b's' ∷ (b'e' ∷ [])

abbrev to_send : Transition
to_send = record { from_state = main_menu; to_state = send; input = one; guard = none }

abbrev machine : Machine
machine = (add_transition to_send new)

goes_back : transition send zero_key 0 machine ≡ back main_menu
unfolding transition add_transition default_transition handle_back
goes_back = refl

-- A state named 'a:b' shares its transition by 'c' with a state named 'a' by 'b:c'.
shared_key :
    transition (b'a' ∷ []) (b'b' ∷ (b':' ∷ (b'c' ∷ []))) 0 (
      add_transition
        (record {
          from_state = b'a' ∷ (b':' ∷ (b'b' ∷ []));
          to_state = send;
          input = b'c' ∷ [];
          guard = none;
        })
        new)
    ≡ moved send
unfolding transition add_transition
shared_key = refl

transition-add_transition_example : transition main_menu zero_key 0 (add_transition to_send new) ≡ (
    if text_eq main_menu to_send.from_state && text_eq zero_key to_send.input
    then outcome_of to_send 0
    else transition main_menu zero_key 0 new)
transition-add_transition_example =
    transition-add_transition to_send main_menu zero_key 0 new (omega arith) (omega arith) refl
