-- ===== src/StateMachine/Keys.antt =====
-- Transitions are found by a text that joins state and input: when that is exact.
use siam_siam_ecosystem.StateMachine.Defs.{
  transition, Transition, key, add_transition, Outcome, default_transition, handle_back, passes,
  moved, Machine, blocked, star,
}
use siam_siam_ecosystem.Texts.{
  Text, text_eq, text_eq_refl, text_eq→eq, find, put, find-put_self, find-put_ne,
}
use siam_siam_ecosystem.Common.{
  ◌∷◌, [], ℕ, ◌≢◌, ◌≡◌, if◌then◌else◌, arith, false, true, ◌&&◌, refl, subst, Bool-cases, inl, some,
  inr,
}

-- the text has no ':'
abbrev pub NoColon : Text → Type 0
NoColon [] = Unit
NoColon (c ∷ s) = (c ≢ b':') × NoColon s

key-injective : (f g i j : Text) → NoColon f → NoColon g → key f i ≡ key g j → (f ≡ g) × (i ≡ j)
key-injective [] [] i j u v e = (refl, ground arith)
key-injective [] (d ∷ g) i j u v e = absurd (ground arith)
key-injective (c ∷ f) [] i j u v e = absurd (ground arith)
key-injective (c ∷ f) (d ∷ g) i j u v e = ground (arith, key-injective f g i j)

-- the outcome of a transition that is found
abbrev pub outcome_of : Transition → ℕ → Outcome
outcome_of t context = if passes t.guard context then moved t.to_state else blocked

keys_differ :
    (f g i j : Text)
    → NoColon f
    → NoColon g
    → (text_eq f g && text_eq i j) ≡ false
    → key f i ≢ key g j
keys_differ f g i j u v h e =
    let (same_state, same_input) = key-injective f g i j u v e in
    let s : text_eq f g ≡ true = subst (λ x. text_eq f x ≡ true) same_state (text_eq_refl f) in
    let t : text_eq i j ≡ true = subst (λ x. text_eq i x ≡ true) same_input (text_eq_refl i) in
    absurd (ground arith)

-- After a transition is added whose input is not the wildcard, between states whose names hold no
-- ':': from its own state by its own input it is taken, or blocked by its guard, and from every state
-- by every input that differ from these everything is as before.
pub transition-add_transition :
    (t : Transition) (from_state input : Text) (context : ℕ) (m : Machine)
    → NoColon t.from_state
    → NoColon from_state
    → text_eq star t.input ≡ false
    → transition from_state input context (add_transition t m) ≡ (
        if text_eq from_state t.from_state && text_eq input t.input
        then outcome_of t context
        else transition from_state input context m)
unfolding transition add_transition default_transition handle_back
transition-add_transition t from_state input context m u v plain =
    elim (Bool-cases (text_eq from_state t.from_state && text_eq input t.input)) [
      | inl same_key ↦
          let f : from_state ≡ t.from_state = text_eq→eq from_state t.from_state (ground arith) in
          let i : input ≡ t.input = text_eq→eq input t.input (ground arith) in
          let found : find (key from_state input) (put (key t.from_state t.input) t m.transitions)
              ≡ some t =
            rw (f, i) (find-put_self (key t.from_state t.input) t m.transitions) in
          ground (arith, found, same_key)
      | inr other ↦ ground (
        arith,
        other,
        find-put_ne (key from_state input) (key t.from_state t.input) t m.transitions
            (keys_differ from_state t.from_state input t.input v u other),
        find-put_ne (key from_state star) (key t.from_state t.input) t m.transitions
            (keys_differ from_state t.from_state star t.input v u (ground arith)),
      )
    ]
