-- ===== src/Sessions/Navigation.antt =====
-- What going to a menu and going back have to do with each other.
use siam_siam_ecosystem.Sessions.Changes.{updated-Keeps}
use siam_siam_ecosystem.Sessions.Counting.{InSync}
use siam_siam_ecosystem.Dict.{lookup, insert, lookup-insert_self}
use Prim.Native.Nat.{ℕ}
use siam_siam_ecosystem.Common.{
  ℕ, List, ◌≡◌, ◌++◌, some, true, ◌∷◌, truthy, ◌≤◌, ◌≢◌, [], ap, arith, refl, ◌+◌, false, Option,
  none, ◌∙◌,
}
use siam_siam_ecosystem.Sessions.Defs.{
  updated, get, back, Manager, Updates, Session, pop, touched, with_session, update, go_back,
}

pub get_live :
    (now id : ℕ) (m : Manager) (s : Session)
    → lookup id m.sessions ≡ some s
    → s.is_active ≡ true
    → now ≤ s.expires_at
    → get now id m ≡ (
      some (touched now m.session_timeout s),
      record m { sessions = insert id (touched now m.session_timeout s) m.sessions },
    )
unfolding get
get_live now id m s e alive early = ground arith

pop-push : (menu : ℕ) (stack : List ℕ) → pop (stack ++ (menu ∷ [])) ≡ stack
pop-push menu [] = refl
pop-push menu (x ∷ []) = refl
pop-push menu (x ∷ (y ∷ xs)) = ap (λ zs. x ∷ zs) (pop-push menu (y ∷ xs))

-- the stack and the current menu after an update that goes to another menu
updated-stack :
    (now timeout menu : ℕ) (u : Updates) (s : Session)
    → u.current_menu ≡ some menu
    → truthy menu ≡ true
    → menu ≢ s.current_menu
    → (updated now timeout u s).menu_stack ≡ s.menu_stack ++ (menu ∷ [])
unfolding updated
updated-stack now timeout menu u s e t other = ground arith

back_lem :
    (s t : Session) (menu : ℕ)
    → InSync s
    → t.menu_stack ≡ s.menu_stack ++ (menu ∷ [])
    → ((back t).0 ≡ some s.current_menu)
      × ((back t).1.menu_stack ≡ s.menu_stack)
      × ((back t).1.current_menu ≡ s.current_menu)
unfolding back
back_lem s t menu sync e = ground (arith, pop-push menu s.menu_stack)

-- An operation that is called in time finds the session and changes it in its place.
pub with_session_live {ℓ} :
    {R : Type ℓ} (now id : ℕ) (failure : R) (change : Session → R × Session) (m : Manager)
    (s : Session)
    → lookup id m.sessions ≡ some s
    → s.is_active ≡ true
    → now ≤ s.expires_at
    → ((with_session now id failure change m).0 ≡ (change (touched now m.session_timeout s)).0)
      × (lookup id (with_session now id failure change m).1.sessions
          ≡ some (change (touched now m.session_timeout s)).1)
      × ((with_session now id failure change m).1.session_timeout ≡ m.session_timeout)
with_session_live now id failure change m s e alive early =
    let t = touched now m.session_timeout s in
    let g = get_live now id m s e alive early in
    rw
      (
        ap (λ (r : Option Session × Manager). r.0) g,
        ap (λ (r : Option Session × Manager). r.1) g,
        with_session,
      )
      (refl, lookup-insert_self id (change t).1 (insert id t m.sessions), refl)

pub touched_keeps :
    (now timeout : ℕ) (s : Session)
    → ((touched now timeout s).current_menu ≡ s.current_menu)
      × ((touched now timeout s).menu_stack ≡ s.menu_stack)
      × ((touched now timeout s).is_active ≡ s.is_active)
      × ((touched now timeout s).expires_at ≡ now + timeout)
unfolding touched
touched_keeps now timeout s = (refl, refl, refl, refl)

updated-expires :
    (now timeout : ℕ) (u : Updates) (s : Session)
    → (updated now timeout u s).expires_at ≡ now + timeout
unfolding updated
updated-expires now timeout u s = refl

-- An active session that has not run out, with its menu on top of its stack, is updated to another
-- menu (not the empty text), and `go_back` is called before it runs out again: the call returns the
-- menu from before the update, and the session has that menu and the stack from before the update.
pub go_back-update :
    (now later id menu : ℕ) (u : Updates) (m : Manager) (s : Session)
    → lookup id m.sessions ≡ some s
    → s.is_active ≡ true
    → InSync s
    → now ≤ s.expires_at
    → later ≤ now + m.session_timeout
    → u.current_menu ≡ some menu
    → truthy menu ≡ true
    → menu ≢ s.current_menu
    → ((go_back later id (update now id u m).1).0 ≡ some s.current_menu)
      × ((t : Session) × (lookup id (go_back later id (update now id u m).1).1.sessions ≡ some t)
          × (t.menu_stack ≡ s.menu_stack)
          × (t.current_menu ≡ s.current_menu))
unfolding update go_back
go_back-update now later id menu u m s e alive sync early soon to full other =
    let t = touched now m.session_timeout s in
    let kept = touched_keeps now m.session_timeout s in
    let pushed = updated-stack now m.session_timeout menu u t to full (rw kept.0 other) in
    let v = updated now m.session_timeout u t in
    let first =
      with_session_live now id false (λ x. (true, updated now m.session_timeout u x)) m s e alive
        early in
    let m' = (with_session now id false (λ x. (true, updated now m.session_timeout u x)) m).1 in
    let second =
      with_session_live later id none back m' v first.1
        ((updated-Keeps now m.session_timeout u t).active ∙ kept.2 ∙ alive)
        (rw (updated-expires now m.session_timeout u t) soon) in
    let w = touched later m'.session_timeout v in
    let kept' = touched_keeps later m'.session_timeout v in
    let done = back_lem t w menu (rw (kept.0, kept.1) sync) (kept'.1 ∙ pushed) in
    (second.0 ∙ done.0 ∙ ap some kept.0, ((back w).1, second.1, done.1 ∙ kept.1, done.2 ∙ kept.0))
