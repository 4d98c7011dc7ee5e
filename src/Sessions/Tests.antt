-- ===== src/Sessions/Tests.antt =====
-- Runs of the session manager, and its theorems at concrete states.
use siam_siam_ecosystem.Sessions.Navigation.{go_back-update}
use siam_siam_ecosystem.Sessions.Limits.{reached-IsSound, next, start, creates, goes_back}
use siam_siam_ecosystem.Dict.{lookup}
use siam_siam_ecosystem.Sessions.Expiry.{poll, get-poll}
use siam_siam_ecosystem.Common.{
  ◌≤◌, ◌≡◌, ◌+◌, some, ◌∷◌, is_some, none, [], arith, refl, true, ◌<◌, map,
}
use siam_siam_ecosystem.Sessions.Changes.{IsSound}
use siam_siam_ecosystem.Sessions.Defs.{
  get, go_back, get_sessions_by_phone, Updates, Manager, Session, new, new_session, create, update,
  make_room, main_menu, sessions_by_phone, destroy,
}

abbrev one : Manager
one = (create 1000 7 42 main_menu [] new).1

abbrev to_send : Updates
to_send = record { current_menu = some 5; data_of = none; input = some 9; metadata = none }

abbrev first : Session
first = new_session 1000 120_000 7 42 main_menu []

abbrev at_7 : Manager
at_7 = record new { sessions = (7, first) ∷ [] }

-- The fourth session of a phone takes the place of the first.
fourth :
    map
      (λ (s : Session). s.id)
      (get_sessions_by_phone 42
        (create 4 4 42 1 []
          (create 3 3 42 1 [] (create 2 2 42 1 [] (create 1 1 42 1 [] new).1).1).1).1)
    ≡ 2 ∷ 3 ∷ 4 ∷ []
unfolding get_sessions_by_phone create make_room sessions_by_phone destroy
fourth = refl

reached-IsSound_example : IsSound (go_back 1500 7 (create 1000 7 42 main_menu [] new).1).1
reached-IsSound_example =
    reached-IsSound (next (next start (creates 1000 7 42 main_menu [] refl)) (goes_back 1500 7))

go_back-update_example :
    ((go_back 9000 7 (update 2000 7 to_send at_7).1).0 ≡ some main_menu)
    × ((t : Session) × (lookup 7 (go_back 9000 7 (update 2000 7 to_send at_7).1).1.sessions
          ≡ some t)
        × (t.menu_stack ≡ main_menu ∷ [])
        × (t.current_menu ≡ main_menu))
go_back-update_example =
    go_back-update 2000 9000 7 5 to_send at_7 first refl refl refl (omega arith) (omega arith) refl
      refl (omega arith)

get-poll_example :
    (202_000 ≤ 101_000 + 120_000
      → is_some (get 202_000 7 (poll 7 (50_000 ∷ (101_000 ∷ [])) at_7)).0 ≡ true)
    × (101_000 + 120_000 < 202_000
        → ((get 202_000 7 (poll 7 (50_000 ∷ (101_000 ∷ [])) at_7)).0 ≡ none)
          × (lookup 7 (get 202_000 7 (poll 7 (50_000 ∷ (101_000 ∷ [])) at_7)).1.sessions ≡ none))
get-poll_example =
    get-poll 7 1000 (50_000 ∷ (101_000 ∷ [])) 202_000 at_7 first refl refl refl (omega arith)
