-- ===== src/Sessions/Counting.antt =====
-- How many sessions a phone number has, and under which identifiers sessions are stored.
use siam_siam_ecosystem.Dict.{Dict}
use Prim.Native.Nat.{ℕ}
use siam_siam_ecosystem.Common.{ℕ, ◌≡◌, length, or_default, ◌∷◌, []}
use siam_siam_ecosystem.Sessions.Defs.{Session, sessions_by_phone, top, main_menu}

abbrev pub on_phone : ℕ → Dict Session → ℕ
on_phone phone d = length (sessions_by_phone phone d)

-- every session is stored under its own identifier
abbrev pub Stored : Dict Session → Type 0
Stored [] = Unit
Stored ((k, s) ∷ d) = (s.id ≡ k) × Stored d

-- the current menu is the top of the session's stack, or the main menu
abbrev pub InSync : Session → Type 0
InSync s = s.current_menu ≡ or_default (top s.menu_stack) main_menu
