-- ===== src/Menus/Tests.antt =====
-- Runs of the menu builder, and its theorems at concrete menus.
use siam_siam_ecosystem.StateMachine.Defs.{zero_key}
use siam_siam_ecosystem.Menus.Paths.{
  IsParent, get_navigation_path_circle, IsPath, EndsAt, get_navigation_path_ends,
}
use siam_siam_ecosystem.Menus.Defs.{
  handle_input, Menus, get_navigation_path, Config, climb, handle_back, menu_of, navigates,
}
use siam_siam_ecosystem.Common.{
  ℕ, List, ◌≡◌, if◌then◌else◌, ◌<◌, ◌==◌, [], ◌⊎◌, ◌∷◌, none, some, inl, arith, refl, inr,
}
use Prim.Native.Nat.{ℕ}

abbrev under : ℕ → Config
under p = record {
  items = [];
  parent_of = p;
  back_action = none;
  input_type = none;
  validator = none;
  handler = none;
  dynamic_items = none;
}

-- the main menu, 5 under it, and 6 under 5
abbrev tree : Menus
tree = (1, menu_of (under 0)) ∷ ((5, menu_of (under 1)) ∷ ((6, menu_of (under 5)) ∷ []))

-- 5 and 6 are each other's parent
abbrev circle : Menus
circle = (5, menu_of (under 6)) ∷ ((6, menu_of (under 5)) ∷ [])

way_to_6 : get_navigation_path 3 6 tree ≡ some (1 ∷ (5 ∷ (6 ∷ [])))
unfolding get_navigation_path climb
way_to_6 = refl

back_home : handle_input 6 zero_key 0 tree ≡ navigates 5
unfolding handle_input handle_back
back_home = refl

abbrev depth : ℕ → ℕ
depth id = if id == 6 then 2 else if id == 5 then 1 else 0

depth_ranks : (p id : ℕ) → IsParent tree p id → depth p < depth id
depth_ranks p id (m, e, is_p, pos) = ground arith

get_navigation_path_ends_example :
    (found : List ℕ) × (get_navigation_path 3 6 tree ≡ some found)
    × IsPath tree found
    × EndsAt 6 found
get_navigation_path_ends_example = get_navigation_path_ends tree depth 3 6 depth_ranks (omega arith)

abbrev FiveOrSix : ℕ → Type 0
FiveOrSix id = (id ≡ 5) ⊎ (id ≡ 6)

circle_closed : (id : ℕ) → FiveOrSix id → (p : ℕ) × IsParent circle p id × FiveOrSix p
circle_closed id (inl e) = (6, (menu_of (under 6), rw e, refl, omega arith), inr refl)
circle_closed id (inr e) = (5, (menu_of (under 5), rw e, refl, omega arith), inl refl)

get_navigation_path_circle_example : get_navigation_path 1000 5 circle ≡ none
get_navigation_path_circle_example =
    get_navigation_path_circle circle FiveOrSix 1000 5 circle_closed (inl refl)
