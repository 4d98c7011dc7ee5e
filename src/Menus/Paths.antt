-- ===== src/Menus/Paths.antt =====
-- When the way from the main menu to a menu is found, and when the search goes round for ever.
use siam_siam_ecosystem.Dict.{lookup}
use Prim.Native.Nat.{ℕ, suc}
use siam_siam_ecosystem.Menus.Defs.{Menus, get_navigation_path, climb, Menu}
use siam_siam_ecosystem.Common.{
  ℕ, List, ◌≡◌, ◌<◌, none, some, ◌∷◌, ◌⊎◌, arith, [], zero, inl, Option-cases, truthy, ◌∙◌, refl,
  inr, true, false,
}

-- the menu is unknown or has no parent
abbrev pub IsRoot : Menus → ℕ → Type 0
IsRoot ms id = (lookup id ms ≡ none) ⊎ ((m : Menu) × (lookup id ms ≡ some m) × (m.parent_of ≡ 0))

abbrev pub IsParent : Menus → ℕ → ℕ → Type 0
IsParent ms p id = (m : Menu) × (lookup id ms ≡ some m) × (m.parent_of ≡ p) × (0 < p)

-- every menu of the path is the parent of the next, and the first is a root
abbrev Links : Menus → ℕ → List ℕ → Type 0
Links ms x [] = Unit
Links ms x (y ∷ path) = IsParent ms x y × Links ms y path

abbrev pub IsPath : Menus → List ℕ → Type 0
IsPath ms [] = ⊥
IsPath ms (x ∷ path) = IsRoot ms x × Links ms x path

abbrev pub last_of : ℕ → List ℕ → ℕ
last_of x [] = x
last_of x (y ∷ path) = last_of y path

abbrev pub EndsAt : ℕ → List ℕ → Type 0
EndsAt target [] = ⊥
EndsAt target (x ∷ path) = last_of x path ≡ target

-- the parents of menus rank below them
abbrev pub Ranks : Menus → (ℕ → ℕ) → Type 0
Ranks ms rank = (p id : ℕ) → IsParent ms p id → rank p < rank id

zero-cases : (n : ℕ) → (n ≡ 0) ⊎ (0 < n)
zero-cases zero = inl refl
zero-cases (suc n) = inr (omega arith)

IsRoot-cases : (ms : Menus) (id : ℕ) → IsRoot ms id ⊎ ((p : ℕ) × IsParent ms p id)
IsRoot-cases ms id = elim (Option-cases (lookup id ms)) [
  | inl e ↦ inl (inl e)
  | inr (m, e) ↦ elim (zero-cases m.parent_of) [
    | inl z ↦ inl (inr (m, e, z))
    | inr pos ↦ inr (m.parent_of, (m, e, refl, pos))
  ]
]

climb_step :
    (ms : Menus) (fuel p id : ℕ) (path : List ℕ)
    → IsParent ms p id
    → climb (suc fuel) id path ms ≡ climb fuel p (p ∷ path) ms
unfolding climb
climb_step ms fuel p id path (m, e, is_p, pos) =
    let t : truthy p ≡ true = ground arith in rw (e, climb) (simp (is_p, t))

climb_root :
    (ms : Menus) (fuel id : ℕ) (path : List ℕ)
    → IsRoot ms id
    → climb (suc fuel) id path ms ≡ some path
unfolding climb
climb_root ms fuel id path (inl e) = rw (e, climb)
climb_root ms fuel id path (inr (m, e, z)) =
    let t : truthy m.parent_of ≡ false = ground arith in rw (e, climb) (simp t)

climb_ends :
    (ms : Menus) (rank : ℕ → ℕ)
    → Ranks ms rank
    → (fuel current : ℕ) (path : List ℕ) → rank current < fuel
    → Links ms current path
    → (found : List ℕ) × (climb fuel current (current ∷ path) ms ≡ some found)
      × IsPath ms found
      × EndsAt (last_of current path) found
unfolding climb
climb_ends ms rank below zero current path h links = absurd (omega arith)
climb_ends ms rank below (suc fuel) current path h links = elim (IsRoot-cases ms current) [
  | inl root ↦
      (current ∷ path, climb_root ms fuel current (current ∷ path) root, (root, links), refl)
  | inr (p, parent) ↦
      let up = below p current parent in
      let (found, run, is_path, ends) =
        climb_ends ms rank below fuel p (current ∷ path) (omega arith) (parent, links) in
      (found, climb_step ms fuel p current (current ∷ path) parent ∙ run, is_path, ends)
]

-- If the menus can be ranked so that each parent is below its menus, `getNavigationPath` ends: it
-- finds a path that ends at the menu, in which each menu is the parent of the next and the first has
-- no parent or is unknown, after no more rounds than the menu's rank and one.
pub get_navigation_path_ends :
    (ms : Menus) (rank : ℕ → ℕ) (fuel target : ℕ)
    → Ranks ms rank
    → rank target < fuel
    → (found : List ℕ) × (get_navigation_path fuel target ms ≡ some found)
      × IsPath ms found
      × EndsAt target found
unfolding get_navigation_path
get_navigation_path_ends ms rank fuel target below h = climb_ends ms rank below fuel target [] h tt

climb_circle :
    (ms : Menus) (Among : ℕ → Type 0)
    → ((id : ℕ) → Among id → (p : ℕ) × IsParent ms p id × Among p)
    → (fuel current : ℕ) (path : List ℕ) → Among current
    → climb fuel current path ms ≡ none
unfolding climb
climb_circle ms Among closed zero current path a = refl
climb_circle ms Among closed (suc fuel) current path a =
    let (p, parent, b) = closed current a in
    climb_step ms fuel p current path parent ∙ climb_circle ms Among closed fuel p (p ∷ path) b

-- Where a menu is one of some menus that each have a parent among them, as in a circle of parents,
-- `getNavigationPath` never ends.
pub get_navigation_path_circle :
    (ms : Menus) (Among : ℕ → Type 0) (fuel target : ℕ)
    → ((id : ℕ) → Among id → (p : ℕ) × IsParent ms p id × Among p)
    → Among target
    → get_navigation_path fuel target ms ≡ none
unfolding get_navigation_path
get_navigation_path_circle ms Among fuel target closed there =
    climb_circle ms Among closed fuel target (target ∷ []) there
