-- ===== src/Referral/Upline.antt =====
-- `getUpline` lists the users above, nearest first.
use siam_siam_ecosystem.Common.{
  ℕ, zero, suc, ◌+◌, ◌≤◌, ◌<◌, ◌≡◌, ◌≢◌, some, List, [], ◌∷◌, length, Option-cases, inl, inr, arith,
  min, All,
}
use mathlib.Core.Path.{subst}
use siam_siam_ecosystem.Referral.Defs.{Mlm, Ancestor, parent, rate_at, upline_from, get_upline}
use siam_siam_ecosystem.Referral.Walks.{Up, top, step, Up-unique}

-- Each entry is the parent of the one before it, with its level counted on and the level's rate.
abbrev pub IsChain : Mlm → ℕ → ℕ → List Ancestor → Type 0
IsChain m u level [] = Unit
IsChain m u level (a ∷ as') =
    (parent m.network u ≡ some a.user)
    × (a.level ≡ level + 1)
    × (a.rate ≡ rate_at m (level + 1))
    × IsChain m a.user (level + 1) as'

upline_from-IsChain :
    (rounds : ℕ) (m : Mlm) (u level : ℕ) → IsChain m u level (upline_from rounds m u level)
unfolding upline_from
upline_from-IsChain zero m u level = tt
upline_from-IsChain (suc rounds) m u level = elim (Option-cases (parent m.network u)) [
  | inl e ↦ ground arith
  | inr (p, e) ↦ ground (arith, upline_from-IsChain rounds m p (level + 1))
]

length-upline_from :
    (rounds : ℕ) (m : Mlm) (u level : ℕ) {n : ℕ}
    → Up m.network u n
    → length (upline_from rounds m u level) ≡ min rounds n
unfolding upline_from
length-upline_from zero m u level w = omega arith
length-upline_from (suc rounds) m u level (top _ e) = ground arith
length-upline_from (suc rounds) m u level (step _ p n e w) =
    ground (arith, length-upline_from rounds m p (level + 1) w)

-- A user of the chain has fewer users above than the user it starts from.
upline_from_below :
    (rounds : ℕ) (m : Mlm) (u level h : ℕ) {n : ℕ}
    → Up m.network u n
    → n ≤ h
    → All (λ a. (k : ℕ) × Up m.network a.user k × (k < h)) (upline_from rounds m u level)
unfolding upline_from
upline_from_below zero m u level h w l = tt
upline_from_below (suc rounds) m u level h (top _ e) l = rw (e, All) tt
upline_from_below (suc rounds) m u level h (step _ p n e w) l =
    rw (e, All) ((n, w, l), upline_from_below rounds m p (level + 1) h w (omega arith))

All-ne :
    (m : Mlm) (u h : ℕ) (xs : List Ancestor)
    → Up m.network u h
    → All (λ a. (k : ℕ) × Up m.network a.user k × (k < h)) xs
    → All (λ a. a.user ≢ u) xs
All-ne m u h [] w b = tt
All-ne m u h (a ∷ xs) w ((k, v, l), bs) = (
  λ e. let same_height = Up-unique w (subst (λ x. Up m.network x k) e v) in absurd (omega arith),
  All-ne m u h xs w bs,
)

-- For a user whose way up ends, `getUpline` returns the chain of users above the user, nearest first, each with its
-- level and the level's rate; it is as long as the way up but for the bound `maxDepth`, and the user
-- is not on it.
pub get_upline_lem :
    (m : Mlm) (user max_depth : ℕ) {height : ℕ}
    → Up m.network user height
    → let above = get_upline m user max_depth in
      IsChain m user 0 above
      × (length above ≡ min max_depth height)
      × All (λ a. a.user ≢ user) above
unfolding get_upline
get_upline_lem m user max_depth {height} w = (
  upline_from-IsChain max_depth m user 0,
  length-upline_from max_depth m user 0 w,
  All-ne m user height _ w (upline_from_below max_depth m user 0 height w (omega arith)),
)
