-- ===== src/Referral/Walks.antt =====
-- Walks up the referral network: their lengths, and why the cycle check of
-- `packages/shared-utils/src/referral/multi-level-commissions.js` ends.
use siam_siam_ecosystem.Common.{
  ℕ, zero, suc, ◌≤◌, ◌<◌, ◌≡◌, refl, ◌≢◌, Bool, true, false, none, some, ◌==◌, length, Bool-cases,
  Option-cases, inl, inr, arith, sym, ap, ◌∙◌, ==→eq,
}
use mathlib.Core.Path.{subst}
use siam_siam_ecosystem.Dict.{Dict, contains, erase, lookup-erase, length-erase-lt}
use siam_siam_ecosystem.Referral.Defs.{parent, climbs_to}

-- The user has exactly `n` users above.
pub data Up (net : Dict ℕ) : ℕ → ℕ → Type 0 where
  top : (u : ℕ) → parent net u ≡ none → Up net u 0
  step : (u p n : ℕ) → parent net u ≡ some p → Up net p n → Up net u (suc n)

-- `t` is `u`, or a user above `u`.
pub data Reaches (net : Dict ℕ) (t : ℕ) : ℕ → Type 0 where
  here : Reaches net t t
  above : (u p : ℕ) → parent net u ≡ some p → Reaches net t p → Reaches net t u

pub Up-unique : {net : Dict ℕ} {u n m : ℕ} → Up net u n → Up net u m → n ≡ m
Up-unique (top u e) (top _ f) = refl
Up-unique (top u e) (step _ p n f w) = cc
Up-unique (step u p n e w) (top _ f) = cc
Up-unique {net} (step u p n e w) (step _ q m f v) =
    let same_parent : q ≡ p = cc in ap suc (Up-unique w (subst (λ x. Up net x m) same_parent v))

parent-erase_ne : (u k : ℕ) (net : Dict ℕ) → u ≢ k → parent (erase k net) u ≡ parent net u
unfolding parent
parent-erase_ne u k net h = ground (arith, lookup-erase u k net)

Up-ne : {net : Dict ℕ} (k h u n : ℕ) → Up net k h → Up net u n → n < h → u ≢ k
Up-ne {net} k h u n w v l e =
    let same_height = Up-unique w (subst (λ x. Up net x n) e v) in absurd (omega arith)

-- A walk from below the height of `k` never meets `k`, so it is there without the entry of `k`.
Up-erase :
    (k h : ℕ) {net : Dict ℕ} {u n : ℕ} → Up net k h → Up net u n → n < h → Up (erase k net) u n
Up-erase k h {net} w (top u e) l = top u (parent-erase_ne u k net (Up-ne k h u 0 w (top u e) l) ∙ e)
Up-erase k h {net} w (step u p n e v) l =
    step u p n (parent-erase_ne u k net (Up-ne k h u (suc n) w (step u p n e v) l) ∙ e)
      (Up-erase k h w v (omega arith))

parent-contains : (u p : ℕ) (net : Dict ℕ) → parent net u ≡ some p → contains u net ≡ true
unfolding parent
parent-contains u p net e = ground arith

-- A walk is no longer than the network has entries.
pub Up-le : (n : ℕ) {net : Dict ℕ} {u : ℕ} → Up net u n → n ≤ length net
Up-le zero w = omega arith
Up-le (suc n) {net} (step u p _ e v) = omega (
  arith,
  Up-le n (Up-erase u (suc n) (step u p n e v) v (omega arith)),
  length-erase-lt u net (parent-contains u p net e),
)

-- With more fuel than there are users above, the loop ends.
pub climbs_to_ends :
    (fuel t : ℕ) {net : Dict ℕ} {u n : ℕ}
    → Up net u n
    → n < fuel
    → (b : Bool) × (climbs_to fuel net t u ≡ some b)
unfolding climbs_to
climbs_to_ends zero t w l = elim l [ ]
climbs_to_ends (suc fuel) t {net} (top u e) l = (u == t, ground arith)
climbs_to_ends (suc fuel) t {net} (step u p n e v) l = elim (Bool-cases (u == t)) [
  | inl met ↦ (true, ground arith)
  | inr other ↦ let rest = climbs_to_ends fuel t v (omega arith) in (rest.0, ground (arith, rest.1))
]

-- The answer `true` means that the target is on the way up.
pub climbs_to-Reaches :
    (fuel t u : ℕ) (net : Dict ℕ) → climbs_to fuel net t u ≡ some true → Reaches net t u
unfolding climbs_to
climbs_to-Reaches zero t u net e = cc
climbs_to-Reaches (suc fuel) t u net e = elim (Bool-cases (u == t)) [
  | inl met ↦ subst (λ x. Reaches net t x) (sym (==→eq u t met)) here
  | inr other ↦ elim (Option-cases (parent net u)) [
    | inl no_parent ↦ absurd (ground arith)
    | inr (p, f) ↦ above u p f (climbs_to-Reaches fuel t p net (ground arith))
  ]
]

-- The answer `false` means that it is not.
pub climbs_to-false :
    (fuel t u : ℕ) (net : Dict ℕ) → climbs_to fuel net t u ≡ some false → ¬ Reaches net t u
unfolding climbs_to
climbs_to-false zero t u net e r = cc
climbs_to-false (suc fuel) t u net e here = ground arith
climbs_to-false (suc fuel) t u net e (above _ p f r) = ground (arith, climbs_to-false fuel t p net)
