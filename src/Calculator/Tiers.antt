-- ===== src/Calculator/Tiers.antt =====
-- Which tier applies, and the limits of a commission.
use siam_siam_ecosystem.Calculator.Defs.{
  Tier, place, first_reached, sorted, calculate_tiered, percentage,
}
use siam_siam_ecosystem.Common.{
  refl, List, ◌≡◌, ◌⊎◌, ◌∷◌, true, false, [], Option, Bool-cases, inl, some, inr, subst, none, sym,
  if◌then◌else◌, arith,
}
use siam_siam_ecosystem.Double.{Double}

-- what is used of the order of floats that are not `NaN`
pub record IsOrdered (d : Double) : Type 0 where
  pub le_refl : (a : d.D) → d.le a a ≡ true
  pub le_trans : (a b c : d.D) → d.le a b ≡ true → d.le b c ≡ true → d.le a c ≡ true
  pub le_of_lt : (a b : d.D) → d.lt a b ≡ true → d.le a b ≡ true
  pub le_of_not_lt : (a b : d.D) → d.lt a b ≡ false → d.le b a ≡ true

module _ (d : Double) (o : IsOrdered d) where
  abbrev pub In : Tier d → List (Tier d) → Type 0
  In t [] = ⊥
  In t (u ∷ us) = (t ≡ u) ⊎ In t us

  -- no tier of the list is above `t`
  abbrev pub Above : Tier d → List (Tier d) → Type 0
  Above t us = (u : Tier d) → In u us → d.le u.threshold t.threshold ≡ true

  abbrev Descending : List (Tier d) → Type 0
  Descending [] = Unit
  Descending (t ∷ ts) = Above t ts × Descending ts

  place_up :
      (t v : Tier d) (vs : List (Tier d))
      → d.lt t.threshold v.threshold ≡ true
      → place d t (v ∷ vs) ≡ v ∷ place d t vs
  unfolding place
  place_up t v vs e = rw e

  place_here :
      (t v : Tier d) (vs : List (Tier d))
      → d.lt t.threshold v.threshold ≡ false
      → place d t (v ∷ vs) ≡ t ∷ (v ∷ vs)
  unfolding place
  place_here t v vs e = rw e

  In-place : (t u : Tier d) (ts : List (Tier d)) → In u (place d t ts) → (u ≡ t) ⊎ In u ts
  unfolding place
  In-place t u [] h = h
  In-place t u (v ∷ vs) h = elim (Bool-cases (d.lt t.threshold v.threshold)) [
    | inl up ↦
        let i : (u ≡ v) ⊎ In u (place d t vs) = subst (λ l. In u l) (place_up t v vs up) h in
        elim i [
          | inl e ↦ inr (inl e)
          | inr j ↦ elim (In-place t u vs j) [ inl e ↦ inl e | inr k ↦ inr (inr k) ]
        ]
    | inr there ↦ subst (λ l. In u l) (place_here t v vs there) h
  ]

  place-In : (t u : Tier d) (ts : List (Tier d)) → (u ≡ t) ⊎ In u ts → In u (place d t ts)
  unfolding place
  place-In t u [] h = h
  place-In t u (v ∷ vs) h = elim (Bool-cases (d.lt t.threshold v.threshold)) [
    | inl up ↦
        subst (λ l. In u l) (sym (place_up t v vs up))
          (elim h [
            | inl e ↦ inr (place-In t u vs (inl e))
            | inr i ↦ elim i [ inl e ↦ inl e | inr j ↦ inr (place-In t u vs (inr j)) ]
          ])
    | inr there ↦ subst (λ l. In u l) (sym (place_here t v vs there)) h
  ]

  place-Descending : (t : Tier d) (ts : List (Tier d)) → Descending ts → Descending (place d t ts)
  unfolding place
  place-Descending t [] h = ((λ u e. absurd e), tt)
  place-Descending t (v ∷ vs) h = elim (Bool-cases (d.lt t.threshold v.threshold)) [
    | inl up ↦
        subst (λ l. Descending l) (sym (place_up t v vs up))
          (
            (λ u i. elim (In-place t u vs i) [
              | inl e ↦
                  subst (λ (w : Tier d). d.le w.threshold v.threshold ≡ true) (sym e)
                    (o.le_of_lt t.threshold v.threshold up)
              | inr j ↦ h.0 u j
            ]),
            place-Descending t vs h.1,
          )
    | inr there ↦
        let low = o.le_of_not_lt t.threshold v.threshold there in
        subst (λ l. Descending l) (sym (place_here t v vs there))
          (
            (λ u i. elim i [
              | inl e ↦ subst (λ (w : Tier d). d.le w.threshold t.threshold ≡ true) (sym e) low
              | inr j ↦ o.le_trans u.threshold v.threshold t.threshold (h.0 u j) low
            ]),
            h,
          )
  ]

  sorted-Descending : (ts : List (Tier d)) → Descending (sorted d ts)
  unfolding sorted
  sorted-Descending [] = tt
  sorted-Descending (t ∷ ts) = place-Descending t (sorted d ts) (sorted-Descending ts)

  sorted-In : (u : Tier d) (ts : List (Tier d)) → In u ts → In u (sorted d ts)
  unfolding sorted
  sorted-In u [] h = h
  sorted-In u (t ∷ ts) (inl e) = place-In t u (sorted d ts) (inl e)
  sorted-In u (t ∷ ts) (inr h) = place-In t u (sorted d ts) (inr (sorted-In u ts h))

  In-sorted : (u : Tier d) (ts : List (Tier d)) → In u (sorted d ts) → In u ts
  unfolding sorted
  In-sorted u [] h = h
  In-sorted u (t ∷ ts) h = elim (In-place t u (sorted d ts) h) [
    | inl e ↦ inl e
    | inr i ↦ inr (In-sorted u ts i)
  ]

  -- what a search for the highest tier that is reached comes to
  abbrev pub IsHighest : d.D → List (Tier d) → Option (Tier d) → Type 0
  IsHighest x ts none = (u : Tier d) → In u ts → d.le u.threshold x ≡ false
  IsHighest x ts (some t) =
      In t ts
      × (d.le t.threshold x ≡ true)
      × ((u : Tier d) → In u ts → d.le u.threshold x ≡ true → d.le u.threshold t.threshold ≡ true)

  skip_tier :
      (x : d.D) (t : Tier d) (ts : List (Tier d)) (r : Option (Tier d))
      → d.le t.threshold x ≡ false
      → IsHighest x ts r
      → IsHighest x (t ∷ ts) r
  skip_tier x t ts none low h = λ u i. elim i [
    | inl e ↦ subst (λ (w : Tier d). d.le w.threshold x ≡ false) (sym e) low
    | inr j ↦ h u j
  ]
  skip_tier x t ts (some v) low h = (
    inr h.0,
    h.1,
    λ u i reached. elim i [
      | inl e ↦
          let missed : d.le u.threshold x ≡ false =
            subst (λ (w : Tier d). d.le w.threshold x ≡ false) (sym e) low in
          cc
      | inr j ↦ h.2 u j reached
    ],
  )

  first_reached-IsHighest :
      (x : d.D) (ts : List (Tier d)) → Descending ts → IsHighest x ts (first_reached d x ts)
  unfolding first_reached
  first_reached-IsHighest x [] h = λ u i. absurd i
  first_reached-IsHighest x (t ∷ ts) h = elim (Bool-cases (d.le t.threshold x)) [
    | inl reached ↦
        let here : first_reached d x (t ∷ ts) ≡ some t = rw reached in
        subst (λ r. IsHighest x (t ∷ ts) r) (sym here)
          (
            inl refl,
            reached,
            λ u i _. elim i [
              | inl e ↦
                  subst (λ (w : Tier d). d.le w.threshold t.threshold ≡ true) (sym e)
                    (o.le_refl t.threshold)
              | inr j ↦ h.0 u j
            ],
          )
    | inr low ↦
        let later : first_reached d x (t ∷ ts) ≡ first_reached d x ts = rw low in
        subst (λ r. IsHighest x (t ∷ ts) r) (sym later)
          (skip_tier x t ts (first_reached d x ts) low (first_reached-IsHighest x ts h.1))
  ]

  In-all :
      (x : d.D) (ts : List (Tier d)) (r : Option (Tier d))
      → IsHighest x (sorted d ts) r
      → IsHighest x ts r
  In-all x ts none h = λ u i. h u (sorted-In u ts i)
  In-all x ts (some t) h = (In-sorted t ts h.0, h.1, λ u i. h.2 u (sorted-In u ts i))

  -- the commission that a tier gives
  abbrev pub tier_commission : d.D → Option (Tier d) → d.D
  tier_commission x none = d.of_ℕ 0
  tier_commission x (some t) = if t.percentual then percentage d x t.amount else t.amount

  -- Over ordered floats, a tiered reward pays by one tier of the list, in whatever order the tiers
  -- are listed: one whose threshold the amount reaches, and no tier whose threshold it reaches has a
  -- higher one. Where no threshold is reached it pays 0.
  pub calculate_tiered_lem :
      (tiers : List (Tier d)) (x : d.D)
      → (r : Option (Tier d)) × IsHighest x tiers r
        × (calculate_tiered d tiers x ≡ tier_commission x r)
  unfolding calculate_tiered
  calculate_tiered_lem tiers x = (
    first_reached d x (sorted d tiers),
    In-all x tiers _ (first_reached-IsHighest x (sorted d tiers) (sorted-Descending tiers)),
    ground arith,
  )
