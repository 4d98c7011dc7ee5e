-- ===== src/Referral/Forest.antt =====
-- The network stays a forest: `addRelationship` closes no cycle, and its check always ends.
use siam_siam_ecosystem.Common.{
  ℕ, zero, suc, ◌+◌, ◌≡◌, refl, ◌≢◌, Bool, true, false, none, some, ◌==◌, [], if◌then◌else◌, truthy,
  length, Bool-cases, inl, inr, arith, sym, ◌∙◌, ==→eq, ◌⊎◌, ◌↔◌,
}
use mathlib.Core.Path.{subst}
use siam_siam_ecosystem.Dict.{Dict, contains, insert, IsMap, lookup-insert, insert-IsMap}
use siam_siam_ecosystem.Referral.Defs.{
  Mlm, circular, has_referrer, diverged, added, refused, parent, would_create_cycle,
  add_relationship,
}
use siam_siam_ecosystem.Referral.Walks.{
  Up, top, step, Reaches, here, above, Up-le, climbs_to_ends, climbs_to-Reaches, climbs_to-false,
}

-- Every walk up ends.
abbrev pub IsForest : Dict ℕ → Type 0
IsForest net = (u : ℕ) → (n : ℕ) × Up net u n

-- The check of `addRelationship` from the referrer `u` meets `target`; it looks at nothing from the
-- empty text.
abbrev pub IsCircular : Dict ℕ → ℕ → ℕ → Type 0
IsCircular net zero target = ⊥
IsCircular net (suc u) target = Reaches net target (suc u)

parent-insert_self :
    (c p : ℕ) (net : Dict ℕ) → parent (insert c p net) c ≡ (if truthy p then some p else none)
unfolding parent
parent-insert_self c p net = ground (arith, lookup-insert c c p net)

parent-insert_ne : (u c p : ℕ) (net : Dict ℕ) → u ≢ c → parent (insert c p net) u ≡ parent net u
unfolding parent
parent-insert_ne u c p net h = ground (arith, lookup-insert u c p net)

ne_of_far : {net : Dict ℕ} {c u : ℕ} → ¬ Reaches net c u → u ≢ c
ne_of_far {net} {c} {u} far e = far (subst (λ x. Reaches net x u) e here)

-- A walk that does not meet `c` is there whatever the entry of `c` becomes.
Up-insert_far :
    (c p : ℕ) {net : Dict ℕ} {u n : ℕ} → Up net u n → ¬ Reaches net c u → Up (insert c p net) u n
Up-insert_far c p {net} (top u e) far = top u (parent-insert_ne u c p net (ne_of_far far) ∙ e)
Up-insert_far c p {net} (step u q n e w) far =
    step u q n (parent-insert_ne u c p net (ne_of_far far) ∙ e)
      (Up-insert_far c p w (λ r. far (above u q e r)))

-- If the walk from `c` ends in the new network, so does every other.
Up-insert :
    (c p : ℕ) {net : Dict ℕ} {u n k : ℕ}
    → Up net u n
    → Up (insert c p net) c k
    → (m : ℕ) × Up (insert c p net) u m
Up-insert c p {net} {k = k} (top u e) w = elim (Bool-cases (u == c)) [
  | inl met ↦ (k, subst (λ x. Up (insert c p net) x k) (sym (==→eq u c met)) w)
  | inr other ↦ (0, top u (parent-insert_ne u c p net (ground arith) ∙ e))
]
Up-insert c p {net} {k = k} (step u q n e v) w = elim (Bool-cases (u == c)) [
  | inl met ↦ (k, subst (λ x. Up (insert c p net) x k) (sym (==→eq u c met)) w)
  | inr other ↦
      let (m, rest) = Up-insert c p v w in
      (suc m, step u q m (parent-insert_ne u c p net (ground arith) ∙ e) rest)
]

Up-insert_self :
    (c p : ℕ) (net : Dict ℕ)
    → IsForest net
    → ¬ IsCircular net p c
    → (k : ℕ) × Up (insert c p net) c k
Up-insert_self c zero net f far = (0, top c (parent-insert_self c zero net))
Up-insert_self c (suc p) net f far =
    let (n, w) = f (suc p) in
    (suc n, step c (suc p) n (parent-insert_self c (suc p) net) (Up-insert_far c (suc p) w far))

pub insert-IsForest :
    (c p : ℕ) (net : Dict ℕ) → IsForest net → ¬ IsCircular net p c → IsForest (insert c p net)
insert-IsForest c p net f far u = Up-insert c p (f u).1 (Up-insert_self c p net f far).1

pub empty-IsForest : IsForest []
unfolding parent
empty-IsForest u = (0, top u refl)

-- In a forest the cycle check ends.
pub would_create_cycle_ends :
    (net : Dict ℕ) (referrer referred : ℕ)
    → IsForest net
    → (b : Bool) × (would_create_cycle net referrer referred ≡ some b)
unfolding would_create_cycle
would_create_cycle_ends net zero referred f = (false, refl)
would_create_cycle_ends net (suc r) referred f =
    let (n, w) = f (suc r) in climbs_to_ends (length net + 1) referred w (omega (arith, Up-le n w))

pub would_create_cycle_sound :
    (net : Dict ℕ) (referrer referred : ℕ)
    → would_create_cycle net referrer referred ≡ some true
    → IsCircular net referrer referred
unfolding would_create_cycle
would_create_cycle_sound net zero referred e = absurd (ground arith)
would_create_cycle_sound net (suc r) referred e =
    climbs_to-Reaches (length net + 1) referred (suc r) net e

pub would_create_cycle-false :
    (net : Dict ℕ) (referrer referred : ℕ)
    → would_create_cycle net referrer referred ≡ some false
    → ¬ IsCircular net referrer referred
unfolding would_create_cycle
would_create_cycle-false net zero referred e = λ h. h
would_create_cycle-false net (suc r) referred e =
    climbs_to-false (length net + 1) referred (suc r) net e

-- The check's two answers, each with what it means.
pub cycle_cases :
    (net : Dict ℕ) (referrer referred : ℕ)
    → IsForest net
    → ((would_create_cycle net referrer referred ≡ some true) × IsCircular net referrer referred)
      ⊎ ((would_create_cycle net referrer referred ≡ some false)
          × (¬ IsCircular net referrer referred))
cycle_cases net r c f = let (b, e) = would_create_cycle_ends net r c f in decide_by b e
  where
    decide_by :
        (b : Bool)
        → would_create_cycle net r c ≡ some b
        → ((would_create_cycle net r c ≡ some true) × IsCircular net r c)
          ⊎ ((would_create_cycle net r c ≡ some false) × (¬ IsCircular net r c))
    decide_by true e = inl (e, would_create_cycle_sound net r c e)
    decide_by false e = inr (e, would_create_cycle-false net r c e)

added-network :
    (m m' : Mlm) (referrer referred : ℕ)
    → add_relationship m referrer referred ≡ added m'
    → (would_create_cycle m.network referrer referred ≡ some false)
      × (insert referred referrer m.network ≡ m'.network)
unfolding add_relationship
added-network m m' r c e = ground arith

-- A network that `addRelationship` has changed is a forest with distinct keys if the old one was.
pub add_relationship-IsForest :
    (m m' : Mlm) (referrer referred : ℕ)
    → IsForest m.network
    → IsMap m.network
    → add_relationship m referrer referred ≡ added m'
    → IsForest m'.network × IsMap m'.network
add_relationship-IsForest m m' r c f k e =
    let (checked, same_network) = added-network m m' r c e in
    subst (λ net. IsForest net × IsMap net) same_network
      (
        insert-IsForest c r m.network f (would_create_cycle-false m.network r c checked),
        insert-IsMap c r m.network k,
      )

-- In a forest `addRelationship` always comes back.
pub add_relationship-ne-diverged :
    (m : Mlm) (referrer referred : ℕ)
    → IsForest m.network
    → add_relationship m referrer referred ≢ refused diverged
unfolding add_relationship
add_relationship-ne-diverged m r c f =
    let (b, checked) = would_create_cycle_ends m.network r c f in ground arith

-- In a forest the three outcomes are told apart by the network alone.
pub add_relationship_outcomes :
    (m : Mlm) (referrer referred : ℕ)
    → IsForest m.network
    → let result = add_relationship m referrer referred in
      ((result ≡ refused circular) ↔ IsCircular m.network referrer referred)
      × ((result ≡ refused has_referrer)
          ↔ ((¬ IsCircular m.network referrer referred) × (contains referred m.network ≡ true)))
      × ((result ≡ added (record m { network = insert referred referrer m.network }))
          ↔ ((¬ IsCircular m.network referrer referred) × (contains referred m.network ≡ false)))
unfolding add_relationship
add_relationship_outcomes m r c f = elim (cycle_cases m.network r c f) [
  | inl (e, circle) ↦ (
    (λ _. circle, λ _. ground arith),
    (λ h. absurd (ground arith), λ h. absurd (h.0 circle)),
    (λ h. absurd (ground arith), λ h. absurd (h.0 circle)),
  )
  | inr (e, straight) ↦ (
    (λ h. absurd (ground arith), λ h. absurd (straight h)),
    (λ h. (straight, ground arith), λ h. ground arith),
    (λ h. (straight, ground arith), λ h. ground arith),
  )
]
