-- ===== src/Router/Choice.antt =====
-- Which route is chosen.
use siam_siam_ecosystem.Router.Defs.{
  transaction_required, type_error, manual, routed, route, routes_of, payment_method_of,
}
use siam_siam_ecosystem.Router.Table.{Route, Router}
use siam_siam_ecosystem.Router.Defs.{
  find_method, filter_allowed, sort, place, includes, Answer, allow, Transaction, select, prefer,
  routed,
}
use siam_siam_ecosystem.Common.{
  none, some, [], ◌∷◌, refl, inl, inr, ◌⊎◌, arith, true, false, Option, ℕ, List, ◌≤◌, ◌≡◌, ◌↔◌, ◌≢◌,
  Bool-cases, List-cases, ◌==◌, leb, subst, sym, ap, leb→le, suc, Option-cases, zero,
}

abbrev pub In : Route → List Route → Type 0
In r [] = ⊥
In r (q ∷ qs) = (r ≡ q) ⊎ In r qs

-- an absent or an empty list of allowed methods allows every route
abbrev pub Admits : Option (List ℕ) → Route → Type 0
Admits none r = Unit
Admits (some []) r = Unit
Admits (some (m ∷ ms)) r = includes r.method (m ∷ ms) ≡ true

abbrev pub Least : Route → List Route → Type 0
Least h rs = (q : Route) → In q rs → h.priority ≤ q.priority

sort_nil : (rs : List Route) → sort rs ≡ [] → rs ≡ []
unfolding sort place
sort_nil [] h = refl
sort_nil (r ∷ rs) h = elim (List-cases (sort rs)) [
  | inl e ↦ absurd (ground (arith, e))
  | inr (q, qs, e) ↦ absurd (ground (arith, e))
]

Least-cons :
    (h r : Route) (rs : List Route) → h.priority ≤ r.priority → Least h rs → Least h (r ∷ rs)
Least-cons h r rs e l q (inl same) = rw same e
Least-cons h r rs e l q (inr i) = l q i

Least-nil : (h : Route) (rs : List Route) → rs ≡ [] → Least h rs
Least-nil h rs e q i = absurd (subst (λ l. In q l) e i)

place_nil : (r : Route) (rs : List Route) → sort rs ≡ [] → sort (r ∷ rs) ≡ r ∷ []
unfolding sort place
place_nil r rs e = rw (e, place) refl

place_first :
    (r p : Route) (rs ps : List Route)
    → sort rs ≡ p ∷ ps
    → leb r.priority p.priority ≡ true
    → sort (r ∷ rs) ≡ r ∷ (p ∷ ps)
unfolding sort place
place_first r p rs ps e l = ground (arith, e, l)

place_later :
    (r p : Route) (rs ps : List Route)
    → sort rs ≡ p ∷ ps
    → leb r.priority p.priority ≡ false
    → sort (r ∷ rs) ≡ p ∷ place r ps
unfolding sort place
place_later r p rs ps e l = ground (arith, e, l)

sort_head :
    (rs : List Route) (h : Route) (qs : List Route) → sort rs ≡ h ∷ qs → In h rs × Least h rs
unfolding sort place
sort_head [] h qs e = cc
sort_head (r ∷ rs) h qs e = elim (List-cases (sort rs)) [
  | inl none_left ↦
      let same : r ≡ h = cc (place_nil r rs none_left) in
      (
        inl (sym same),
        Least-cons h r rs (omega (arith, ap (λ (x : Route). x.priority) same))
            (Least-nil h rs (sort_nil rs none_left)),
      )
  | inr (p, ps, is_p) ↦
      let (p_in, p_least) = sort_head rs p ps is_p in
      elim (Bool-cases (leb r.priority p.priority)) [
        | inl first ↦
            let same : r ≡ h = cc (place_first r p rs ps is_p first) in
            (
              inl (sym same),
              Least-cons h r rs (omega (arith, ap (λ (x : Route). x.priority) same)) (λ q i. omega (
                arith,
                ap (λ (x : Route). x.priority) same,
                leb→le r.priority p.priority first,
                p_least q i,
              )),
            )
        | inr later ↦
            let same : p ≡ h = cc (place_later r p rs ps is_p later) in
            (
              inr (subst (λ x. In x rs) same p_in),
              Least-cons h r rs (ground (arith, ap (λ (x : Route). x.priority) same))
                  (λ q i. omega (arith, ap (λ (x : Route). x.priority) same, p_least q i)),
            )
      ]
]

filter_allowed-In :
    (allowed : List ℕ) (r : Route) (rs : List Route)
    → In r (filter_allowed allowed rs) ↔ (In r rs × (includes r.method allowed ≡ true))
unfolding filter_allowed
filter_allowed-In allowed r [] = ((λ h. absurd h), (λ h. h.0))
filter_allowed-In allowed r (q ∷ qs) =
    let (to_in, of_in) = filter_allowed-In allowed r qs in
    elim (Bool-cases (includes q.method allowed)) [
      | inl e ↦ rw e (
        (λ h. elim h [
          | inl same ↦ (inl same, rw (ap (λ (x : Route). x.method) same) e)
          | inr i ↦ (inr ((to_in i).0), (to_in i).1)
        ]),
        (λ h. elim (h.0) [ inl same ↦ inl same | inr i ↦ inr (of_in (i, h.1)) ]),
      )
      | inr e ↦ rw e (
        (λ h. (inr ((to_in h).0), (to_in h).1)),
        (λ h. elim (h.0) [
          | inl same ↦ absurd (cc (ap (λ (x : Route). includes x.method allowed) same, h.1))
          | inr i ↦ of_in (i, h.1)
        ]),
      )
    ]

find_some :
    (m : ℕ) (rs : List Route) (r : Route) → find_method m rs ≡ some r → In r rs × (r.method ≡ m)
unfolding find_method
find_some m [] r h = cc
find_some m (q ∷ qs) r h = elim (Bool-cases (q.method == m)) [
  | inl e ↦ (inl (ground arith), ground arith)
  | inr e ↦ let found = find_some m qs r (ground arith) in (inr (found.0), found.1)
]

find_none : (m : ℕ) (rs : List Route) (r : Route) → find_method m rs ≡ none → In r rs → r.method ≢ m
unfolding find_method
find_none m [] r h i = absurd i
find_none m (q ∷ qs) r h (inl e) = ground (arith, ap (λ (x : Route). x.method) e)
find_none m (q ∷ qs) r h (inr i) = find_none m qs r (ground arith) i

allow-In :
    (allowed : Option (List ℕ)) (r : Route) (rs : List Route)
    → In r (allow allowed rs).routes ↔ (In r rs × Admits allowed r)
unfolding allow
allow-In none r rs = ((λ h. (h, tt)), (λ h. h.0))
allow-In (some []) r rs = ((λ h. (h, tt)), (λ h. h.0))
allow-In (some (m ∷ ms)) r rs = filter_allowed-In (m ∷ ms) r rs

-- What the answer must be: the preferred route, where a preference is given and an allowed route has it;
-- otherwise an allowed route than which no allowed one has a lower priority; and manual processing where
-- no route is allowed.
abbrev pub IsChoice : Option (List ℕ) → (preferred : ℕ) → List Route → Answer → Type 0
IsChoice allowed preferred rs transaction_required = ⊥
IsChoice allowed preferred rs type_error = ⊥
IsChoice allowed preferred rs manual = (r : Route) → In r rs → ¬ (Admits allowed r)
IsChoice allowed preferred rs (routed x) =
    In x.route rs
    × Admits allowed x.route
    × (((preferred ≢ 0) × (x.route.method ≡ preferred))
        ⊎ (((preferred ≡ 0) ⊎ ((r : Route) → In r rs → Admits allowed r → r.method ≢ preferred))
            × ((r : Route) → In r rs → Admits allowed r → x.route.priority ≤ r.priority)))

module _ (t : Transaction) (pm : ℕ) (allowed : Option (List ℕ)) (rs : List Route) where
  -- no preference, or none that an allowed route has
  by_priority :
      (preferred : ℕ)
      → (preferred ≡ 0) ⊎ ((r : Route) → In r rs → Admits allowed r → r.method ≢ preferred)
      → IsChoice allowed preferred rs
          (select t pm allowed preferred (sort (allow allowed rs).routes))
  unfolding select
  by_priority preferred unmet = elim (List-cases (sort (allow allowed rs).routes)) [
    | inl e ↦
        rw (e, select)
          (λ r i a. absurd (
            subst (λ l. In r l) (sort_nil (allow allowed rs).routes e)
              ((allow-In allowed r rs).1 (i, a))))
    | inr (h, qs, e) ↦
        let (h_in, h_least) = sort_head (allow allowed rs).routes h qs e in
        let (h_old, h_admitted) = (allow-In allowed h rs).0 h_in in
        rw (e, select)
          (h_old, h_admitted, inr (unmet, λ r i a. h_least r ((allow-In allowed r rs).1 (i, a))))
  ]

  by_preference :
      (preferred : ℕ)
      → IsChoice allowed preferred rs
          (select t pm allowed preferred (sort (prefer preferred (allow allowed rs)).routes))
  unfolding prefer select sort place
  by_preference zero = by_priority 0 (inl refl)
  by_preference (suc n) = elim (Option-cases (find_method (suc n) (allow allowed rs).routes)) [
    | inl e ↦
        rw (e, prefer)
          (by_priority (suc n) (
            inr (λ r i a.
              find_none (suc n) (allow allowed rs).routes r e ((allow-In allowed r rs).1 (i, a)))))
    | inr (r, e) ↦
        let (r_in, is_preferred) = find_some (suc n) (allow allowed rs).routes r e in
        let (r_old, r_admitted) = (allow-In allowed r rs).0 r_in in
        rw (e, prefer) (r_old, r_admitted, inl ((λ z. cc), is_preferred))
  ]

-- For a transaction whose payment method, or bank transfers in its place, the router knows: `route`
-- always answers. A route is answered exactly when one is allowed; it is the preferred one where that is
-- allowed, and otherwise one of the lowest priority number among those that are allowed.
pub route-IsChoice :
    (t : Transaction) (allowed : Option (List ℕ)) (preferred : ℕ) (m : Router) (k : ℕ)
    (rs : List Route)
    → routes_of (payment_method_of t) m ≡ some (k, rs)
    → IsChoice allowed preferred rs (route (some t) allowed preferred m).0
unfolding route
route-IsChoice t allowed preferred m k rs e =
    rw (e, route) (by_preference t (payment_method_of t) allowed rs preferred)
