-- ===== src/Refunds/Paying.antt =====
-- `RefundMethodRouter.route` with the methods that the platform's refund policy allows.
use Prim.Native.String.{String}
use text.Mathlib.Text.{◌==◌ as str_eq}
use siam_siam_ecosystem.Router.Defs.{
  manual, routed, route, Transaction, payment_method_of, Routed, routes_of, allow, filter_allowed,
  includes, prefer, select, find_method, sort, place, Available,
}
use siam_siam_ecosystem.Router.Table.{
  new, wallet, store_credit, card, cash_on_delivery, Route, route_to, internal,
}
use siam_siam_ecosystem.Policies.Merging.{platform_policy}
use siam_siam_ecosystem.Common.{
  none, some, [], ◌∷◌, inl, inr, ◌⊎◌, arith, refl, map, Option, ℕ, if◌then◌else◌, List, ◌≡◌, ◌≢◌,
  Option-cases, ap, suc, zero,
}

-- The router's numbers of the methods that policies name; the router has no method 'original_payment'.
abbrev pub original_payment : ℕ
original_payment = 20

abbrev pub number_of : String → ℕ
number_of s =
    if str_eq s "wallet"
    then wallet
    else if str_eq s "store_credit"
    then store_credit
    else original_payment

abbrev pub numbers_of : Option (List String) → Option (List ℕ)
numbers_of none = none
numbers_of (some ms) = some (map number_of ms)

-- what the platform's policy, which every granted refund comes with, allows
abbrev pub allowed_methods : Option (List ℕ)
allowed_methods = numbers_of platform_policy.allowed_refund_methods

-- the routes of a payment method that are left
abbrev left : ℕ → List Route
left p = elim (routes_of p new) [ none ↦ [] | some (k, rs) ↦ (allow allowed_methods rs).routes ]

left_known : (p : ℕ) → routes_of p new ≢ none
unfolding routes_of
left_known p = λ e. ground arith

left_others : (p : ℕ) → p ≢ card → p ≢ cash_on_delivery → left p ≡ []
unfolding routes_of allow filter_allowed includes
left_others p c d = ground arith

left_stored :
    (p : ℕ) → (p ≡ card) ⊎ (p ≡ cash_on_delivery) → left p ≡ route_to store_credit internal 0 3 ∷ []
unfolding routes_of allow filter_allowed includes
left_stored p (inl h) = ground arith
left_stored p (inr h) = ground arith

-- a list of at most one route is left as it is
prefer_none :
    (preferred : ℕ) (a : Available) → a.routes ≡ [] → sort (prefer preferred a).routes ≡ []
unfolding prefer find_method sort
prefer_none zero a h = ap sort h
prefer_none (suc n) a h = ground arith

prefer_one :
    (preferred : ℕ) (r : Route) (a : Available)
    → a.routes ≡ r ∷ []
    → sort (prefer preferred a).routes ≡ r ∷ []
unfolding prefer find_method sort place
prefer_one zero r a h = rw h refl
prefer_one (suc n) r a h = ground arith

select_one :
    (t : Transaction) (p preferred : ℕ) (r : Route) (rs : List Route)
    → rs ≡ r ∷ []
    → (x : Routed) × (select t p allowed_methods preferred rs ≡ routed x) × (x.route ≡ r)
unfolding select
select_one t p preferred r rs h = rw h (_, refl, refl)

-- A refund that is routed by the methods of the policy and by the router's built-in table, as it is
-- before any `setRoutes` and any other call, where the payment method is not the name of an attribute that every object inherits:
-- it is paid as store credit where the payment was by card or on delivery, and otherwise left to
-- manual processing.
pub route_by_policy :
    (t : Transaction) (preferred : ℕ)
    → let a = (route (some t) allowed_methods preferred new).0 in
      ((payment_method_of t ≡ card) ⊎ (payment_method_of t ≡ cash_on_delivery)
        → (x : Routed) × (a ≡ routed x) × (x.route.method ≡ store_credit))
      × (payment_method_of t ≢ card → payment_method_of t ≢ cash_on_delivery → a ≡ manual)
unfolding route select
route_by_policy t preferred =
    let p = payment_method_of t in
    elim (Option-cases (routes_of p new)) [
      | inl e ↦ absurd (left_known p e)
      | inr ((k, rs), e) ↦
          let available = allow allowed_methods rs in
          rw (e, route)
            (
              (λ h.
                  let one : available.routes ≡ route_to store_credit internal 0 3 ∷ [] =
                    rw (e, left) at (left_stored p h) in
                  let (x, is_x, is_route) =
                    select_one t p preferred (route_to store_credit internal 0 3)
                      (sort (prefer preferred available).routes)
                      (prefer_one preferred (route_to store_credit internal 0 3) available one) in
                  (x, is_x, ap (λ (r : Route). r.method) is_route)),
              (λ c d.
                  let empty : available.routes ≡ [] = rw (e, left) at (left_others p c d) in
                  rw (prefer_none preferred available empty, select) refl),
            )
    ]
