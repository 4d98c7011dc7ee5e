-- ===== src/Router/Defs.antt =====
-- The operations of `RefundMethodRouter`. Sorting the routes changes the table of the router where
-- nothing was filtered, since the code then sorts the table's own array.
use siam_siam_ecosystem.Dict.{insert, lookup}
use siam_siam_ecosystem.Router.Table.{Route, Router, bank_transfer}
use siam_siam_ecosystem.Common.{
  none, some, [], ◌∷◌, List, Option, ℕ, if◌then◌else◌, or_default, true, Bool, false, truthy, ltb,
  ◌==◌, leb, ◌||◌, map,
}

pub record Transaction : Type 0 where
  pub id : ℕ
  pub method : ℕ
  pub payment_method : ℕ
  pub amount : ℕ
  pub is_international : Bool
  pub processor : ℕ
  pub gateway_ref : ℕ
  pub reference : ℕ

pub data Reason : Type 0 where
  user_preference allowed_method default_routing : Reason

pub record Routed : Type 0 where
  pub route : Route
  pub original_transaction_id : ℕ
  pub original_payment_method : ℕ
  pub requires_approval : Bool
  pub original_processor : ℕ
  pub original_gateway_ref : ℕ
  pub routing_reason : Reason

pub data Answer : Type 0 where
  -- 'Original transaction is required for refund routing'
  transaction_required : Answer
  -- a table without bank transfers, which `setRoutes` cannot make: sorting `undefined`
  type_error : Answer
  manual : Answer
  routed : Routed → Answer

-- `methods.includes(m)`
unfoldable pub includes : ℕ → List ℕ → Bool
includes m [] = false
includes m (n ∷ ns) = (n == m) || includes m ns

-- `routes.filter(route => allowedMethods.includes(route.method))`
unfoldable pub filter_allowed : List ℕ → List Route → List Route
filter_allowed allowed [] = []
filter_allowed allowed (r ∷ rs) =
    let rest = filter_allowed allowed rs in if includes r.method allowed then r ∷ rest else rest

-- `routes.find(r => r.method === preferredMethod)`
unfoldable pub find_method : ℕ → List Route → Option Route
find_method m [] = none
find_method m (r ∷ rs) = if r.method == m then some r else find_method m rs

-- `routes.sort((a, b) => a.priority - b.priority)`, which is stable
unfoldable pub place : Route → List Route → List Route
place r [] = r ∷ []
place r (q ∷ qs) = if leb r.priority q.priority then r ∷ (q ∷ qs) else q ∷ place r qs

unfoldable pub sort : List Route → List Route
sort [] = []
sort (r ∷ rs) = place r (sort rs)

-- `_requiresApproval`
unfoldable pub requires_approval : Route → Transaction → Bool
requires_approval r t = ltb 1000 t.amount || ((r.method == bank_transfer) || t.is_international)

-- `_getRoutingReason`; a preference that is absent is 0
unfoldable pub get_routing_reason : Route → Option (List ℕ) → ℕ → Reason
get_routing_reason r allowed preferred =
    if preferred == r.method then user_preference else elim allowed [
      | none ↦ default_routing
      | some ms ↦ if includes r.method ms then allowed_method else default_routing
    ]

-- the routes that are left, and whether they are the table's own array
pub record Available : Type 0 where
  pub routes : List Route
  pub own : Bool

unfoldable pub allow : Option (List ℕ) → List Route → Available
allow none rs = record { routes = rs; own = true }
allow (some []) rs = record { routes = rs; own = true }
allow (some (m ∷ ms)) rs = record { routes = filter_allowed (m ∷ ms) rs; own = false }

unfoldable pub prefer : ℕ → Available → Available
prefer preferred a =
    if truthy preferred
    then elim (find_method preferred a.routes) [
      | none ↦ a
      | some r ↦ record { routes = r ∷ []; own = false }
    ]
    else a

-- the answer by the first of the sorted routes
unfoldable pub select :
    Transaction → (payment_method : ℕ) → Option (List ℕ) → (preferred : ℕ) → List Route → Answer
select t payment_method allowed preferred [] = manual
select t payment_method allowed preferred (r ∷ rs) = routed (record {
  route = r;
  original_transaction_id = t.id;
  original_payment_method = payment_method;
  requires_approval = requires_approval r t;
  original_processor = t.processor;
  original_gateway_ref = or_default t.gateway_ref t.reference;
  routing_reason = get_routing_reason r allowed preferred;
})

-- the key and the routes of the table that a payment method is looked up as
unfoldable pub routes_of : ℕ → Router → Option (ℕ × List Route)
routes_of payment_method m = elim (lookup payment_method m) [
  | some rs ↦ some (payment_method, rs)
  | none ↦ elim (lookup bank_transfer m) [ some rs ↦ some (bank_transfer, rs) | none ↦ none ]
]

abbrev pub payment_method_of : Transaction → ℕ
payment_method_of t = or_default t.method (or_default t.payment_method bank_transfer)

-- `route`
unfoldable pub route :
    Option Transaction → Option (List ℕ) → (preferred : ℕ) → Router → Answer × Router
route none allowed preferred m = (transaction_required, m)
route (some t) allowed preferred m = elim (routes_of (payment_method_of t) m) [
  | none ↦ (type_error, m)
  | some (k, rs) ↦
      let available = prefer preferred (allow allowed rs) in
      let ordered = sort available.routes in
      (
        select t (payment_method_of t) allowed preferred ordered,
        if available.own then insert k ordered m else m,
      )
]

-- `getAvailableMethods`, without the descriptions
pub record Method : Type 0 where
  pub method : ℕ
  pub processor : ℕ
  pub settlement_days : ℕ

abbrev pub to_method : Route → Method
to_method r = record {
  method = r.method;
  processor = r.processor;
  settlement_days = r.settlement_days;
}

unfoldable pub get_available_methods : ℕ → Router → List Method
get_available_methods payment_method m = elim (lookup payment_method m) [
  | none ↦ []
  | some rs ↦ map to_method rs
]

-- `setRoutes`
unfoldable pub set_routes : ℕ → List Route → Router → Router
set_routes payment_method rs m = insert payment_method rs m
