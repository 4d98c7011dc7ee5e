-- ===== src/Router/Tests.antt =====
-- Runs of the router, and its theorem at a concrete payment.
use siam_siam_ecosystem.Router.Choice.{IsChoice, route-IsChoice}
use siam_siam_ecosystem.Router.Defs.{
  routes_of, Transaction, route, sort, select, set_routes, place, prefer, allow, requires_approval,
  get_available_methods, get_routing_reason, find_method, to_method, routed, user_preference,
  default_routing,
}
use siam_siam_ecosystem.Router.Table.{
  Router, wallet_credit, ecocash, store_credit, route_to, mobile_money, internal, new,
}
use siam_siam_ecosystem.Common.{refl, none, some, [], ◌∷◌, false, ◌≡◌, map}

abbrev payment : Transaction
payment = record {
  id = 3;
  method = ecocash;
  payment_method = 0;
  amount = 100;
  is_international = false;
  processor = 4;
  gateway_ref = 0;
  reference = 9;
}

-- the first route of the table, and the one that is preferred
by_default :
    (route (some payment) none 0 new).0
    ≡ routed (record {
      route = route_to mobile_money ecocash 1 1;
      original_transaction_id = 3;
      original_payment_method = ecocash;
      requires_approval = false;
      original_processor = 4;
      original_gateway_ref = 9;
      routing_reason = default_routing;
    })
unfolding route routes_of select sort place prefer allow requires_approval get_routing_reason
by_default = refl

preferred :
    (route (some payment) none wallet_credit new).0
    ≡ routed (record {
      route = route_to wallet_credit internal 0 2;
      original_transaction_id = 3;
      original_payment_method = ecocash;
      requires_approval = false;
      original_processor = 4;
      original_gateway_ref = 9;
      routing_reason = user_preference;
    })
unfolding route routes_of select sort place prefer allow requires_approval get_routing_reason
    find_method
preferred = refl

-- routes that were set in another order are sorted in the table
abbrev unordered : Router
unordered =
    set_routes ecocash
      (route_to wallet_credit internal 0 2 ∷ (route_to mobile_money ecocash 1 1 ∷ [])) []

sorted_in_place :
    get_available_methods ecocash (route (some payment) none 0 unordered).1
    ≡ map to_method (route_to mobile_money ecocash 1 1 ∷ (route_to wallet_credit internal 0 2 ∷ []))
unfolding route routes_of sort place prefer allow set_routes get_available_methods
sorted_in_place = refl

found :
    routes_of ecocash unordered
    ≡ some
        (ecocash, (route_to wallet_credit internal 0 2 ∷ (route_to mobile_money ecocash 1 1 ∷ [])))
unfolding routes_of set_routes
found = refl

route-IsChoice_example :
    IsChoice
      (some (wallet_credit ∷ (store_credit ∷ [])))
      mobile_money
      (route_to wallet_credit internal 0 2 ∷ (route_to mobile_money ecocash 1 1 ∷ []))
      (route (some payment) (some (wallet_credit ∷ (store_credit ∷ []))) mobile_money unordered).0
route-IsChoice_example =
    route-IsChoice payment (some (wallet_credit ∷ (store_credit ∷ []))) mobile_money unordered
      ecocash (route_to wallet_credit internal 0 2 ∷ (route_to mobile_money ecocash 1 1 ∷ [])) found
