-- ===== src/Router/Table.antt =====
-- `class RefundMethodRouter`. Methods, processors and payment methods are texts that the code only
-- compares, so they are numbers, one for each text that the code names.
use siam_siam_ecosystem.Dict.{Dict}
use siam_siam_ecosystem.Common.{[], ◌∷◌, ℕ, List}

abbrev pub card_refund : ℕ
card_refund = 1

abbrev pub wallet_credit : ℕ
wallet_credit = 2

abbrev pub store_credit : ℕ
store_credit = 3

abbrev pub paypal_refund : ℕ
paypal_refund = 4

abbrev pub mobile_money : ℕ
mobile_money = 5

abbrev pub bank_transfer : ℕ
bank_transfer = 6

abbrev pub gateway_refund : ℕ
gateway_refund = 7

abbrev pub stripe : ℕ
stripe = 8

abbrev pub internal : ℕ
internal = 9

abbrev pub paypal : ℕ
paypal = 10

abbrev pub ecocash : ℕ
ecocash = 11

abbrev pub onemoney : ℕ
onemoney = 12

abbrev pub telecash : ℕ
telecash = 13

abbrev pub mpesa : ℕ
mpesa = 14

abbrev pub bank : ℕ
bank = 15

abbrev pub payit : ℕ
payit = 16

abbrev pub card : ℕ
card = 17

abbrev pub wallet : ℕ
wallet = 18

abbrev pub cash_on_delivery : ℕ
cash_on_delivery = 19

pub record Route : Type 0 where
  pub method : ℕ
  pub processor : ℕ
  pub settlement_days : ℕ
  pub priority : ℕ

-- a route of the table
abbrev pub route_to : (method processor settlement_days priority : ℕ) → Route
route_to method processor settlement_days priority = record {
  method = method;
  processor = processor;
  settlement_days = settlement_days;
  priority = priority;
}

abbrev pub Router : Type 0
Router = Dict (List Route)

-- a payment that can be paid back in kind, or else to the wallet
abbrev pub own_or_wallet : Route → List Route
own_or_wallet r = r ∷ (route_to wallet_credit internal 0 2 ∷ [])

abbrev pub own_or_credit : Route → List Route
own_or_credit r =
    r ∷ (route_to wallet_credit internal 0 2 ∷ (route_to store_credit internal 0 3 ∷ []))

-- mobile money by its own processor
abbrev pub mobile : ℕ → ℕ × List Route
mobile p = (p, own_or_wallet (route_to mobile_money p 1 1))

abbrev pub mobile_first : Router → Router
mobile_first rest = mobile ecocash ∷ (mobile onemoney ∷ (mobile telecash ∷ (mobile mpesa ∷ rest)))

abbrev pub others : Router
others =
    (bank_transfer, own_or_wallet (route_to bank_transfer bank 3 1))
    ∷ ((wallet, (route_to wallet_credit internal 0 1 ∷ []))
        ∷ ((cash_on_delivery, own_or_credit (route_to bank_transfer bank 3 1))
            ∷ ((payit, own_or_wallet (route_to gateway_refund payit 3 1)) ∷ [])))

-- the constructor
abbrev pub new : Router
new =
    (card, own_or_credit (route_to card_refund stripe 5 1))
    ∷ ((stripe, (route_to card_refund stripe 5 1 ∷ []))
        ∷ ((paypal, (route_to paypal_refund paypal 3 1 ∷ [])) ∷ mobile_first others))
