-- ===== src/Policies/Names.antt =====
-- The categories that `RefundPolicyEngine` names, numbered in the order of the code, and the names that
-- are shown.
use siam_siam_ecosystem.Policies.Defs.{Policy}
use Prim.Native.Nat.{ℕ}
use siam_siam_ecosystem.Common.{ℕ, if◌then◌else◌, Option, ◌==◌}
use Prim.Native.String.{String}
use siam_siam_ecosystem.Common.{none, some}
use text.Mathlib.Text.{◌==◌ as str_eq}

abbrev pub electronics : ℕ
electronics = 3

abbrev pub clothing : ℕ
clothing = 4

abbrev pub furniture : ℕ
furniture = 5

abbrev pub digital_products : ℕ
digital_products = 6

abbrev pub perishable_goods : ℕ
perishable_goods = 7

abbrev pub custom_made : ℕ
custom_made = 8

abbrev pub services : ℕ
services = 9

abbrev pub subscription : ℕ
subscription = 10

abbrev pub gift_cards : ℕ
gift_cards = 11

abbrev pub health_beauty : ℕ
health_beauty = 12

abbrev pub software : ℕ
software = 13

abbrev pub event_tickets : ℕ
event_tickets = 14

-- `_getCategoryDisplayName`
unfoldable pub get_category_display_name : ℕ → String
get_category_display_name c =
    if c == electronics
    then "Electronics"
    else if c == clothing
    then "Clothing & Apparel"
    else if c == furniture
    then "Furniture"
    else if c == digital_products
    then "Digital Products"
    else if c == perishable_goods
    then "Perishable Goods"
    else if c == custom_made
    then "Custom-Made Items"
    else if c == services
    then "Services"
    else if c == subscription
    then "Subscriptions"
    else if c == gift_cards
    then "Gift Cards"
    else if c == health_beauty
    then "Health & Beauty"
    else if c == software
    then "Software Licenses"
    else if c == event_tickets
    then "Event Tickets"
    else "This Item"

-- `_getNonRefundableReason`, in parts: the name shown and, unless it is empty, the description
unfoldable pub get_non_refundable_reason : ℕ → Policy → String × Option String
get_non_refundable_reason c p = (
  get_category_display_name c,
  elim p.description [ none ↦ none | some s ↦ if str_eq s "" then none else some s ],
)
