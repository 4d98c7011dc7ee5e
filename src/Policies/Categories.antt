-- ===== src/Policies/Categories.antt =====
-- The table of the built-in category policies, and the engine that the package exports.
-- `_defineCategoryDefaults`
use siam_siam_ecosystem.Policies.Services.{
  digital_products_policy, services_policy, subscription_policy, gift_cards_policy, software_policy,
  event_tickets_policy, default_items_policy,
}
use siam_siam_ecosystem.Common.{◌∷◌, []}
use siam_siam_ecosystem.Policies.Goods.{
  electronics_policy, clothing_policy, furniture_policy, perishable_goods_policy,
  custom_made_policy, health_beauty_policy,
}
use siam_siam_ecosystem.Policies.Names.{
  electronics, clothing, furniture, digital_products, perishable_goods, custom_made, services,
  subscription, gift_cards, health_beauty, software, event_tickets,
}
use siam_siam_ecosystem.Dict.{Dict}
use siam_siam_ecosystem.Policies.Defs.{Engine, default_policy, Policy, default_category}

abbrev pub category_defaults : Dict Policy
category_defaults =
    (electronics, electronics_policy)
    ∷ ((clothing, clothing_policy)
        ∷ ((furniture, furniture_policy)
            ∷ ((digital_products, digital_products_policy)
                ∷ ((perishable_goods, perishable_goods_policy)
                    ∷ ((custom_made, custom_made_policy)
                        ∷ ((services, services_policy)
                            ∷ ((subscription, subscription_policy)
                                ∷ ((gift_cards, gift_cards_policy)
                                    ∷ ((health_beauty, health_beauty_policy)
                                        ∷ ((software, software_policy)
                                            ∷ ((event_tickets, event_tickets_policy)
                                                ∷ ((default_category, default_items_policy)
                                                    ∷ []))))))))))))

-- the constructor
abbrev pub new : Engine
new = record { category_policies = category_defaults; default_policy = default_policy }
