-- ===== src/Policies/Goods.antt =====
-- `_defineCategoryDefaults`: the built-in policies for goods.
use siam_siam_ecosystem.Common.{some, false, true, [], ◌∷◌, none}
use siam_siam_ecosystem.Policies.Defs.{Condition, ExceptionType, Policy}

abbrev pub electronics_policy : Policy
electronics_policy = record {
  return_window = some 14;
  condition = some Condition.unopened_or_defective;
  restocking_fee = some 0;
  requires_original_packaging = some true;
  allowed_refund_methods = some ("original_payment" ∷ ("store_credit" ∷ []));
  partial_refunds_allowed = some false;
  max_partial_refunds = none;
  requires_approval = some true;
  approval_threshold = some (some 100);
  exceptions = some (
      record {
        type = ExceptionType.defective;
        override = true;
        return_window = some 30;
        restocking_fee = none;
        reason = "Defective electronics have 30-day return";
      }
      ∷ []);
  description = some "14-day return for unopened electronics; 30-day for defective items";
  source = none;
}

abbrev pub clothing_policy : Policy
clothing_policy = record {
  return_window = some 30;
  condition = some Condition.unworn_with_tags;
  restocking_fee = some 0;
  requires_original_packaging = some false;
  allowed_refund_methods = some ("original_payment" ∷ ("wallet" ∷ ("store_credit" ∷ [])));
  partial_refunds_allowed = some true;
  max_partial_refunds = some 5;
  requires_approval = some false;
  approval_threshold = none;
  exceptions = some (
      record {
        type = ExceptionType.sale_item;
        override = false;
        return_window = none;
        restocking_fee = none;
        reason = "Sale items are final sale";
      }
      ∷ (record {
        type = ExceptionType.underwear;
        override = false;
        return_window = none;
        restocking_fee = none;
        reason = "Underwear cannot be returned for hygiene reasons";
      }
          ∷ []));
  description = some "30-day return for unworn clothing with tags attached";
  source = none;
}

abbrev pub furniture_policy : Policy
furniture_policy = record {
  return_window = some 7;
  condition = some Condition.unused;
  restocking_fee = some 15;
  requires_original_packaging = some true;
  allowed_refund_methods = some ("original_payment" ∷ ("store_credit" ∷ []));
  partial_refunds_allowed = some false;
  max_partial_refunds = none;
  requires_approval = some true;
  approval_threshold = some (some 200);
  exceptions = some (
      record {
        type = ExceptionType.defective;
        override = true;
        return_window = some 30;
        restocking_fee = some 0;
        reason = "Defective furniture has 30-day return with no restocking fee";
      }
      ∷ (record {
        type = ExceptionType.assembled;
        override = false;
        return_window = none;
        restocking_fee = none;
        reason = "Assembled furniture cannot be returned";
      }
          ∷ []));
  description = some "7-day return for unused furniture; 15% restocking fee applies";
  source = none;
}

abbrev pub perishable_goods_policy : Policy
perishable_goods_policy = record {
  return_window = some 0;
  condition = some Condition.non_refundable;
  restocking_fee = some 0;
  requires_original_packaging = some false;
  allowed_refund_methods = some ([]);
  partial_refunds_allowed = some false;
  max_partial_refunds = none;
  requires_approval = some false;
  approval_threshold = none;
  exceptions = some (
      record {
        type = ExceptionType.spoiled_on_delivery;
        override = true;
        return_window = some 1;
        restocking_fee = none;
        reason = "Spoiled items reported within 24 hours qualify for refund";
      }
      ∷ (record {
        type = ExceptionType.wrong_item;
        override = true;
        return_window = some 1;
        restocking_fee = none;
        reason = "Wrong item delivered qualifies for refund";
      }
          ∷ []));
  description = some "Perishable goods are non-refundable except for quality issues at delivery";
  source = none;
}

abbrev pub custom_made_policy : Policy
custom_made_policy = record {
  return_window = some 0;
  condition = some Condition.non_refundable;
  restocking_fee = some 0;
  requires_original_packaging = some false;
  allowed_refund_methods = some ([]);
  partial_refunds_allowed = some false;
  max_partial_refunds = none;
  requires_approval = some false;
  approval_threshold = none;
  exceptions = some (
      record {
        type = ExceptionType.not_as_specified;
        override = true;
        return_window = some 14;
        restocking_fee = none;
        reason = "Custom items not matching specifications can be returned";
      }
      ∷ (record {
        type = ExceptionType.defective_materials;
        override = true;
        return_window = some 30;
        restocking_fee = none;
        reason = "Custom items with defective materials have 30-day return";
      }
          ∷ []));
  description = some "Custom-made items are non-refundable unless not matching specifications";
  source = none;
}

abbrev pub health_beauty_policy : Policy
health_beauty_policy = record {
  return_window = some 14;
  condition = some Condition.sealed;
  restocking_fee = some 0;
  requires_original_packaging = some true;
  allowed_refund_methods = some ("original_payment" ∷ ("store_credit" ∷ []));
  partial_refunds_allowed = some false;
  max_partial_refunds = none;
  requires_approval = some false;
  approval_threshold = none;
  exceptions = some (
      record {
        type = ExceptionType.allergic_reaction;
        override = true;
        return_window = some 30;
        restocking_fee = none;
        reason = "Products causing allergic reactions can be returned within 30 days";
      }
      ∷ (record {
        type = ExceptionType.opened;
        override = false;
        return_window = none;
        restocking_fee = none;
        reason = "Opened health/beauty products cannot be returned for hygiene reasons";
      }
          ∷ []));
  description = some "14-day return for sealed health & beauty products";
  source = none;
}
