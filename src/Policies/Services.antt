-- ===== src/Policies/Services.antt =====
-- `_defineCategoryDefaults`: the built-in policies for what is no ware, and for all else.
use siam_siam_ecosystem.Common.{some, false, [], ◌∷◌, none, true}
use siam_siam_ecosystem.Policies.Defs.{Condition, ExceptionType, Policy}

abbrev pub digital_products_policy : Policy
digital_products_policy = record {
  return_window = some 0;
  condition = some Condition.non_refundable;
  restocking_fee = some 0;
  requires_original_packaging = some false;
  allowed_refund_methods = some ([]);
  partial_refunds_allowed = some false;
  max_partial_refunds = none;
  requires_approval = some false;
  approval_threshold = none;
  exceptions = some (
      record {
        type = ExceptionType.not_downloaded;
        override = true;
        return_window = some 7;
        restocking_fee = none;
        reason = "Digital products not yet downloaded can be refunded within 7 days";
      }
      ∷ (record {
        type = ExceptionType.defective;
        override = true;
        return_window = some 30;
        restocking_fee = none;
        reason = "Defective digital products have 30-day refund window";
      }
          ∷ []));
  description = some "Digital products are non-refundable once downloaded";
  source = none;
}

abbrev pub services_policy : Policy
services_policy = record {
  return_window = some 7;
  condition = some Condition.case_by_case;
  restocking_fee = some 0;
  requires_original_packaging = some false;
  allowed_refund_methods = some ("original_payment" ∷ ("wallet" ∷ []));
  partial_refunds_allowed = some true;
  max_partial_refunds = none;
  requires_approval = some true;
  approval_threshold = some (some 50);
  exceptions = some (
      record {
        type = ExceptionType.not_rendered;
        override = true;
        return_window = some 30;
        restocking_fee = none;
        reason = "Services not yet rendered can be cancelled within 30 days";
      }
      ∷ (record {
        type = ExceptionType.unsatisfactory;
        override = true;
        return_window = none;
        restocking_fee = none;
        reason = "Unsatisfactory service delivery reviewed case-by-case";
      }
          ∷ []));
  description =
      some "Services reviewed on a case-by-case basis; 7-day window for standard requests";
  source = none;
}

abbrev pub subscription_policy : Policy
subscription_policy = record {
  return_window = some 14;
  condition = some Condition.prorated;
  restocking_fee = some 0;
  requires_original_packaging = some false;
  allowed_refund_methods = some ("original_payment" ∷ ("wallet" ∷ []));
  partial_refunds_allowed = some true;
  max_partial_refunds = none;
  requires_approval = some false;
  approval_threshold = none;
  exceptions = some (
      record {
        type = ExceptionType.annual_prepaid;
        override = true;
        return_window = some 30;
        restocking_fee = none;
        reason = "Annual subscriptions have 30-day cancellation window";
      }
      ∷ []);
  description = some "14-day cancellation with prorated refund for unused portion";
  source = none;
}

abbrev pub gift_cards_policy : Policy
gift_cards_policy = record {
  return_window = some 0;
  condition = some Condition.non_refundable;
  restocking_fee = some 0;
  requires_original_packaging = some false;
  allowed_refund_methods = some ([]);
  partial_refunds_allowed = some false;
  max_partial_refunds = none;
  requires_approval = some false;
  approval_threshold = none;
  exceptions = some (
      record {
        type = ExceptionType.unauthorized_purchase;
        override = true;
        return_window = some 60;
        restocking_fee = none;
        reason = "Unauthorized gift card purchases can be disputed within 60 days";
      }
      ∷ []);
  description = some "Gift cards are non-refundable";
  source = none;
}

abbrev pub software_policy : Policy
software_policy = record {
  return_window = some 0;
  condition = some Condition.non_refundable;
  restocking_fee = some 0;
  requires_original_packaging = some false;
  allowed_refund_methods = some ([]);
  partial_refunds_allowed = some false;
  max_partial_refunds = none;
  requires_approval = some false;
  approval_threshold = none;
  exceptions = some (
      record {
        type = ExceptionType.license_not_activated;
        override = true;
        return_window = some 7;
        restocking_fee = none;
        reason = "Unactivated software licenses can be refunded within 7 days";
      }
      ∷ (record {
        type = ExceptionType.compatibility_issue;
        override = true;
        return_window = some 14;
        restocking_fee = none;
        reason = "Software with documented compatibility issues has 14-day return";
      }
          ∷ []));
  description = some "Software is non-refundable once license is activated";
  source = none;
}

abbrev pub event_tickets_policy : Policy
event_tickets_policy = record {
  return_window = some 0;
  condition = some Condition.non_refundable;
  restocking_fee = some 0;
  requires_original_packaging = some false;
  allowed_refund_methods = some ([]);
  partial_refunds_allowed = some false;
  max_partial_refunds = none;
  requires_approval = some false;
  approval_threshold = none;
  exceptions = some (
      record {
        type = ExceptionType.event_cancelled;
        override = true;
        return_window = some 365;
        restocking_fee = none;
        reason = "Cancelled events qualify for full refund";
      }
      ∷ (record {
        type = ExceptionType.event_rescheduled;
        override = true;
        return_window = some 30;
        restocking_fee = none;
        reason = "Rescheduled events allow refund requests within 30 days of notice";
      }
          ∷ []));
  description = some "Event tickets are non-refundable unless event is cancelled";
  source = none;
}

abbrev pub default_items_policy : Policy
default_items_policy = record {
  return_window = some 14;
  condition = some Condition.good_condition;
  restocking_fee = some 0;
  requires_original_packaging = some false;
  allowed_refund_methods = some ("original_payment" ∷ ("wallet" ∷ ("store_credit" ∷ [])));
  partial_refunds_allowed = some true;
  max_partial_refunds = some 3;
  requires_approval = some false;
  approval_threshold = none;
  exceptions = some ([]);
  description = some "Standard 14-day return policy for items in good condition";
  source = none;
}
