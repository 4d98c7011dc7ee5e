-- ===== src/Policies/Contexts.antt =====
-- What `RefundPolicyEngine.evaluate` is asked, and the tests of its attributes.
use siam_siam_ecosystem.Time.{Days}
use siam_siam_ecosystem.Policies.Defs.{Policy}
use siam_siam_ecosystem.Common.{none, some, ℕ, Bool, Option, false, not}

-- A context; an attribute that is absent is `none`, and a text that is absent 0.
pub record Context : Type 0 where
  pub item_id : ℕ
  pub product_category : ℕ
  pub product_sub_category : ℕ
  pub days_since_purchase : Option Days
  pub merchant_policy : Option Policy
  pub product_policy : Option Policy
  pub order_type : ℕ
  pub is_opened : Option Bool
  pub has_original_packaging : Option Bool
  pub has_tags : Option Bool
  pub is_damaged : Option Bool
  pub purchase_price : Option ℕ
  pub is_downloaded : Option Bool
  pub delivery_issue : ℕ
  pub matches_specification : Option Bool
  pub damage_type : ℕ
  pub service_rendered : Option Bool
  pub satisfaction : ℕ
  pub subscription_type : ℕ
  pub authorized : Option Bool
  pub allergic_reaction : Option Bool
  pub license_activated : Option Bool
  pub compatibility_issue : Option Bool
  pub event_cancelled : Option Bool
  pub event_rescheduled : Option Bool
  pub is_assembled : Option Bool

-- the texts 'sale', 'underwear', 'spoiled', 'wrong_item', 'material_defect', 'unsatisfactory', 'annual'
abbrev pub sale : ℕ
sale = 2

abbrev pub underwear_category : ℕ
underwear_category = 2

abbrev pub spoiled : ℕ
spoiled = 1

abbrev pub wrong_item_text : ℕ
wrong_item_text = 2

abbrev pub material_defect : ℕ
material_defect = 1

abbrev pub unsatisfactory_text : ℕ
unsatisfactory_text = 1

abbrev pub annual : ℕ
annual = 1

-- `b === true` and `b === false`
abbrev pub is_true : Option Bool → Bool
is_true none = false
is_true (some b) = b

abbrev pub is_false : Option Bool → Bool
is_false none = false
is_false (some b) = not b

-- the value of `b`, or a default where it is absent
abbrev pub given : Bool → Option Bool → Bool
given d none = d
given d (some b) = b
