-- ===== src/Models/Plan.antt =====
-- app/models/plan.py
use plynth.Prelude.{ℕ, ℤ, String, Bool, Option, List}

pub data BillingInterval : Type 0 where
  month year one_time : BillingInterval

pub record PlanFeature : Type 0 where
  pub plan_id : ℕ
  pub product_id : ℕ
  pub feature_key : String
  pub limit_value : Option ℤ
  pub credit_amount : Option ℤ
  pub is_hard_limit : Bool

-- `features` is the loaded relationship, empty on a row of the table; `provider_refs` holds the
-- price identifiers by the provider's name.
pub record Plan : Type 0 where
  pub id : ℕ
  pub product_id : ℕ
  pub code : String
  pub name : String
  pub description : Option String
  pub price_cents : ℕ
  pub currency : String
  pub interval : BillingInterval
  pub trial_days : ℕ
  pub is_public : Bool
  pub is_active : Bool
  pub provider_refs : List (String × String)
  pub features : List PlanFeature
