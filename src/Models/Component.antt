-- ===== src/Models/Component.antt =====
-- app/models/component.py
use plynth.Prelude.{ℕ, String, Bool, Option, List}

pub record ProductComponent : Type 0 where
  pub id : ℕ
  pub product_id : ℕ
  pub code : String
  pub name : String
  pub description : Option String
  pub is_default_enabled : Bool
  pub is_active : Bool
  pub settings : String
  pub required_plan_codes : Option (List String)

pub record UserComponentOverride : Type 0 where
  pub id : ℕ
  pub product_id : ℕ
  pub tenant_id : ℕ
  pub user_id : ℕ
  pub component_id : ℕ
  pub is_enabled : Bool
  pub reason : Option String
  pub set_by_user_id : Option ℕ
  pub set_at : ℕ

pub record TenantComponentOverride : Type 0 where
  pub id : ℕ
  pub product_id : ℕ
  pub tenant_id : ℕ
  pub component_id : ℕ
  pub is_enabled : Bool
  pub reason : Option String
  pub set_by_user_id : Option ℕ
  pub set_at : ℕ
