-- ===== src/Models/Role.antt =====
-- app/models/role.py and app/models/permission.py
use plynth.Prelude.{ℕ, String, Bool, Option}

pub record Role : Type 0 where
  pub id : ℕ
  pub product_id : ℕ
  pub tenant_id : Option ℕ
  pub name : String
  pub is_system : Bool

pub record Permission : Type 0 where
  pub id : ℕ
  pub code : String

pub record RolePermission : Type 0 where
  pub role_id : ℕ
  pub permission_id : ℕ

pub record UserRole : Type 0 where
  pub id : ℕ
  pub user_id : ℕ
  pub role_id : ℕ
  pub scope_tenant_id : Option ℕ
  pub product_id : ℕ
