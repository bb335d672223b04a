-- ===== src/Models/Tenant.antt =====
-- app/models/tenant.py, app/models/product.py and app/models/user.py. Of the JSON `settings` the
-- records keep the entries that the code reads, each absent or a value of its kind.
use plynth.Prelude.{ℕ, ℤ, String, Bool, Option}

pub data TenantStatus : Type 0 where
  active suspended deactivated deleted : TenantStatus

pub data TenantType : Type 0 where
  company individual : TenantType

pub record Tenant : Type 0 where
  pub id : ℕ
  pub product_id : ℕ
  pub name : String
  pub slug : String
  pub status : TenantStatus
  pub type : TenantType
  pub parent_id : Option ℕ
  pub is_root : Bool
  pub allow_child_access : Option Bool
  pub expires_at : Option ℕ
  pub deleted_at : Option ℕ
  pub created_at : ℕ

pub data ProductStatus : Type 0 where
  active disabled archived : ProductStatus

pub record Product : Type 0 where
  pub id : ℕ
  pub slug : String
  pub status : ProductStatus
  pub allow_parent_child_access : Option Bool
  pub refresh_ttl_days : Option ℤ
  pub deleted_at : Option ℕ

-- `is_platform_admin` is the flag of the transient user that a platform-admin token stands for.
pub record User : Type 0 where
  pub id : ℕ
  pub product_id : ℕ
  pub tenant_id : ℕ
  pub email : String
  pub password_hash : String
  pub full_name : Option String
  pub is_active : Bool
  pub last_login_at : Option ℕ
  pub deleted_at : Option ℕ
  pub is_platform_admin : Bool
