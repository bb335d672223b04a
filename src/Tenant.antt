-- ===== src/Tenant.antt =====
-- app/services/tenant.py
pub mod Children
pub mod Slugs
use plynth.Audit.{record_entry, event}
use plynth.Access.{is_live_slug}
use plynth.Context.{bypass_product, bypass_tenant}
use plynth.Exec.{
  Action, pure, ◌>>=◌, ◌>>◌, gets, or_raise, raise_if, not_found, conflict, modify,
  validation_failed, new_id, now,
}
use plynth.Models.Tenant.{TenantStatus, Tenant, TenantType}
use plynth.Prelude.{
  ◌∷◌, some, none, String, ℕ, Option, Bool, is_none, find?, ◌==◌, is_some, not, save, ◌<>◌,
}

abbrev pub status_value : TenantStatus → String
status_value TenantStatus.active = "active"
status_value TenantStatus.suspended = "suspended"
status_value TenantStatus.deactivated = "deactivated"
status_value TenantStatus.deleted = "deleted"

-- The arguments of `create_tenant`; of `settings` the entry that the code reads.
pub record TenantData : Type 0 where
  pub name : String
  pub slug : String
  pub parent_id : Option ℕ
  pub allow_child_access : Option Bool
  pub actor_user_id : Option ℕ
  pub type : TenantType

abbrev pub new_tenant : ℕ → ℕ → ℕ → TenantData → Tenant
new_tenant id time product_id d = record {
  id = id;
  product_id = product_id;
  name = d.name;
  slug = d.slug;
  status = TenantStatus.active;
  type = d.type;
  parent_id = d.parent_id;
  is_root = is_none d.parent_id;
  allow_child_access = d.allow_child_access;
  expires_at = none;
  deleted_at = none;
  created_at = time;
}

-- The checks of a parent, if one is given
unfoldable pub check_parent : ℕ → Option ℕ → Action (Unit {0})
check_parent product_id none = pure tt
check_parent product_id (some parent_id) = do
  found ← gets (λ w. find? (λ t. t.id == parent_id) w.tenants)
  parent ← or_raise found not_found
  raise_if (not (parent.product_id == product_id)) not_found
  raise_if (not parent.is_root) validation_failed

unfoldable pub add_tenant : ℕ → TenantData → Action Tenant
add_tenant product_id d = do
  existing ← gets (λ w. find? (is_live_slug product_id d.slug) w.tenants)
  raise_if (is_some existing) conflict
  check_parent product_id d.parent_id
  id ← new_id
  time ← now
  let tenant = new_tenant id time product_id d
  modify (λ w. record w { tenants = tenant ∷ w.tenants })
  record_entry (event "tenant.create" d.actor_user_id "tenant" id (some id) product_id)
  pure tenant

unfoldable pub create_tenant : ℕ → TenantData → Action Tenant
create_tenant product_id d = bypass_product (bypass_tenant (add_tenant product_id d))

unfoldable pub set_status : ℕ → TenantStatus → Option ℕ → Action Tenant
set_status tenant_id status actor_user_id = bypass_product (
    bypass_tenant (do
      found ← gets (λ w. find? (λ t. t.id == tenant_id) w.tenants)
      tenant ← or_raise found not_found
      let row = record tenant { status = status }
      modify (λ w. record w { tenants = save (λ t. t.id) row w.tenants })
      record_entry (
          event ("tenant." <> status_value status) actor_user_id "tenant" row.id (some row.id)
            row.product_id)
      pure row))
