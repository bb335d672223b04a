-- ===== src/Component.antt =====
-- app/services/component.py: which components of a product a tenant and a user get.
pub mod Catalogue
pub mod Access
pub mod Overrides
pub mod Unique
pub mod Agreement
use plynth.Audit.{record_entry, event}
use plynth.Exec.{
  Action, ◌>>=◌, ◌>>◌, or_raise, pure, gets, now, modify, raise_if, not_found, new_id, conflict,
}
use plynth.Models.Component.{ProductComponent, UserComponentOverride, TenantComponentOverride}
use plynth.Prelude.{
  [], ◌∷◌, some, none, ℕ, Option, String, Bool, List, ◌==◌, ◌&&◌, find?, str_eq, remove, is_some,
  save,
}

abbrev pub is_component : ℕ → String → ProductComponent → Bool
is_component product_id code c = (c.product_id == product_id) && str_eq c.code code

-- `required_plan_codes or None`
abbrev pub codes_or_none : Option (List String) → Option (List String)
codes_or_none none = none
codes_or_none (some []) = none
codes_or_none (some (code ∷ codes)) = some (code ∷ codes)

-- The arguments of `create_component`; `settings` is the text of the JSON object.
pub record ComponentCreate : Type 0 where
  pub code : String
  pub name : String
  pub description : Option String
  pub is_default_enabled : Bool
  pub is_active : Bool
  pub settings : String
  pub required_plan_codes : Option (List String)

abbrev pub new_component : ℕ → ℕ → ComponentCreate → ProductComponent
new_component id product_id d = record {
  id = id;
  product_id = product_id;
  code = d.code;
  name = d.name;
  description = d.description;
  is_default_enabled = d.is_default_enabled;
  is_active = d.is_active;
  settings = d.settings;
  required_plan_codes = codes_or_none d.required_plan_codes;
}

unfoldable pub create_component : ℕ → ComponentCreate → Option ℕ → Action ProductComponent
create_component product_id d actor_user_id = do
  existing ← gets (λ w. find? (is_component product_id d.code) w.components)
  raise_if (is_some existing) conflict
  id ← new_id
  let row = new_component id product_id d
  modify (λ w. record w { components = row ∷ w.components })
  record_entry (event "component.created" actor_user_id "component" id none product_id)
  pure row

unfoldable pub get_component : ℕ → String → Action ProductComponent
get_component product_id code w =
    or_raise (find? (is_component product_id code) w.components) not_found w

abbrev pub is_user_override : ℕ → ℕ → UserComponentOverride → Bool
is_user_override user_id component_id o = (o.user_id == user_id) && (o.component_id == component_id)

abbrev pub is_tenant_override : ℕ → ℕ → TenantComponentOverride → Bool
is_tenant_override tenant_id component_id o =
    (o.tenant_id == tenant_id) && (o.component_id == component_id)

-- The arguments that the two kinds of override share.
pub record OverrideData : Type 0 where
  pub is_enabled : Bool
  pub reason : Option String
  pub actor_user_id : Option ℕ

abbrev pub new_user_override : ℕ → ℕ → ℕ → ℕ → ℕ → ℕ → OverrideData → UserComponentOverride
new_user_override id time product_id tenant_id user_id component_id d = record {
  id = id;
  product_id = product_id;
  tenant_id = tenant_id;
  user_id = user_id;
  component_id = component_id;
  is_enabled = d.is_enabled;
  reason = d.reason;
  set_by_user_id = d.actor_user_id;
  set_at = time;
}

-- The write of a user's override, and the action for the audit log
unfoldable pub write_user_override :
    ℕ
    → ℕ
    → ℕ
    → ℕ
    → OverrideData
    → Option UserComponentOverride
    → Action (UserComponentOverride × String)
write_user_override product_id tenant_id user_id component_id d none = do
  time ← now
  id ← new_id
  let row = new_user_override id time product_id tenant_id user_id component_id d
  modify (λ w. record w { user_overrides = row ∷ w.user_overrides })
  pure (row, "component.override_created")
write_user_override product_id tenant_id user_id component_id d (some old) = do
  time ← now
  let row = record old {
    is_enabled = d.is_enabled;
    reason = d.reason;
    set_by_user_id = d.actor_user_id;
    set_at = time;
  }
  modify (λ w. record w { user_overrides = save (λ o. o.id) row w.user_overrides })
  pure (row, "component.override_updated")

unfoldable pub set_user_override : ℕ → ℕ → ℕ → String → OverrideData → Action UserComponentOverride
set_user_override product_id user_id tenant_id code d = do
  component ← get_component product_id code
  existing ← gets (λ w. find? (is_user_override user_id component.id) w.user_overrides)
  (row, action) ← write_user_override product_id tenant_id user_id component.id d existing
  record_entry
      (event action d.actor_user_id "component_override" row.id (some tenant_id) product_id)
  pure row

unfoldable pub drop_user_override : ℕ → Option ℕ → Option UserComponentOverride → Action (Unit {0})
drop_user_override product_id actor_user_id none = pure tt
drop_user_override product_id actor_user_id (some row) = do
  modify (λ w. record w { user_overrides = remove (λ o. o.id) row.id w.user_overrides })
  record_entry (
      event "component.override_cleared" actor_user_id "component_override" row.id
        (some row.tenant_id) product_id)

unfoldable pub clear_user_override : ℕ → ℕ → String → Option ℕ → Action (Unit {0})
clear_user_override product_id user_id code actor_user_id = do
  component ← get_component product_id code
  existing ← gets (λ w. find? (is_user_override user_id component.id) w.user_overrides)
  drop_user_override product_id actor_user_id existing

abbrev pub new_tenant_override : ℕ → ℕ → ℕ → ℕ → ℕ → OverrideData → TenantComponentOverride
new_tenant_override id time product_id tenant_id component_id d = record {
  id = id;
  product_id = product_id;
  tenant_id = tenant_id;
  component_id = component_id;
  is_enabled = d.is_enabled;
  reason = d.reason;
  set_by_user_id = d.actor_user_id;
  set_at = time;
}

unfoldable pub write_tenant_override :
    ℕ
    → ℕ
    → ℕ
    → OverrideData
    → Option TenantComponentOverride
    → Action (TenantComponentOverride × String)
write_tenant_override product_id tenant_id component_id d none = do
  time ← now
  id ← new_id
  let row = new_tenant_override id time product_id tenant_id component_id d
  modify (λ w. record w { tenant_overrides = row ∷ w.tenant_overrides })
  pure (row, "component.tenant_override_created")
write_tenant_override product_id tenant_id component_id d (some old) = do
  time ← now
  let row = record old {
    is_enabled = d.is_enabled;
    reason = d.reason;
    set_by_user_id = d.actor_user_id;
    set_at = time;
  }
  modify (λ w. record w { tenant_overrides = save (λ o. o.id) row w.tenant_overrides })
  pure (row, "component.tenant_override_updated")

unfoldable pub set_tenant_override : ℕ → ℕ → String → OverrideData → Action TenantComponentOverride
set_tenant_override product_id tenant_id code d = do
  component ← get_component product_id code
  existing ← gets (λ w. find? (is_tenant_override tenant_id component.id) w.tenant_overrides)
  (row, action) ← write_tenant_override product_id tenant_id component.id d existing
  record_entry
      (event action d.actor_user_id "tenant_component_override" row.id (some tenant_id) product_id)
  pure row
