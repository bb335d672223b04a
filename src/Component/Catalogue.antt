-- ===== src/Component/Catalogue.antt =====
-- The update and deletion of components, and the end of a tenant's override
-- (app/services/component.py).
-- One entry of `changes`: a field of `ComponentUpdate` (app/schemas/component.py) and its value.
use plynth.Audit.{record_entry, event}
use plynth.Component.{get_component, is_tenant_override}
use plynth.Exec.{Action, pure, ◌>>=◌, ◌>>◌, modify, gets}
use plynth.World.{World}
use plynth.Models.Component.{ProductComponent, TenantComponentOverride}
use plynth.Prelude.{
  [], ◌∷◌, some, none, String, List, ℕ, Option, Bool, remove, select, not, save, ◌==◌, find?,
}

pub data Change : Type 0 where
  set_name : String → Change
  set_description : Option String → Change
  set_default_enabled : Bool → Change
  set_active : Bool → Change
  set_settings : String → Change
  set_required_plan_codes : Option (List String) → Change

-- `setattr(row, k, v)`
unfoldable pub set_attribute : Change → ProductComponent → ProductComponent
set_attribute (set_name v) row = record row { name = v }
set_attribute (set_description v) row = record row { description = v }
set_attribute (set_default_enabled v) row = record row { is_default_enabled = v }
set_attribute (set_active v) row = record row { is_active = v }
set_attribute (set_settings v) row = record row { settings = v }
set_attribute (set_required_plan_codes v) row = record row { required_plan_codes = v }

unfoldable pub set_attributes : List Change → ProductComponent → ProductComponent
set_attributes [] row = row
set_attributes (c ∷ cs) row = set_attributes cs (set_attribute c row)

unfoldable pub apply_changes :
    ℕ → List Change → Option ℕ → ProductComponent → Action ProductComponent
apply_changes product_id [] actor_user_id row = pure row
apply_changes product_id (c ∷ cs) actor_user_id row = do
  let row' = set_attributes (c ∷ cs) row
  modify (λ w. record w { components = save (λ x. x.id) row' w.components })
  record_entry (event "component.updated" actor_user_id "component" row.id none product_id)
  pure row'

unfoldable pub update_component : ℕ → String → List Change → Option ℕ → Action ProductComponent
update_component product_id code changes actor_user_id = do
  row ← get_component product_id code
  apply_changes product_id changes actor_user_id row

-- `db.delete(row)`: the foreign keys of the overrides are ON DELETE CASCADE.
abbrev pub without_component : ℕ → World → World
without_component id w = record w {
  components = remove (λ c. c.id) id w.components;
  user_overrides = select (λ o. not (o.component_id == id)) w.user_overrides;
  tenant_overrides = select (λ o. not (o.component_id == id)) w.tenant_overrides;
}

unfoldable pub delete_component : ℕ → String → Option ℕ → Action (Unit {0})
delete_component product_id code actor_user_id = do
  row ← get_component product_id code
  modify (without_component row.id)
  record_entry (event "component.deleted" actor_user_id "component" row.id none product_id)

unfoldable pub drop_tenant_override :
    ℕ → ℕ → Option ℕ → Option TenantComponentOverride → Action (Unit {0})
drop_tenant_override product_id tenant_id actor_user_id none = pure tt
drop_tenant_override product_id tenant_id actor_user_id (some row) = do
  modify (λ w. record w { tenant_overrides = remove (λ o. o.id) row.id w.tenant_overrides })
  record_entry (
      event "component.tenant_override_cleared" actor_user_id "tenant_component_override" row.id
        (some tenant_id) product_id)

unfoldable pub clear_tenant_override : ℕ → ℕ → String → Option ℕ → Action (Unit {0})
clear_tenant_override product_id tenant_id code actor_user_id = do
  component ← get_component product_id code
  existing ← gets (λ w. find? (is_tenant_override tenant_id component.id) w.tenant_overrides)
  drop_tenant_override product_id tenant_id actor_user_id existing
