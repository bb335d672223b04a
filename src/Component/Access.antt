-- ===== src/Component/Access.antt =====
-- The effective access to components (app/services/component.py, its second half).
-- The first subscription of the tenant in the product that has a plan, with the plan's code
use plynth.Component.{is_user_override, is_component, is_tenant_override}
use plynth.Models.Subscription.{Subscription, has_access}
use plynth.World.{World}
use plynth.Models.Plan.{Plan}
use plynth.Models.Tenant.{User}
use plynth.Models.Component.{ProductComponent, TenantComponentOverride, UserComponentOverride}
use plynth.Prelude.{
  [], ◌∷◌, some, none, false, ℕ, Option, Bool, List, String, any, if◌then◌else◌, str_eq, ◌==◌,
  select, find?, ◌&&◌, map, ◌||◌,
}

unfoldable pub joined : ℕ → ℕ → List Plan → List Subscription → Option (Subscription × String)
joined tenant_id product_id plans [] = none
joined tenant_id product_id plans (s ∷ subs) =
    let rest = joined tenant_id product_id plans subs in
    if (s.tenant_id == tenant_id) && (s.product_id == product_id)
    then elim (find? (λ p. p.id == s.plan_id) plans) [ none ↦ rest | some p ↦ some (s, p.code) ]
    else rest

-- `_tenant_active_plan_code`
unfoldable pub tenant_active_plan_code : ℕ → ℕ → World → Option String
tenant_active_plan_code tenant_id product_id w =
    elim (joined tenant_id product_id w.plans w.subscriptions) [
      | none ↦ none
      | some (sub, plan_code) ↦ if has_access sub then some plan_code else none
    ]

-- `tenant_plan_code is not None and tenant_plan_code in required`
abbrev pub qualifies : Option String → List String → Bool
qualifies none required = false
qualifies (some code) required = any (str_eq code) required

-- `_resolve_with_plan`, with the list of required codes, absent or not
abbrev pub resolve_required : Bool → Option String → Option (List String) → Bool × String
resolve_required enabled plan_code none = (enabled, "default")
resolve_required enabled plan_code (some []) = (enabled, "default")
resolve_required enabled plan_code (some (code ∷ codes)) =
    if qualifies plan_code (code ∷ codes) then (enabled, "default") else (false, "plan")

unfoldable pub resolve_with_plan : ProductComponent → Option String → Bool × String
resolve_with_plan component tenant_plan_code =
    resolve_required component.is_default_enabled tenant_plan_code component.required_plan_codes

-- The rows of a dict that is built from a list: the last of those with a key.
abbrev pub find_last {ℓ} : {A : Type ℓ} → (A → Bool) → List A → Option A
find_last p [] = none
find_last p (x ∷ xs) =
    let rest = find_last p xs in elim rest [ some y ↦ some y | none ↦ if p x then some x else none ]

pub record Effective : Type 0 where
  pub component : ProductComponent
  pub is_enabled : Bool
  pub source : String
  pub reason : Option String

abbrev pub by_plan : Option String → ProductComponent → Effective
by_plan plan_code c =
    let (enabled, source) = resolve_with_plan c plan_code in
    record { component = c; is_enabled = enabled; source = source; reason = none }

-- One row of the tenant's list: the override of the tenant, or else the plan.
unfoldable pub tenant_row :
    List TenantComponentOverride → Option String → ProductComponent → Effective
tenant_row tenant_overrides plan_code c =
    elim (find_last (λ o. o.component_id == c.id) tenant_overrides) [
      | none ↦ by_plan plan_code c
      | some ov ↦ record {
        component = c;
        is_enabled = ov.is_enabled;
        source = "tenant_override";
        reason = ov.reason;
      }
    ]

-- One row of the user's list: the override of the user comes first.
unfoldable pub user_row :
    List UserComponentOverride
    → List TenantComponentOverride
    → Option String
    → ProductComponent
    → Effective
user_row overrides tenant_overrides plan_code c =
    elim (find_last (λ o. o.component_id == c.id) overrides) [
      | none ↦ tenant_row tenant_overrides plan_code c
      | some ov ↦ record {
        component = c;
        is_enabled = ov.is_enabled;
        source = "override";
        reason = ov.reason;
      }
    ]

-- The order of texts is that of the database, a parameter.
module _ (is_before : String → String → Bool) where
  unfoldable pub insert_by_code : ProductComponent → List ProductComponent → List ProductComponent
  insert_by_code c [] = c ∷ []
  insert_by_code c (d ∷ ds) =
      let rest = insert_by_code c ds in if is_before d.code c.code then d ∷ rest else c ∷ d ∷ ds

  unfoldable pub by_code : List ProductComponent → List ProductComponent
  by_code [] = []
  by_code (c ∷ cs) = insert_by_code c (by_code cs)

  unfoldable pub list_components : ℕ → Bool → World → List ProductComponent
  list_components product_id include_inactive w =
      by_code (
        select (λ c. (c.product_id == product_id) && (include_inactive || c.is_active))
          w.components)

  unfoldable pub tenant_effective_components : ℕ → ℕ → World → List Effective
  tenant_effective_components product_id tenant_id w =
      let components = list_components product_id false w in
      let listed : ℕ → Bool = λ i. any (λ c. c.id == i) components in
      map
        (tenant_row
          (select (λ o. (o.tenant_id == tenant_id) && listed o.component_id) w.tenant_overrides)
          (tenant_active_plan_code tenant_id product_id w))
        components

  unfoldable pub user_effective_components : User → World → List Effective
  user_effective_components user w =
      let components = list_components user.product_id false w in
      let listed : ℕ → Bool = λ i. any (λ c. c.id == i) components in
      map
        (user_row (select (λ o. (o.user_id == user.id) && listed o.component_id) w.user_overrides)
          (select (λ o. (o.tenant_id == user.tenant_id) && listed o.component_id)
            w.tenant_overrides)
          (tenant_active_plan_code user.tenant_id user.product_id w))
        components

-- What `user_has_component_access` answers for an active component.
unfoldable pub component_access : User → ProductComponent → World → Bool
component_access user component w =
    elim (find? (is_user_override user.id component.id) w.user_overrides) [
      | some ov ↦ ov.is_enabled
      | none ↦ elim (find? (is_tenant_override user.tenant_id component.id) w.tenant_overrides) [
        | some tov ↦ tov.is_enabled
        | none ↦
            (resolve_with_plan component
              (tenant_active_plan_code user.tenant_id user.product_id w)).0
      ]
    ]

unfoldable pub user_has_component_access : User → String → World → Bool
user_has_component_access user code w =
    elim (find? (is_component user.product_id code) w.components) [
      | none ↦ false
      | some component ↦ if component.is_active then component_access user component w else false
    ]
