-- ===== src/Component/Agreement.antt =====
-- The list of a user's components and the single check agree (app/services/component.py).
use plynth.Component.Overrides.{gate}
use plynth.Component.{is_user_override, is_component, is_tenant_override}
use plynth.Component.Unique.{
  answer, AtMostOne, any-map_lem, last-select, any-cong, last-find?, any-select, any_one,
}
use plynth.World.{World}
use plynth.Models.Component.{UserComponentOverride, ProductComponent, TenantComponentOverride}
use plynth.Models.Tenant.{User}
use plynth.Component.Access.{
  component_access, user_has_component_access, user_effective_components, insert_by_code, by_code,
  list_components, user_row, tenant_row, find_last, tenant_active_plan_code, resolve_with_plan,
}
use plynth.Prelude.{
  [], ◌∷◌, some, none, true, false, inl, inr, refl, String, Option, List, Bool, ◌≡◌, ◌&&◌, any,
  find?, arith, ℕ, All, ◌||◌, Bool-cases, ◌∙◌, ◌==◌, All-map, select, ap, Option-cases, str_eq,
  ==_true, sym,
}

module _ (is_before : String → String → Bool) where
  any-insert_by_code :
      (P : ProductComponent → Bool) (c : ProductComponent) (cs : List ProductComponent)
      → any P (insert_by_code is_before c cs) ≡ (P c || any P cs)
  unfolding insert_by_code
  any-insert_by_code P c [] = refl
  any-insert_by_code P c (d ∷ ds) = elim (Bool-cases (is_before d.code c.code)) [
    | inl after ↦
        rw (after, insert_by_code)
          (ap (λ b. P d || b) (any-insert_by_code P c ds) ∙ swap (P d) (P c) (any P ds))
    | inr first ↦ rw (first, insert_by_code) refl
  ]
    where
      swap : (a b c : Bool) → (a || (b || c)) ≡ (b || (a || c))
      swap a b c = ground arith

  any-by_code :
      (P : ProductComponent → Bool) (cs : List ProductComponent)
      → any P (by_code is_before cs) ≡ any P cs
  unfolding by_code
  any-by_code P [] = refl
  any-by_code P (c ∷ cs) =
      any-insert_by_code P c (by_code is_before cs) ∙ ap (λ b. P c || b) (any-by_code P cs)

-- The precedence of overrides and plan, on what the queries return.
abbrev decide : Option UserComponentOverride → Option TenantComponentOverride → Bool → Bool
decide (some ov) tov b = ov.is_enabled
decide none (some tov) b = tov.is_enabled
decide none none b = b

module _ (overrides : List UserComponentOverride) (tenant_overrides : List TenantComponentOverride)
    (plan_code : Option String) (c : ProductComponent) where
  user_row-component : (user_row overrides tenant_overrides plan_code c).component ≡ c
  unfolding user_row tenant_row
  user_row-component = elim (Option-cases (find_last (λ o. o.component_id == c.id) overrides)) [
    | inr (ov, e) ↦ rw (e, user_row) refl
    | inl none_u ↦
        rw (none_u, user_row)
          (elim (Option-cases (find_last (λ o. o.component_id == c.id) tenant_overrides)) [
            | inr (tov, e) ↦ rw (e, tenant_row) refl
            | inl none_t ↦ rw (none_t, tenant_row) refl
          ])
  ]

  user_row-decide :
      (user_row overrides tenant_overrides plan_code c).is_enabled
      ≡ decide
          (find_last (λ o. o.component_id == c.id) overrides)
          (find_last (λ o. o.component_id == c.id) tenant_overrides)
          (resolve_with_plan c plan_code).0
  unfolding user_row tenant_row
  user_row-decide = elim (Option-cases (find_last (λ o. o.component_id == c.id) overrides)) [
    | inr (ov, e) ↦ rw (e, user_row) refl
    | inl none_u ↦
        rw (none_u, user_row)
          (elim (Option-cases (find_last (λ o. o.component_id == c.id) tenant_overrides)) [
            | inr (tov, e) ↦ rw (e, tenant_row) refl
            | inl none_t ↦ rw (none_t, tenant_row) refl
          ])
  ]

component_access-decide :
    (user : User) (c : ProductComponent) (w : World)
    → component_access user c w
      ≡ decide
          (find? (is_user_override user.id c.id) w.user_overrides)
          (find? (is_tenant_override user.tenant_id c.id) w.tenant_overrides)
          (resolve_with_plan c (tenant_active_plan_code user.tenant_id user.product_id w)).0
unfolding component_access
component_access-decide user c w =
    elim (Option-cases (find? (is_user_override user.id c.id) w.user_overrides)) [
      | inr (ov, e) ↦ rw (e, component_access) refl
      | inl none_u ↦
          rw (none_u, component_access)
            (elim (Option-cases
              (find? (is_tenant_override user.tenant_id c.id) w.tenant_overrides)) [
                | inr (tov, e) ↦ rw e refl
                | inl none_t ↦ rw none_t refl
              ])
    ]

only_listed : (a l b : Bool) → (b ≡ true → l ≡ true) → ((a && l) && b) ≡ (a && b)
only_listed a l true h = ground (arith, h refl)
only_listed a l false h = ground arith

abbrev listed_in : List ProductComponent → ℕ → Bool
listed_in cs i = any (λ c. c.id == i) cs

listed_self : (cs : List ProductComponent) → All (λ c. listed_in cs c.id ≡ true) cs
listed_self [] = tt
listed_self (c ∷ cs) = (
  self c cs,
  All-map (λ d. listed_in cs d.id ≡ true) (λ d. listed_in (c ∷ cs) d.id ≡ true) cs (weaken c cs)
      (listed_self cs),
)
  where
    self : (c : ProductComponent) (cs : List ProductComponent) → listed_in (c ∷ cs) c.id ≡ true
    self c cs = ground arith

    weaken :
        (c : ProductComponent) (cs : List ProductComponent) (d : ProductComponent)
        → listed_in cs d.id ≡ true
        → listed_in (c ∷ cs) d.id ≡ true
    weaken c cs d h = ground (arith, h)

-- The unique constraints on the overrides of a user and of a tenant.
abbrev pub OneOverride : User → World → Type 0
OneOverride user w =
    ((i : ℕ) → AtMostOne (is_user_override user.id i) w.user_overrides)
    × ((i : ℕ) → AtMostOne (is_tenant_override user.tenant_id i) w.tenant_overrides)

-- A row of the list is enabled as the single check answers for its component.
row-access :
    (user : User) (w : World) (cs : List ProductComponent) (c : ProductComponent)
    → OneOverride user w
    → listed_in cs c.id ≡ true
    → (user_row
        (select (λ o. (o.user_id == user.id) && listed_in cs o.component_id) w.user_overrides)
        (select
          (λ o. (o.tenant_id == user.tenant_id) && listed_in cs o.component_id)
          w.tenant_overrides)
        (tenant_active_plan_code user.tenant_id user.product_id w)
        c).is_enabled
      ≡ component_access user c w
row-access user w cs c one listed =
    let plan = tenant_active_plan_code user.tenant_id user.product_id w in
    let us = select (λ o. (o.user_id == user.id) && listed_in cs o.component_id) w.user_overrides in
    let ts =
      select (λ o. (o.tenant_id == user.tenant_id) && listed_in cs o.component_id)
        w.tenant_overrides in
    let by_user : find_last (λ o. o.component_id == c.id) us
        ≡ find? (is_user_override user.id c.id) w.user_overrides =
      last-select (λ o. o.component_id == c.id) _ (is_user_override user.id c.id) w.user_overrides
        (λ o.
          only_listed (o.user_id == user.id) (listed_in cs o.component_id) (o.component_id == c.id)
            (at o.component_id))
      ∙ last-find? (is_user_override user.id c.id) w.user_overrides (one.0 c.id) in
    let by_tenant : find_last (λ o. o.component_id == c.id) ts
        ≡ find? (is_tenant_override user.tenant_id c.id) w.tenant_overrides =
      last-select (λ o. o.component_id == c.id) _ (is_tenant_override user.tenant_id c.id)
        w.tenant_overrides
        (λ o.
          only_listed (o.tenant_id == user.tenant_id) (listed_in cs o.component_id)
            (o.component_id == c.id) (at o.component_id))
      ∙ last-find? (is_tenant_override user.tenant_id c.id) w.tenant_overrides (one.1 c.id) in
    user_row-decide us ts plan c
    ∙ ((λ i. decide (by_user i) (by_tenant i) (resolve_with_plan c plan).0)
        ∙ sym (component_access-decide user c w))
  where
    at : (i : ℕ) → (i == c.id) ≡ true → listed_in cs i ≡ true
    at i e = ap (listed_in cs) (==_true i c.id e) ∙ listed

regroup :
    (p active code access : Bool)
    → ((p && (false || active)) && (code && access)) ≡ ((p && code) && (active && access))
regroup p active code access = ground arith

checked :
    (user : User) (code : String) (w : World)
    → user_has_component_access user code w
      ≡ answer
          (λ c. c.is_active && component_access user c w)
          (find? (is_component user.product_id code) w.components)
unfolding user_has_component_access
checked user code w = elim (Option-cases (find? (is_component user.product_id code) w.components)) [
  | inl unknown ↦ rw (unknown, user_has_component_access) refl
  | inr (c, found) ↦
      rw (found, user_has_component_access)
        (gate c.is_active (component_access user c w) (component_access user c w) refl)
]

-- The list of a user's components and the single check agree: where the unique constraints on
-- codes and overrides hold, the check for a code answers whether the list, in any order, has an
-- enabled component with this code.
pub user_has_component_access-agrees :
    (is_before : String → String → Bool) (user : User) (code : String) (w : World)
    → AtMostOne (is_component user.product_id code) w.components
    → OneOverride user w
    → any
        (λ e. str_eq e.component.code code && e.is_enabled)
        (user_effective_components is_before user w)
      ≡ user_has_component_access user code w
unfolding user_effective_components list_components
user_has_component_access-agrees is_before user code w codes one =
    let active : ProductComponent → Bool =
      λ c. (c.product_id == user.product_id) && (false || c.is_active) in
    let cs = by_code is_before (select active w.components) in
    let us = select (λ o. (o.user_id == user.id) && listed_in cs o.component_id) w.user_overrides in
    let ts =
      select (λ o. (o.tenant_id == user.tenant_id) && listed_in cs o.component_id)
        w.tenant_overrides in
    let plan = tenant_active_plan_code user.tenant_id user.product_id w in
    let row = user_row us ts plan in
    let P : ProductComponent → Bool = λ c. str_eq c.code code && component_access user c w in
    any-map_lem (λ e. str_eq e.component.code code && e.is_enabled) row cs
    ∙ (any-cong _ P cs (
          All-map (λ c. listed_in cs c.id ≡ true) _ cs
            (λ c listed. λ i.
              str_eq (user_row-component us ts plan c i).code code
              && row-access user w cs c one listed i)
            (listed_self cs))
        ∙ (any-by_code is_before P (select active w.components)
            ∙ (any-select P active w.components
                ∙ ((λ i.
                      any
                        (λ c.
                          regroup (c.product_id == user.product_id) c.is_active (str_eq c.code code)
                            (component_access user c w) i)
                        w.components)
                    ∙ (any_one (is_component user.product_id code)
                          (λ c. c.is_active && component_access user c w) w.components codes
                        ∙ sym (checked user code w))))))
