-- ===== src/Component/Overrides.antt =====
-- What an override does to the access of a user (app/services/component.py).
use plynth.Models.Tenant.{User}
use plynth.World.{World, next_id}
use plynth.Models.Component.{UserComponentOverride, ProductComponent}
use plynth.Component.Access.{user_has_component_access, component_access}
use plynth.Component.{
  write_user_override, set_user_override, OverrideData, get_component, is_user_override,
  new_user_override, is_component,
}
use plynth.Exec.{ok, ok-injective, resume, Result-cases}
use plynth.Prelude.{
  ◌∷◌, some, none, inl, inr, refl, ◌≡◌, ℕ, ap, List, Option, find?, String, arith, ◌&&◌, ◌+◌,
  Option-cases, subst, save, find?-save, find?-holds, Bool, ◌∙◌, false, if◌then◌else◌,
}

first_ok : {A B : Type 0} (p q : A × B) → ok p ≡ ok q → p.0 ≡ q.0
first_ok p q e = ap (λ x. x.0) (ok-injective e)

self_found :
    (u c : ℕ) (row : UserComponentOverride) (rows : List UserComponentOverride)
    → row.user_id ≡ u
    → row.component_id ≡ c
    → find? (is_user_override u c) (row ∷ rows) ≡ some row
self_found u c row rows e e' = ground arith

-- What a write of a user's override leaves in the tables that decide on access.
abbrev UserWritten : ℕ → ℕ → OverrideData → World → UserComponentOverride → World → Type 0
UserWritten u c d w row w' =
    (find? (is_user_override u c) w'.user_overrides ≡ some row)
    × (row.is_enabled ≡ d.is_enabled)
    × (w'.components ≡ w.components)

write_user_override-found :
    (p t u c : ℕ) (d : OverrideData) (old : Option UserComponentOverride) (w : World)
    (out : UserComponentOverride × String)
    → find? (is_user_override u c) w.user_overrides ≡ old
    → (write_user_override p t u c d old w).0 ≡ ok out
    → UserWritten u c d w out.0 (write_user_override p t u c d old w).1
unfolding write_user_override
write_user_override-found p t u c d none w out e done =
    let row = new_user_override (next_id w) w.env.now p t u c d in
    let w' = record w { drawn = w.drawn + 1; user_overrides = row ∷ w.user_overrides } in
    subst (λ r. UserWritten u c d w r w') (first_ok (_, _) out done)
      (self_found u c row w.user_overrides refl refl, refl, refl)
write_user_override-found p t u c d (some old) w out e done =
    let row = record old {
      is_enabled = d.is_enabled;
      reason = d.reason;
      set_by_user_id = d.actor_user_id;
      set_at = w.env.now;
    } in
    let w' = record w { user_overrides = save (λ o. o.id) row w.user_overrides } in
    subst (λ r. UserWritten u c d w r w') (first_ok (_, _) out done)
      (
        find?-save (is_user_override u c) (λ o. o.id) w.user_overrides old row e refl
            (find?-holds (is_user_override u c) w.user_overrides old e),
        refl,
        refl,
      )

component_access-overridden :
    (user : User) (w : World) (c : ProductComponent) (ov : UserComponentOverride)
    → find? (is_user_override user.id c.id) w.user_overrides ≡ some ov
    → component_access user c w ≡ ov.is_enabled
unfolding component_access
component_access-overridden user w c ov overridden = rw (overridden, component_access) refl

pub gate : (b x y : Bool) → x ≡ y → (if b then x else false) ≡ (b && y)
gate b x y e = ground (arith, e)

-- The access of a user to a component that is in the table.
access-found :
    (user : User) (code : String) (w : World) (c : ProductComponent) (b : Bool)
    → find? (is_component user.product_id code) w.components ≡ some c
    → component_access user c w ≡ b
    → user_has_component_access user code w ≡ (c.is_active && b)
unfolding user_has_component_access
access-found user code w c b found e =
    rw (found, user_has_component_access) (gate c.is_active (component_access user c w) b e)

-- After a user's override is set, the user has access to the component exactly if the override
-- enables it and the component is active, whatever the tenant's override and plan say.
pub set_user_override-access :
    (user : User) (tenant_id : ℕ) (code : String) (d : OverrideData) (row : UserComponentOverride)
    (w : World)
    → (set_user_override user.product_id user.id tenant_id code d w).0 ≡ ok row
    → (component : ProductComponent) × (find? (is_component user.product_id code) w.components
        ≡ some component)
      × (user_has_component_access user code
            (set_user_override user.product_id user.id tenant_id code d w).1
          ≡ (component.is_active && d.is_enabled))
unfolding set_user_override get_component
set_user_override-access user tenant_id code d row w =
    elim (Option-cases (find? (is_component user.product_id code) w.components)) [
      | inl unknown ↦ rw (unknown, resume) (λ done. cc)
      | inr (c, found) ↦
          rw (found, resume)
            (let old = find? (is_user_override user.id c.id) w.user_overrides in
              let out = write_user_override user.product_id tenant_id user.id c.id d old w in
              elim (Result-cases out.0) [
                | inr (e, raised) ↦ rw (raised, resume) (λ done. cc)
                | inl (written, stored) ↦
                    rw (stored, resume)
                      (λ done. (
                        c,
                        refl,
                        let (row', enabled, kept) =
                              write_user_override-found user.product_id tenant_id user.id c.id d old
                                w written refl stored in
                            access-found user code (record (out.1) { audit_log = _ }) c d.is_enabled
                              (ap (find? (is_component user.product_id code)) kept ∙ found)
                              (component_access-overridden user (record (out.1) { audit_log = _ }) c
                                  written.0 row'
                                ∙ enabled),
                      ))
              ])
    ]
