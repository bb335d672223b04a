-- ===== src/Tenant/Children.antt =====
-- app/services/tenant.py, `list_accessible_children`
use plynth.Rbac.{user_has_permission}
use plynth.Access.{product_blocks, product_of, home_blocks, act_as_permission, home_of}
use plynth.World.{World}
use plynth.Models.Tenant.{User, TenantStatus, Tenant}
use plynth.Prelude.{
  [], ◌∷◌, some, none, true, false, ℕ, List, Bool, Option, String, ◌==◌, if◌then◌else◌, map,
  sort_by, ◌&&◌, is_some, select, is_none, ◌||◌, holds, not, any,
}
use plynth.Exec.{ok, err, Result}

pub record AccessibleChild : Type 0 where
  pub id : ℕ
  pub slug : String
  pub name : String
  pub status : TenantStatus
  pub can_act_as : Bool
  pub reason : Option String

abbrev pub is_child_of : User → Tenant → Bool
is_child_of user t =
    (t.product_id == user.product_id) && (holds t.parent_id user.tenant_id && is_none t.deleted_at)

unfoldable pub global_block : User → World → Option String
global_block user w =
    if product_blocks (product_of user w)
    then some "product disabled parent → child access"
    else (if home_blocks (home_of user w) then some "parent tenant disabled child access" else none)

abbrev pub has_global_perm : User → World → Result Bool
has_global_perm user w =
    if is_some (global_block user w)
    then ok false
    else user_has_permission user act_as_permission (some user.tenant_id) w

-- `{tid for tid in rows if tid is not None}`
abbrev pub not_none : List (Option ℕ) → List ℕ
not_none [] = []
not_none (none ∷ rows) = not_none rows
not_none (some tid ∷ rows) = tid ∷ not_none rows

abbrev pub binding_scopes : User → World → List ℕ
binding_scopes user w = not_none (
    map (λ b. b.scope_tenant_id)
      (select (λ b. (b.user_id == user.id) && is_some b.scope_tenant_id) w.user_roles))

abbrev pub target_scoped_ids : User → Bool → World → List ℕ
target_scoped_ids user has_global w =
    if is_none (global_block user w) && not has_global then binding_scopes user w else []

abbrev pub child_entry : Bool → Option String → Tenant → AccessibleChild
child_entry can reason c = record {
  id = c.id;
  slug = c.slug;
  name = c.name;
  status = c.status;
  can_act_as = can;
  reason = reason;
}

-- The body of the loop over the children
unfoldable pub annotate : Option String → Bool → List ℕ → Tenant → AccessibleChild
annotate (some why) has_global ids c = child_entry false (some why) c
annotate none has_global ids c =
    if has_global || any (λ i. i == c.id) ids
    then child_entry true none c
    else child_entry false (some "need tenants:act_as_child permission or a scoped binding") c

module _ (slug_before : String → String → Bool) where
  -- `ORDER BY slug`; the order of texts is that of the database, a parameter.
  abbrev pub children_of : User → World → List Tenant
  children_of user w =
      sort_by (λ t u. slug_before t.slug u.slug) (select (is_child_of user) w.tenants)

  unfoldable pub list_accessible_children : User → World → Result (List AccessibleChild)
  list_accessible_children user w = elim (has_global_perm user w) [
    | err e ↦ err e
    | ok has_global ↦ ok (
        map (annotate (global_block user w) has_global (target_scoped_ids user has_global w))
          (children_of user w))
  ]
