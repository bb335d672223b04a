-- ===== src/Rbac/Catalogue.antt =====
-- The permissions and system roles that a product is given (app/services/rbac.py).
use plynth.Rbac.{is_system_role}
use plynth.Models.Tenant.{Product}
use plynth.World.{World}
use plynth.Rbac.Templates.{system_permissions, system_roles, product_system_roles}
use plynth.Models.Role.{Permission, Role}
use plynth.Exec.{Action, ◌>>=◌, ◌>>◌, pure, new_id, gets, modify, when, or_raise, key_error}
use plynth.Prelude.{
  [], ◌∷◌, some, none, true, String, List, ℕ, Option, Bool, map, str_eq, any, find?, select, ◌++◌,
  ◌==◌, not,
}

abbrev pub has_code : String → Permission → Bool
has_code code p = str_eq p.code code

abbrev pub add_permission : String → Action (Unit {0})
add_permission code = do
  id ← new_id
  modify (λ w. record w { permissions = record { id = id; code = code } ∷ w.permissions })

-- The loop of `ensure_permission_catalog` over the codes
unfoldable pub ensure_permissions : List String → Action (Unit {0})
ensure_permissions [] = pure tt
ensure_permissions (code ∷ codes) = do
  known ← gets (λ w. any (has_code code) w.permissions)
  when (not known) (add_permission code)
  ensure_permissions codes

unfoldable pub ensure_permission_catalog : Action (Unit {0})
ensure_permission_catalog = ensure_permissions system_permissions

-- The role of a template, which is added if it is missing
unfoldable pub role_for : ℕ → String → Option Role → Action Role
role_for product_id name (some role) = pure role
role_for product_id name none = do
  id ← new_id
  let role : Role = record {
    id = id;
    product_id = product_id;
    tenant_id = none;
    name = name;
    is_system = true;
  }
  modify (λ w. record w { roles = role ∷ w.roles })
  pure role

-- The loop over the codes of a template; `current` are the permissions that the role had before it.
unfoldable pub give_permissions : ℕ → List ℕ → List String → Action (Unit {0})
give_permissions role_id current [] = pure tt
give_permissions role_id current (code ∷ codes) = do
  found ← gets (λ w. find? (has_code code) w.permissions)
  permission ← or_raise found key_error
  when (not (any (λ i. i == permission.id) current)) (
      modify (λ w. record w {
        role_permissions =
            record { role_id = role_id; permission_id = permission.id } ∷ w.role_permissions;
      }))
  give_permissions role_id current codes

abbrev pub permission_ids : ℕ → World → List ℕ
permission_ids role_id w =
    map (λ rp. rp.permission_id) (select (λ rp. rp.role_id == role_id) w.role_permissions)

unfoldable pub ensure_roles : ℕ → List (String × List String) → Action (Unit {0})
ensure_roles product_id [] = pure tt
ensure_roles product_id ((name, perms) ∷ templates) = do
  existing ← gets (λ w. find? (is_system_role product_id name) w.roles)
  role ← role_for product_id name existing
  current ← gets (permission_ids role.id)
  give_permissions role.id current perms
  ensure_roles product_id templates

-- `{**SYSTEM_ROLES, **PRODUCT_SYSTEM_ROLES.get(slug or "", {})}`
abbrev pub templates_of : Option Product → List (String × List String)
templates_of none = system_roles ++ product_system_roles ""
templates_of (some p) = system_roles ++ product_system_roles p.slug

unfoldable pub ensure_system_roles_for_product : ℕ → Action (Unit {0})
ensure_system_roles_for_product product_id = do
  ensure_permission_catalog
  product ← gets (λ w. find? (λ p. p.id == product_id) w.products)
  ensure_roles product_id (templates_of product)
