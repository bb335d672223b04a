-- ===== src/Rbac.antt =====
-- app/services/rbac.py: permissions of users and the roles that every product has.
pub mod Templates
pub mod Catalogue
pub mod Matching
pub mod Scopes
-- `s.split(":", 1)`, which has to give two parts
use Prim.Native.Char.{code as char_code}
use plynth.Audit.{or_else}
use plynth.Models.Role.{UserRole, Role}
use plynth.Models.Tenant.{User}
use plynth.World.{World}
use plynth.Exec.{
  ok, err, Result, Action, ◌>>=◌, ◌>>◌, value_error, new_id, gets, modify, pure, or_raise,
  runtime_error,
}
use plynth.Prelude.{
  [], ◌∷◌, some, none, true, false, String, Option, List, ℕ, if◌then◌else◌, Bool, ◌++◌, map, select,
  str_eq, ◌&&◌, is_none, ◌==◌, any, ◌||◌, holds, find?,
}

unfoldable pub split_colon : String → Option (String × String)
split_colon String.[] = none
split_colon (String.◌∷◌ c s) =
    if char_code c == b':'
    then some ("", s)
    else (elim (split_colon s) [ none ↦ none | some (a, b) ↦ some (String.◌∷◌ c a, b) ])

-- `g in ("*", r)`
abbrev pub part_matches : String → String → Bool
part_matches granted required = str_eq granted "*" || str_eq granted required

-- `_matches`; a code without a colon raises a ValueError.
abbrev pub parts_match : Option (String × String) → Option (String × String) → Result Bool
parts_match (some (g_res, g_act)) (some (r_res, r_act)) =
    ok (part_matches g_res r_res && part_matches g_act r_act)
parts_match (some g) none = err value_error
parts_match none r = err value_error

unfoldable pub matches : String → String → Result Bool
matches granted required = parts_match (split_colon granted) (split_colon required)

-- `any(_matches(g, required) for g in codes)`, which stops at the first match
abbrev pub or_else_any : Result Bool → Result Bool → Result Bool
or_else_any (ok true) rest = ok true
or_else_any (ok false) rest = rest
or_else_any (err e) rest = err e

unfoldable pub any_matches : List String → String → Result Bool
any_matches [] required = ok false
any_matches (g ∷ codes) required = or_else_any (matches g required) (any_matches codes required)

-- A binding without a scope holds everywhere, one with a scope in its tenant.
abbrev pub in_scope : Option ℕ → UserRole → Bool
in_scope none b = is_none b.scope_tenant_id
in_scope (some tid) b = is_none b.scope_tenant_id || holds b.scope_tenant_id tid

abbrev pub flat {ℓ κ} : {A : Type ℓ} {B : Type κ} → (A → List B) → List A → List B
flat f [] = []
flat f (x ∷ xs) = f x ++ flat f xs

-- The joins from a role to the codes of its permissions
unfoldable pub role_codes : World → ℕ → List String
role_codes w role_id =
    flat (λ rp. map (λ p. p.code) (select (λ p. p.id == rp.permission_id) w.permissions))
      (select (λ rp. rp.role_id == role_id) w.role_permissions)

unfoldable pub binding_codes : World → UserRole → List String
binding_codes w b = if any (λ r. r.id == b.role_id) w.roles then role_codes w b.role_id else []

-- The result is a set: only membership in the list counts.
unfoldable pub list_user_permission_codes : User → Option ℕ → World → List String
list_user_permission_codes user tenant_id w = flat (binding_codes w) (
    select (λ b. (b.user_id == user.id) && in_scope (or_else tenant_id w.ctx.current_tenant) b)
      w.user_roles)

unfoldable pub user_has_permission : User → String → Option ℕ → World → Result Bool
user_has_permission user required tenant_id w =
    if user.is_platform_admin
    then ok true
    else any_matches (list_user_permission_codes user tenant_id w) required

unfoldable pub assign_role : ℕ → ℕ → ℕ → Option ℕ → Action UserRole
assign_role user_id role_id product_id scope_tenant_id = do
  id ← new_id
  let binding : UserRole = record {
    id = id;
    user_id = user_id;
    role_id = role_id;
    scope_tenant_id = scope_tenant_id;
    product_id = product_id;
  }
  modify (λ w. record w { user_roles = binding ∷ w.user_roles })
  pure binding

abbrev pub is_system_role : ℕ → String → Role → Bool
is_system_role product_id name r =
    str_eq r.name name && (is_none r.tenant_id && (r.product_id == product_id))

unfoldable pub assign_role_by_name : User → String → Action UserRole
assign_role_by_name user role_name = do
  found ← gets (λ w. find? (is_system_role user.product_id role_name) w.roles)
  role ← or_raise found runtime_error
  assign_role user.id role.id user.product_id none
