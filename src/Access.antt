-- ===== src/Access.antt =====
-- app/core/dependencies.py: who a request acts as, and in which product and tenant.
pub mod ActAs
pub mod Offers
pub mod Expiry
pub mod Current
use plynth.Rbac.{user_has_permission}
use plynth.World.{World}
use plynth.Models.Tenant.{Product, Tenant, User}
use plynth.Exec.{
  ok, err, Action, ◌>>=◌, ◌>>◌, Result, gets, raise_if, or_raise, forbidden, not_found, pure,
}
use plynth.Prelude.{
  [], ◌∷◌, some, none, true, false, zero, suc, String, ℕ, Option, Bool, List, get_or, str_eq, not,
  find?, any, leb, ◌&&◌, ◌==◌, length, is_none, holds, ◌||◌, if◌then◌else◌,
}

abbrev pub act_as_permission : String
act_as_permission = "tenants:act_as_child"

-- `_product_allows_act_as` and `_tenant_allows_child_access`: on by default
abbrev pub product_allows_act_as : Product → Bool
product_allows_act_as p = get_or p.allow_parent_child_access true

abbrev pub tenant_allows_child_access : Tenant → Bool
tenant_allows_child_access t = get_or t.allow_child_access true

abbrev pub is_live_slug : ℕ → String → Tenant → Bool
is_live_slug product_id slug t =
    str_eq t.slug slug && ((t.product_id == product_id) && is_none t.deleted_at)

abbrev pub product_blocks : Option Product → Bool
product_blocks none = true
product_blocks (some p) = not (product_allows_act_as p)

abbrev pub home_blocks : Option Tenant → Bool
home_blocks none = false
home_blocks (some t) = not (tenant_allows_child_access t)

abbrev pub product_of : User → World → Option Product
product_of user w = find? (λ p. p.id == user.product_id) w.products

abbrev pub home_of : User → World → Option Tenant
home_of user w = find? (λ t. t.id == user.tenant_id) w.tenants

-- A role of the user inside a tenant
abbrev pub has_target_binding : User → ℕ → World → Bool
has_target_binding user tenant_id w =
    any (λ b. (b.user_id == user.id) && holds b.scope_tenant_id tenant_id) w.user_roles

-- The gates of `_resolve_act_as` once the target is known to be a child
unfoldable pub check_gates : User → Tenant → Action Tenant
check_gates user target = do
  product ← gets (product_of user)
  raise_if (product_blocks product) forbidden
  home ← gets (home_of user)
  raise_if (home_blocks home) forbidden
  has_global ← λ w. (user_has_permission user act_as_permission (some user.tenant_id) w, w)
  bound ← gets (has_target_binding user target.id)
  raise_if (not (has_global || bound)) forbidden
  pure target

-- `_resolve_act_as`
unfoldable pub resolve_act_as : User → String → Action Tenant
resolve_act_as user target_slug = do
  found ← gets (λ w. find? (is_live_slug user.product_id target_slug) w.tenants)
  target ← or_raise found not_found
  if target.id == user.tenant_id then pure target else do
    raise_if (not (holds target.parent_id user.tenant_id)) forbidden
    check_gates user target

-- `expires_at is not None and expires_at <= now`
abbrev pub is_past : ℕ → Option ℕ → Bool
is_past time none = false
is_past time (some end) = leb end time

-- The loop of `_enforce_tenant_expiry` with a bound on its rounds, none if that is too small
unfoldable pub walk_parents : ℕ → List ℕ → Option ℕ → World → Option (Result (Unit {0}))
walk_parents fuel seen none w = some (ok tt)
walk_parents zero seen (some cursor) w = none
walk_parents (suc fuel) seen (some cursor) w = elim (any (λ s. s == cursor) seen) [
  | true ↦ some (ok tt)
  | false ↦ elim (find? (λ t. t.id == cursor) w.tenants) [
    | none ↦ some (ok tt)
    | some row ↦ elim (is_past w.env.now row.expires_at) [
      | true ↦ some (err forbidden)
      | false ↦ walk_parents fuel (cursor ∷ seen) row.parent_id w
    ]
  ]
]

-- `_enforce_tenant_expiry`: as many rounds as there are tenants, and one.
unfoldable pub enforce_tenant_expiry : ℕ → World → Option (Result (Unit {0}))
enforce_tenant_expiry tenant_id w = walk_parents (suc (length w.tenants)) [] (some tenant_id) w
