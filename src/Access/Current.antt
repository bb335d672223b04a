-- ===== src/Access/Current.antt =====
-- app/core/dependencies.py: the product and the user of a request, and what the route asks of them
pub mod Place
pub mod Entry
use plynth.Context.{set_acting_from_tenant, set_current_product, set_current_tenant}
use plynth.Products.{resolve_slug_to_id, is_active_product}
use plynth.Access.{resolve_act_as, enforce_tenant_expiry}
use plynth.Rbac.{user_has_permission}
use plynth.Audit.{nil_uuid}
use plynth.World.{World}
use plynth.Security.{Crypto, decode_token}
use plynth.Models.Tenant.{User, ProductStatus, Tenant}
use plynth.Prelude.{
  [], ◌∷◌, some, none, true, Option, String, ℕ, List, Bool, if◌then◌else◌, not, ◌==◌, sort_by,
  is_given, get_or, ◌&&◌, ltb, is_none, select, is_text, holds_text, is_some, holds, find?,
}
use plynth.Exec.{
  err, Action, Result, or_raise, ◌>>=◌, ◌>>◌, runtime_error, pure, validation_failed, raise_if,
  gets, unauthorized, forbidden, lift,
}

-- The headers of a request and its bearer token
pub record Request : Type 0 where
  pub token : Option String
  pub x_acting_tenant_slug : Option String
  pub x_platform_admin_token : Option String

-- `resolve_product`
unfoldable pub resolve_product :
    (String → Option (ℕ × ProductStatus)) → Option String → Action (Option ℕ)
resolve_product cache x_product_slug = if not (is_given x_product_slug) then pure none else do
  found ← gets (resolve_slug_to_id cache (get_or x_product_slug ""))
  resolved ← or_raise found validation_failed
  raise_if (not (is_active_product resolved.1)) forbidden
  set_current_product (some resolved.0)
  pure (some resolved.0)

unfoldable pub require_product : Option ℕ → Action ℕ
require_product pid = or_raise pid validation_failed

-- A tenant without a parent, in a product
abbrev pub is_top : ℕ → Tenant → Bool
is_top product_id t = (t.product_id == product_id) && (is_none t.parent_id && is_none t.deleted_at)

abbrev pub first_of : List Tenant → Option Tenant
first_of [] = none
first_of (t ∷ ts) = some t

unfoldable pub root_of : ℕ → World → Option Tenant
root_of product_id w =
    first_of (sort_by (λ t u. ltb t.created_at u.created_at) (select (is_top product_id) w.tenants))

abbrev pub id_or_nil : Option Tenant → ℕ
id_or_nil none = nil_uuid
id_or_nil (some t) = t.id

-- The transient user of a platform admin
abbrev pub admin_user : ℕ → ℕ → User
admin_user product_id tenant_id = record {
  id = nil_uuid;
  product_id = product_id;
  tenant_id = tenant_id;
  email = "platform-admin@local";
  password_hash = "";
  full_name = some "Platform Admin";
  is_active = true;
  last_login_at = none;
  deleted_at = none;
  is_platform_admin = true;
}

-- The tenant that the request works in: the home tenant, or the one that it names
unfoldable pub enter_tenant : User → Bool → Option String → Action ℕ
enter_tenant user possible slug =
    if not (is_given slug && possible) then pure user.tenant_id else do
      target ← resolve_act_as user (get_or slug "")
      if target.id == user.tenant_id
          then pure user.tenant_id
          else do set_acting_from_tenant (some user.tenant_id); pure target.id

unfoldable pub enter_as_admin : Option ℕ → Request → Action User
enter_as_admin header_pid req = do
  product_id ← or_raise header_pid validation_failed
  root ← gets (root_of product_id)
  let admin = admin_user product_id (id_or_nil root)
  set_current_product (some product_id)
  effective_tenant_id ← enter_tenant admin (is_some root) req.x_acting_tenant_slug
  set_current_tenant (some effective_tenant_id)
  pure admin

abbrev pub expiry_result : Option (Result (Unit {0})) → Result (Unit {0})
expiry_result none = err runtime_error
expiry_result (some r) = r

-- `x_platform_admin_token and settings.platform_admin_token and the two are equal`
abbrev pub is_admin_token : String → Option String → Bool
is_admin_token setting given = is_given given && (is_text setting && holds_text given setting)

module _ (crypto : Crypto) (platform_admin_token : String) where
  unfoldable pub enter_as_user : Option ℕ → Request → Action User
  enter_as_user header_pid req = do
    raise_if (not (is_given req.token)) unauthorized
    decoded ← gets (decode_token crypto (get_or req.token "") "access")
    payload ← or_raise decoded unauthorized
    token_pid ← or_raise payload.pid unauthorized
    raise_if (is_some header_pid && not (holds header_pid token_pid)) forbidden
    found ← gets (λ w. find? (λ u. u.id == payload.sub) w.users)
    user ← or_raise found unauthorized
    raise_if (not user.is_active) unauthorized
    raise_if (not (user.product_id == token_pid)) forbidden
    set_current_product (some token_pid)
    effective_tenant_id ← enter_tenant user true req.x_acting_tenant_slug
    set_current_tenant (some effective_tenant_id)
    verdict ← gets (enforce_tenant_expiry effective_tenant_id)
    lift (expiry_result verdict)
    pure user

  unfoldable pub get_current_user : Option ℕ → Request → Action User
  get_current_user header_pid req =
      if is_admin_token platform_admin_token req.x_platform_admin_token
      then enter_as_admin header_pid req
      else enter_as_user header_pid req

  unfoldable pub require_platform_admin : Option String → Action (Unit {0})
  require_platform_admin x_platform_admin_token = do
    raise_if (not (is_text platform_admin_token)) forbidden
    raise_if
        (not (
          is_given x_platform_admin_token
          && holds_text x_platform_admin_token platform_admin_token))
        unauthorized

-- `actor_id`
unfoldable pub actor_id : User → Option ℕ
actor_id user = if user.is_platform_admin then none else some user.id

unfoldable pub get_current_tenant_id : User → World → ℕ
get_current_tenant_id user w = get_or w.ctx.current_tenant user.tenant_id

-- `require_permission`: the scope is the tenant of the request.
unfoldable pub require_permission : String → User → Action User
require_permission permission user = do
  may ← λ w. (user_has_permission user permission none w, w)
  raise_if (not may) forbidden
  pure user
