-- ===== src/Users.antt =====
-- app/services/user.py. `str.lower` is a parameter.
pub mod Lockout
use plynth.Audit.{record_entry, event}
use plynth.Auth.{save_user}
use plynth.Models.Tenant.{User}
use plynth.Models.Role.{Role}
use plynth.Security.{Crypto, hash_password}
use plynth.Prelude.{
  [], ◌∷◌, some, none, true, false, ℕ, String, List, Bool, Option, str_eq, if◌then◌else◌, ◌==◌,
  ◌&&◌, is_given, find?, holds, get_or, is_none, ◌||◌, is_some,
}
use plynth.Exec.{
  Action, ◌>>=◌, ◌>>◌, pure, gets, or_raise, new_id, raise_if, not_found, now, modify, conflict,
}

unfoldable pub set_active : ℕ → Bool → Option ℕ → Action User
set_active user_id is_active actor_user_id = do
  found ← gets (λ w. find? (λ u. u.id == user_id) w.users)
  user ← or_raise found not_found
  let row = record user { is_active = is_active }
  save_user row
  record_entry (
      event (if is_active then "user.activate" else "user.deactivate") actor_user_id "user" row.id
        (some row.tenant_id) row.product_id)
  pure row

unfoldable pub soft_delete : ℕ → Option ℕ → Action (Unit {0})
soft_delete user_id actor_user_id = do
  found ← gets (λ w. find? (λ u. u.id == user_id) w.users)
  user ← or_raise found not_found
  time ← now
  save_user (record user { deleted_at = some time; is_active = false })
  record_entry
      (event "user.delete" actor_user_id "user" user.id (some user.tenant_id) user.product_id)

-- The arguments of `invite_user`
pub record Invitation : Type 0 where
  pub email : String
  pub full_name : Option String
  pub role_codes : List String
  pub actor_user_id : Option ℕ
  pub initial_password : Option String

abbrev pub is_role : ℕ → ℕ → String → Role → Bool
is_role product_id tenant_id code r =
    str_eq r.name code
    && ((r.product_id == product_id) && (holds r.tenant_id tenant_id || is_none r.tenant_id))

-- The loop over the codes
unfoldable pub give_roles : ℕ → ℕ → ℕ → List String → Action (Unit {0})
give_roles product_id tenant_id user_id [] = pure tt
give_roles product_id tenant_id user_id (code ∷ codes) = do
  found ← gets (λ w. find? (is_role product_id tenant_id code) w.roles)
  role ← or_raise found not_found
  id ← new_id
  modify (λ w. record w {
    user_roles =
        record {
          id = id;
          user_id = user_id;
          role_id = role.id;
          scope_tenant_id = none;
          product_id = product_id;
        }
        ∷ w.user_roles;
  })
  give_roles product_id tenant_id user_id codes

-- `role_codes or ["member"]`
abbrev pub codes_or_member : List String → List String
codes_or_member [] = "member" ∷ []
codes_or_member (c ∷ cs) = c ∷ cs

abbrev pub new_user : ℕ → ℕ → ℕ → String → String → Option String → User
new_user id product_id tenant_id email password_hash full_name = record {
  id = id;
  product_id = product_id;
  tenant_id = tenant_id;
  email = email;
  password_hash = password_hash;
  full_name = full_name;
  is_active = true;
  last_login_at = none;
  deleted_at = none;
  is_platform_admin = false;
}

module _ (crypto : Crypto) (lower : String → String) where
  -- `initial_password or token_urlsafe(12)`
  unfoldable pub password_or_random : Option String → Action String
  password_or_random given =
      if is_given given
      then pure (get_or given "")
      else (new_id >>= λ draw. pure (crypto.token_urlsafe draw))

  abbrev pub is_member : ℕ → String → User → Bool
  is_member tenant_id email u =
      (u.tenant_id == tenant_id) && (str_eq u.email (lower email) && is_none u.deleted_at)

  unfoldable pub invite_user : ℕ → ℕ → Invitation → Action (User × String)
  invite_user product_id tenant_id i = do
    existing ← gets (λ w. find? (is_member tenant_id i.email) w.users)
    raise_if (is_some existing) conflict
    raw_password ← password_or_random i.initial_password
    hashed ← hash_password crypto raw_password
    id ← new_id
    let user = new_user id product_id tenant_id (lower i.email) hashed i.full_name
    modify (λ w. record w { users = user ∷ w.users })
    give_roles product_id tenant_id id (codes_or_member i.role_codes)
    record_entry (record {
      action = "user.invite";
      actor_user_id = i.actor_user_id;
      actor_ip = none;
      resource_type = some "user";
      resource_id = some id;
      tenant_id = none;
      product_id = none;
      acting_from_tenant_id_override = none;
    })
    pure (user, raw_password)
