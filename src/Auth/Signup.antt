-- ===== src/Auth/Signup.antt =====
-- app/services/auth.py: `register` and `register_individual`. Python's `str.lower`, `str.strip` and
-- `str.title` are parameters.
use plynth.Auth.{user_event}
use plynth.Audit.{record_entry}
use plynth.Subscription.{start_trial}
use plynth.Rbac.{assign_role_by_name}
use plynth.Rbac.Catalogue.{ensure_system_roles_for_product}
use plynth.Users.{new_user}
use plynth.Context.{set_current_product, set_current_tenant}
use plynth.ServiceTokens.{first_chars}
use plynth.Tenant.{create_tenant}
use plynth.Models.Tenant.{TenantType, User, Tenant}
use plynth.Security.{Crypto, hash_password}
use Prim.Native.Char.{Char, code as char_code}
use plynth.Prelude.{
  ◌∷◌, some, none, true, false, zero, suc, String, Bool, Option, if◌then◌else◌, ◌==◌, ℕ, ◌||◌,
  is_text, is_given, get_or, ◌<>◌,
}
use plynth.Exec.{
  ok, err, Action, ◌>>=◌, ◌>>◌, Error, Result, new_id, pure, gets, raise, conflict, modify,
}

pub record Texts : Type 0 where
  pub lower : String → String
  pub strip : String → String
  pub title : String → String

-- The part before the first `@`
unfoldable pub local_part : String → String
local_part String.[] = ""
local_part (String.◌∷◌ c s) =
    let rest = local_part s in if char_code c == b'@' then "" else String.◌∷◌ c rest

abbrev pub is_separator : Char → Bool
is_separator c = (char_code c == b'.') || ((char_code c == b'_') || (char_code c == b'-'))

-- `.replace(".", " ").replace("_", " ").replace("-", " ")`
unfoldable pub spaced : String → String
spaced String.[] = ""
spaced (String.◌∷◌ c s) = let rest = spaced s in String.◌∷◌ (if is_separator c then " " else c) rest

abbrev pub first_text : String → String → String
first_text a b = if is_text a then a else b

abbrev pub given_name : Texts → Option String → String
given_name texts full_name = if is_given full_name then texts.strip (get_or full_name "") else ""

-- `_derive_individual_name`
unfoldable pub derive_individual_name : Texts → String → Option String → String
derive_individual_name texts email full_name =
    first_text (given_name texts full_name)
      (first_text (texts.title (spaced (local_part email))) "User")

-- `_derive_individual_slug`: the first eight digits of a UUID are those of its text.
unfoldable pub derive_individual_slug : Action String
derive_individual_slug = do
  id ← new_id
  env ← gets (λ w. w.env)
  pure ("usr-" <> first_chars 8 (env.uuid_str id))

-- The arguments of `register`, less the product
pub record Registration : Type 0 where
  pub tenant_name : String
  pub tenant_slug : String
  pub email : String
  pub password : String
  pub full_name : Option String
  pub tenant_type : TenantType

module _ (crypto : Crypto) (texts : Texts) where
  unfoldable pub register : ℕ → Registration → Action (User × Tenant)
  register product_id r = do
    tenant ← create_tenant product_id (record {
      name = r.tenant_name;
      slug = r.tenant_slug;
      parent_id = none;
      allow_child_access = none;
      actor_user_id = none;
      type = r.tenant_type;
    })
    set_current_product (some product_id)
    set_current_tenant (some tenant.id)
    hashed ← hash_password crypto r.password
    id ← new_id
    let user = new_user id product_id tenant.id (texts.lower r.email) hashed r.full_name
    modify (λ w. record w { users = user ∷ w.users })
    ensure_system_roles_for_product product_id
    assign_role_by_name user "owner"
    start_trial tenant.id product_id none
    record_entry (user_event "user.register" none none none user)
    pure (user, tenant)

  abbrev pub is_conflict : Error → Bool
  is_conflict Error.conflict = true
  is_conflict _ = false

  -- `try: return ... except Conflict: continue`
  abbrev pub retry : {A : Type 0} → Result A → Action A → Action A
  retry (ok a) again = pure a
  retry (err e) again = if is_conflict e then again else raise e

  abbrev pub individual : ℕ → String → String → Option String → Action (User × Tenant)
  individual product_id email password full_name = do
    slug ← derive_individual_slug
    register product_id (record {
      tenant_name = derive_individual_name texts email full_name;
      tenant_slug = slug;
      email = email;
      password = password;
      full_name = full_name;
      tenant_type = TenantType.individual;
    })

  unfoldable pub register_tries : ℕ → ℕ → String → String → Option String → Action (User × Tenant)
  register_tries zero product_id email password full_name w = raise conflict w
  register_tries (suc n) product_id email password full_name w =
      let again = register_tries n product_id email password full_name in
      let (r, w') = individual product_id email password full_name w in retry r again w'

  unfoldable pub register_individual : ℕ → String → String → Option String → Action (User × Tenant)
  register_individual product_id email password full_name =
      register_tries 3 product_id email password full_name
