-- ===== src/Samples/People.antt =====
-- A company with a subsidiary, a user with a role in the subsidiary, and toy cryptography.
use plynth.Security.{Crypto, Payload}
use plynth.World.{World, empty_world}
use plynth.Models.Session.{RefreshToken, PasswordResetToken}
use plynth.Models.Role.{UserRole}
use plynth.Models.Tenant.{Tenant, Product, TenantStatus, ProductStatus, TenantType}
use plynth.Samples.{user}
use plynth.Prelude.{[], ◌∷◌, some, none, true, false, String, if◌then◌else◌, pos, str_eq}

abbrev pub home : Tenant
home = record {
  id = 1;
  product_id = 9;
  name = "Home";
  slug = "home";
  status = TenantStatus.active;
  type = TenantType.company;
  parent_id = none;
  is_root = true;
  allow_child_access = none;
  expires_at = some 5000;
  deleted_at = none;
  created_at = 10;
}

abbrev pub kid : Tenant
kid = record home {
  id = 2;
  name = "Kid";
  slug = "kid";
  parent_id = some 1;
  is_root = false;
  expires_at = none;
}

abbrev pub shop : Product
shop = record {
  id = 9;
  slug = "shop";
  status = ProductStatus.active;
  allow_parent_child_access = none;
  refresh_ttl_days = some (pos 7);
  deleted_at = none;
}

-- The user of the samples, with a role that is scoped to the subsidiary
abbrev pub kid_role : UserRole
kid_role = record { id = 6; user_id = 3; role_id = 5; scope_tenant_id = some 2; product_id = 9 }

abbrev pub live_token : RefreshToken
live_token = record {
  product_id = 9;
  user_id = 3;
  jti = "j1";
  expires_at = 9000;
  revoked_at = none;
  user_agent = none;
  ip_address = none;
}

abbrev pub reset_row : PasswordResetToken
reset_row = record {
  id = 11;
  product_id = 9;
  user_id = 3;
  token_hash = "raw";
  expires_at = 4600;
  used_at = none;
  requested_ip = none;
}

abbrev pub office : World
office = record empty_world {
  drawn = 20;
  tenants = kid ∷ home ∷ [];
  products = shop ∷ [];
  users = user ∷ [];
  user_roles = kid_role ∷ [];
  refresh_tokens = live_token ∷ [];
  reset_tokens = reset_row ∷ [];
}

abbrev pub claims : String → String → Payload
claims typ jti = record {
  sub = 3;
  tid = 1;
  pid = some 9;
  typ = typ;
  iat = 900;
  exp = 2000;
  jti = jti;
}

-- Two tokens decode; a hash is the password itself.
abbrev pub toy : Crypto
toy = record {
  jwt_encode = λ p. p.jti;
  jwt_decode = λ time token.
      if str_eq token "access"
      then some (claims "access" "j0")
      else (if str_eq token "refresh" then some (claims "refresh" "j1") else none);
  hash = λ salt password. password;
  verify = λ hashed password. str_eq password hashed;
  check_needs_rehash = λ hashed. false;
  sha256 = λ text. text;
  token_urlsafe = λ draw. "raw";
  token_hex = λ draw. "0f";
}
