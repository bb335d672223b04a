-- ===== src/Auth.antt =====
-- app/services/auth.py, less the login with Google. Python's `str.lower` is a parameter.
pub mod Replay
pub mod Once
pub mod Reset
pub mod Relogin
pub mod Signup
use plynth.Context.{set_current_product, set_current_tenant}
use plynth.Audit.{Entry, record_entry}
use plynth.World.{World}
use plynth.Security.{
  Crypto, decode_token, verify_password, needs_rehash, issue_token, hash_password, Payload,
}
use plynth.Models.Session.{RefreshToken, PasswordResetToken}
use plynth.Models.Tenant.{User, Tenant}
use plynth.Prelude.{
  [], ◌∷◌, some, none, ℕ, String, Option, Bool, ℤ, find?, List, ◌==◌, str_eq, if◌then◌else◌, ◌&&◌,
  pos, save, is_none, not, any, leb, is_given, ◌*◌, is_some, ◌||◌, negsuc, get_or, ◌+◌,
}
use plynth.Exec.{
  Action, modify, ◌>>=◌, ◌>>◌, gets, now, raise_if, raise, or_raise, unauthorized, pure, conflict,
  not_found, new_id,
}

-- What `login` and `refresh` return
pub record Session : Type 0 where
  pub user : User
  pub access_token : String
  pub refresh_token : String
  pub access_exp : ℕ

abbrev pub ttl_of_days : ℕ → Option ℤ → ℕ
ttl_of_days default (some (pos days)) = if leb 1 days && leb days 365 then days * 86400 else default
ttl_of_days default (some (negsuc n)) = default
ttl_of_days default none = default

-- `_refresh_ttl_seconds`
unfoldable pub refresh_ttl_seconds : ℕ → World → ℕ
refresh_ttl_seconds product_id w = elim (find? (λ p. p.id == product_id) w.products) [
  | none ↦ w.env.refresh_ttl_seconds
  | some product ↦ ttl_of_days w.env.refresh_ttl_seconds product.refresh_ttl_days
]

abbrev pub save_user : User → Action (Unit {0})
save_user user = modify (λ w. record w { users = save (λ u. u.id) user w.users })

abbrev pub add_refresh_token : RefreshToken → Action (Unit {0})
add_refresh_token row = modify (λ w. record w { refresh_tokens = row ∷ w.refresh_tokens })

-- `update(RefreshToken).where(...).values(revoked_at=now)`
abbrev pub revoke : (RefreshToken → Bool) → ℕ → List RefreshToken → List RefreshToken
revoke p time [] = []
revoke p time (r ∷ rows) =
    (if p r then record r { revoked_at = some time } else r) ∷ revoke p time rows

abbrev pub revoke_where : (RefreshToken → Bool) → ℕ → Action (Unit {0})
revoke_where p time = modify (λ w. record w { refresh_tokens = revoke p time w.refresh_tokens })

abbrev pub is_live_of : ℕ → RefreshToken → Bool
is_live_of user_id r = (r.user_id == user_id) && is_none r.revoked_at

abbrev pub is_jti : String → RefreshToken → Bool
is_jti jti r = str_eq r.jti jti

abbrev pub user_event : String → Option String → Option ℕ → Option ℕ → User → Entry
user_event action ip tenant_id product_id user = record {
  action = action;
  actor_user_id = some user.id;
  actor_ip = ip;
  resource_type = some "user";
  resource_id = some user.id;
  tenant_id = tenant_id;
  product_id = product_id;
  acting_from_tenant_id_override = none;
}

module _ (crypto : Crypto) where
  -- The tokens that `login` and `refresh` issue, with the row for the refresh token
  unfoldable pub issue_tokens : User → Option String → Option String → Action Session
  issue_tokens user user_agent ip_address = do
    set_current_product (some user.product_id)
    set_current_tenant (some user.tenant_id)
    access ← issue_token crypto user.id user.tenant_id user.product_id "access" none
    seconds ← gets (refresh_ttl_seconds user.product_id)
    refresh_token ←
        issue_token crypto user.id user.tenant_id user.product_id "refresh" (some seconds)
    add_refresh_token (record {
      product_id = user.product_id;
      user_id = user.id;
      jti = refresh_token.jti;
      expires_at = refresh_token.expires_at;
      revoked_at = none;
      user_agent = user_agent;
      ip_address = ip_address;
    })
    pure (record {
      user = user;
      access_token = access.token;
      refresh_token = refresh_token.token;
      access_exp = access.expires_at;
    })

  unfoldable pub refresh : String → Action Session
  refresh refresh_token = do
    decoded ← gets (decode_token crypto refresh_token "refresh")
    payload ← or_raise decoded unauthorized
    found ← gets (λ w. find? (is_jti payload.jti) w.refresh_tokens)
    row ← or_raise found unauthorized
    time ← now
    raise_if (is_some row.revoked_at || leb row.expires_at time) unauthorized
    owner ← gets (λ w. find? (λ u. u.id == payload.sub) w.users)
    user ← or_raise owner unauthorized
    raise_if (not user.is_active) unauthorized
    revoke_where (is_jti row.jti) time
    issue_tokens user none none

  abbrev pub log_logout : User → Action (Unit {0})
  log_logout user = record_entry (user_event "user.logout" none none none user)

  -- One session: nothing happens if the token does not decode, and no audit row is written either.
  abbrev pub logout_one : User → ℕ → Option Payload → Action (Unit {0})
  logout_one user time none = pure tt
  logout_one user time (some payload) =
      revoke_where (λ r. is_jti payload.jti r && (r.user_id == user.id)) time >> log_logout user

  abbrev pub logout_given : User → ℕ → Option String → Action (Unit {0})
  logout_given user time refresh_token =
      if not (is_given refresh_token)
      then log_logout user
      else (gets (decode_token crypto (get_or refresh_token "") "refresh") >>= logout_one user time)

  unfoldable pub logout : User → Option String → Bool → Action (Unit {0})
  logout user refresh_token all_sessions = do
    time ← now
    if all_sessions
        then (revoke_where (is_live_of user.id) time >> log_logout user)
        else logout_given user time refresh_token

  unfoldable pub change_password : User → String → String → Action (Unit {0})
  change_password user current_password new_password = do
    raise_if (not (verify_password crypto current_password user.password_hash)) unauthorized
    raise_if (str_eq current_password new_password) conflict
    hashed ← hash_password crypto new_password
    save_user (record user { password_hash = hashed })
    time ← now
    revoke_where (is_live_of user.id) time
    record_entry (user_event "user.password_change" none none none user)

  -- `_hash_token`
  abbrev pub hash_token : String → String
  hash_token raw = crypto.sha256 raw

  abbrev pub is_reset_token : String → PasswordResetToken → Bool
  is_reset_token digest r = str_eq r.token_hash digest

  -- The writes of a reset: the password, the use of the token, the end of the sessions
  unfoldable pub set_new_password : PasswordResetToken → User → String → ℕ → Action User
  set_new_password row user new_password time = do
    hashed ← hash_password crypto new_password
    let updated = record user { password_hash = hashed }
    save_user updated
    modify (λ w. record w {
      reset_tokens = save (λ r. r.id) (record row { used_at = some time }) w.reset_tokens;
    })
    revoke_where (is_live_of user.id) time
    record_entry
        (user_event "user.password_reset" none (some user.tenant_id) (some user.product_id) user)
    pure updated

  unfoldable pub confirm_password_reset : String → String → Action User
  confirm_password_reset token new_password = do
    time ← now
    found ← gets (λ w. find? (is_reset_token (hash_token token)) w.reset_tokens)
    row ← or_raise found not_found
    raise_if (is_some row.used_at) unauthorized
    raise_if (leb row.expires_at time) unauthorized
    owner ← gets (λ w. find? (λ u. u.id == row.user_id) w.users)
    user ← or_raise owner unauthorized
    raise_if (not user.is_active || is_some user.deleted_at) unauthorized
    set_new_password row user new_password time

  module _ (lower : String → String) where
    abbrev pub is_login : ℕ → String → User → Bool
    is_login product_id email u =
        str_eq u.email (lower email) && ((u.product_id == product_id) && is_none u.deleted_at)

    -- The join with the user's tenant, by slug if one is given
    abbrev pub is_tenant_of : User → Option String → Tenant → Bool
    is_tenant_of u tenant_slug t =
        (t.id == u.tenant_id)
        && (not (is_given tenant_slug) || str_eq t.slug (get_or tenant_slug ""))

    abbrev pub login_user : ℕ → String → Option String → World → Option User
    login_user product_id email tenant_slug w =
        find? (λ u. is_login product_id email u && any (is_tenant_of u tenant_slug) w.tenants)
          w.users

    -- A refused login is written to the audit log in a transaction of its own.
    abbrev pub refuse : {A : Type 0} → Option String → User → Action A
    refuse ip_address user =
        record_entry (
          user_event "user.login_failed" ip_address (some user.tenant_id) (some user.product_id)
            user)
        >> raise unauthorized

    -- The hash is made again when its parameters are out of date.
    unfoldable pub rehashed : User → String → Action User
    rehashed user password = if not (needs_rehash crypto user.password_hash) then pure user else do
      hashed ← hash_password crypto password
      pure (record user { password_hash = hashed })

    -- `login` once the password is right
    unfoldable pub let_in : User → String → Option String → Option String → Action Session
    let_in user password user_agent ip_address = do
      current ← rehashed user password
      session ← issue_tokens current user_agent ip_address
      time ← now
      let seen = record current { last_login_at = some time }
      save_user seen
      record_entry (user_event "user.login" ip_address none none user)
      pure (record session { user = seen })

    unfoldable pub login :
        ℕ → String → String → Option String → Option String → Option String → Action Session
    login product_id email password tenant_slug user_agent ip_address = do
      found ← gets (login_user product_id email tenant_slug)
      user ← or_raise found unauthorized
      if not (user.is_active && verify_password crypto password user.password_hash)
          then refuse ip_address user
          else let_in user password user_agent ip_address

    abbrev pub is_resettable : ℕ → String → User → Bool
    is_resettable product_id email u = is_login product_id email u && u.is_active

    -- None for an address that is not known; else the raw token and its end.
    unfoldable pub request_password_reset :
        ℕ → String → Option String → Action (Option (String × ℕ))
    request_password_reset product_id email ip_address = do
      found ← gets (λ w. find? (is_resettable product_id email) w.users)
      elim found [
        | none ↦ pure none
        | some user ↦ do
          draw ← new_id
          let raw_token = crypto.token_urlsafe draw
          time ← now
          let expires_at = time + 3600
          id ← new_id
          modify (λ w. record w {
            reset_tokens =
                record {
                  id = id;
                  product_id = product_id;
                  user_id = user.id;
                  token_hash = hash_token raw_token;
                  expires_at = expires_at;
                  used_at = none;
                  requested_ip = ip_address;
                }
                ∷ w.reset_tokens;
          })
          record_entry (
              user_event "user.password_reset_requested" none (some user.tenant_id)
                (some product_id) user)
          pure (some (raw_token, expires_at))
      ]
