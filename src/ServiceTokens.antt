-- ===== src/ServiceTokens.antt =====
-- app/services/service_token.py. `secrets.token_hex` and SHA-256 are part of the cryptography's
-- parameter.
pub mod Liveness
use plynth.Context.{set_current_product}
use plynth.Products.{resolve_slug_to_id}
use plynth.Models.Tenant.{ProductStatus}
use plynth.Access.{is_past}
use plynth.Audit.{record_entry, event}
use plynth.World.{World}
use plynth.Security.{Crypto}
use plynth.Models.ServiceToken.{ProductServiceToken}
use text.Mathlib.Text.{starts_with}
use plynth.Prelude.{
  [], ◌∷◌, some, none, zero, suc, String, List, ℕ, Option, Bool, if◌then◌else◌, any, ◌==◌, select,
  is_given, str_eq, not, save, ◌&&◌, get_or, find?, ◌<>◌, is_some, true,
}
use plynth.Exec.{
  Action, raise_if, modify, ◌>>=◌, ◌>>◌, gets, new_id, validation_failed, unauthorized, or_raise,
  not_found, now, pure, forbidden,
}

abbrev pub token_prefix : String
token_prefix = "pst_"

abbrev pub allowed_scopes : List String
allowed_scopes = "env:read" ∷ "google:exchange" ∷ "credits:consume" ∷ []

abbrev pub has_scope : String → List String → Bool
has_scope scope scopes = any (λ s. str_eq s scope) scopes

-- `_validate_scopes`
unfoldable pub validate_scopes : List String → Action (Unit {0})
validate_scopes scopes =
    raise_if (any (λ s. not (has_scope s allowed_scopes)) scopes) validation_failed

-- `text[:n]`
unfoldable pub first_chars : ℕ → String → String
first_chars zero text = ""
first_chars (suc n) String.[] = ""
first_chars (suc n) (String.◌∷◌ c text) = String.◌∷◌ c (first_chars n text)

abbrev pub save_token : ProductServiceToken → Action (Unit {0})
save_token row = modify (λ w. record w { service_tokens = save (λ t. t.id) row w.service_tokens })

abbrev pub is_token_of : ℕ → ℕ → ProductServiceToken → Bool
is_token_of product_id token_id t = (t.id == token_id) && (t.product_id == product_id)

unfoldable pub revoke : ℕ → ℕ → Option ℕ → Action ProductServiceToken
revoke product_id token_id actor_user_id = do
  found ← gets (λ w. find? (is_token_of product_id token_id) w.service_tokens)
  row ← or_raise found not_found
  if is_some row.revoked_at then pure row else do
    time ← now
    let revoked = record row { revoked_at = some time }
    save_token revoked
    record_entry
        (event "service_token.revoked" actor_user_id "service_token" row.id none product_id)
    pure revoked

-- Newest first, as the table is kept.
abbrev pub list_tokens : ℕ → World → List ProductServiceToken
list_tokens product_id w = select (λ t. t.product_id == product_id) w.service_tokens

abbrev pub used_from : Option String → ProductServiceToken → Option String
used_from ip row = if is_given ip then some (first_chars 64 (get_or ip "")) else row.last_used_ip

module _ (crypto : Crypto) where
  unfoldable pub issue :
      ℕ → String → List String → Option ℕ → Option ℕ → Action (ProductServiceToken × String)
  issue product_id name scopes expires_at actor_user_id = do
    validate_scopes scopes
    draw ← new_id
    let raw = token_prefix <> crypto.token_hex draw
    id ← new_id
    let row : ProductServiceToken = record {
      id = id;
      product_id = product_id;
      name = name;
      token_hash = crypto.sha256 raw;
      scopes = scopes;
      expires_at = expires_at;
      revoked_at = none;
      last_used_at = none;
      last_used_ip = none;
    }
    modify (λ w. record w { service_tokens = row ∷ w.service_tokens })
    record_entry (event "service_token.issued" actor_user_id "service_token" id none product_id)
    pure (row, raw)

  abbrev pub is_digest : String → ProductServiceToken → Bool
  is_digest digest t = str_eq t.token_hash digest

  unfoldable pub authenticate : String → String → Option String → Action ProductServiceToken
  authenticate raw required_scope client_ip = do
    raise_if (not (starts_with raw token_prefix)) unauthorized
    found ← gets (λ w. find? (is_digest (crypto.sha256 raw)) w.service_tokens)
    row ← or_raise found unauthorized
    time ← now
    raise_if (is_some row.revoked_at) unauthorized
    raise_if (is_past time row.expires_at) unauthorized
    raise_if (not (has_scope required_scope row.scopes)) forbidden
    let used = record row { last_used_at = some time; last_used_ip = used_from client_ip row }
    save_token used
    pure used

  -- `resolved is None or resolved[0] != token.product_id`
  abbrev pub other_product : Option (ℕ × ProductStatus) → ℕ → Bool
  other_product none product_id = true
  other_product (some (id, status)) product_id = not (id == product_id)

  abbrev pub check_slug :
      (String → Option (ℕ × ProductStatus))
      → Option String
      → ProductServiceToken
      → Action (Unit {0})
  check_slug cache x_product_slug token =
      if not (is_given x_product_slug)
      then pure tt
      else (gets (resolve_slug_to_id cache (get_or x_product_slug "")) >>= λ resolved.
          raise_if (other_product resolved token.product_id) forbidden)

  -- `require_service_token` of app/core/dependencies.py
  unfoldable pub require_service_token :
      (String → Option (ℕ × ProductStatus))
      → String
      → Option String
      → Option String
      → Option String
      → Action ProductServiceToken
  require_service_token cache scope x_service_token client_ip x_product_slug = do
    raise_if (not (is_given x_service_token)) unauthorized
    token ← authenticate (get_or x_service_token "") scope client_ip
    check_slug cache x_product_slug token
    set_current_product (some token.product_id)
    pure token
