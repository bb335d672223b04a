-- ===== src/Security.antt =====
-- app/core/security.py: passwords and tokens. PyJWT, argon2 and the random sources are parameters.
-- The claims of a token.
use plynth.Exec.{Action, ◌>>=◌, new_id, gets, pure}
use plynth.World.{Env, World}
use plynth.Prelude.{some, none, ℕ, String, Option, Bool, if◌then◌else◌, str_eq, ◌+◌, get_or}

pub record Payload : Type 0 where
  pub sub : ℕ
  pub tid : ℕ
  pub pid : Option ℕ
  pub typ : String
  pub iat : ℕ
  pub exp : ℕ
  pub jti : String

-- What the code calls of the libraries, with the key of the settings: `jwt.encode` and `jwt.decode`
-- (at a time, none for an error), argon2's `hash` (with a number for the salt), `verify` and
-- `check_needs_rehash`, `sha256`, and `secrets.token_urlsafe` and
-- `secrets.token_hex` (with a number for the draw).
pub record Crypto : Type 0 where
  pub jwt_encode : Payload → String
  pub jwt_decode : ℕ → String → Option Payload
  pub hash : ℕ → String → String
  pub verify : String → String → Bool
  pub check_needs_rehash : String → Bool
  pub sha256 : String → String
  pub token_urlsafe : ℕ → String
  pub token_hex : ℕ → String

-- A token with its identifier and its end.
pub record Issued : Type 0 where
  pub token : String
  pub jti : String
  pub expires_at : ℕ

abbrev pub ttl : String → Env → ℕ
ttl typ env = if str_eq typ "access" then env.access_ttl_seconds else env.refresh_ttl_seconds

module _ (crypto : Crypto) where
  -- `hash_password`; the draw stands for the salt.
  unfoldable pub hash_password : String → Action String
  hash_password password = do salt ← new_id; pure (crypto.hash salt password)

  unfoldable pub verify_password : String → String → Bool
  verify_password password hashed = crypto.verify hashed password

  unfoldable pub needs_rehash : String → Bool
  needs_rehash hashed = crypto.check_needs_rehash hashed

  -- The draw gives the `jti`.
  unfoldable pub issue_token : ℕ → ℕ → ℕ → String → Option ℕ → Action Issued
  issue_token subject tenant_id product_id typ ttl_seconds = do
    env ← gets (λ w. w.env)
    let exp = env.now + get_or ttl_seconds (ttl typ env)
    id ← new_id
    let jti = env.uuid_str id
    let payload : Payload = record {
      sub = subject;
      tid = tenant_id;
      pid = some product_id;
      typ = typ;
      iat = env.now;
      exp = exp;
      jti = jti;
    }
    pure (record { token = crypto.jwt_encode payload; jti = jti; expires_at = exp })

  abbrev pub of_type : String → Option Payload → Option Payload
  of_type typ none = none
  of_type typ (some payload) = if str_eq payload.typ typ then some payload else none

  -- `decode_token`, none for an error
  unfoldable pub decode_token : String → String → World → Option Payload
  decode_token token expected_type w = of_type expected_type (crypto.jwt_decode w.env.now token)
