-- ===== src/Models/ServiceToken.antt =====
-- app/models/service_token.py
use plynth.Prelude.{ℕ, String, Option, List}

pub record ProductServiceToken : Type 0 where
  pub id : ℕ
  pub product_id : ℕ
  pub name : String
  pub token_hash : String
  pub scopes : List String
  pub expires_at : Option ℕ
  pub revoked_at : Option ℕ
  pub last_used_at : Option ℕ
  pub last_used_ip : Option String
