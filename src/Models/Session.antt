-- ===== src/Models/Session.antt =====
-- The tokens of app/models/user.py
use plynth.Prelude.{ℕ, String, Option}

pub record RefreshToken : Type 0 where
  pub product_id : ℕ
  pub user_id : ℕ
  pub jti : String
  pub expires_at : ℕ
  pub revoked_at : Option ℕ
  pub user_agent : Option String
  pub ip_address : Option String

pub record PasswordResetToken : Type 0 where
  pub id : ℕ
  pub product_id : ℕ
  pub user_id : ℕ
  pub token_hash : String
  pub expires_at : ℕ
  pub used_at : Option ℕ
  pub requested_ip : Option String
