-- ===== src/Models/EnvVar.antt =====
-- app/models/env_var.py; a value is a list of bytes.
use plynth.Prelude.{ℕ, String, Bool, Option, List}

pub record ProductEnvVar : Type 0 where
  pub id : ℕ
  pub product_id : ℕ
  pub key : String
  pub value_encrypted : List ℕ
  pub is_secret : Bool
  pub description : Option String
  pub last_rotated_at : ℕ
