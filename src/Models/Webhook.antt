-- ===== src/Models/Webhook.antt =====
-- app/models/webhook_endpoint.py
use plynth.Prelude.{ℕ, String, Bool, Option, List}

pub record WebhookEndpoint : Type 0 where
  pub id : ℕ
  pub product_id : ℕ
  pub url : String
  pub description : Option String
  pub secret : String
  pub events : List String
  pub is_active : Bool

-- The columns that the worker fills in later are left out: they are NULL on a new row.
pub record WebhookDelivery : Type 0 where
  pub id : ℕ
  pub endpoint_id : ℕ
  pub product_id : ℕ
  pub event_type : String
  pub payload : String
  pub request_id : Option String
  pub attempt : ℕ
  pub status : String
