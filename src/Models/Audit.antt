-- ===== src/Models/Audit.antt =====
-- app/models/audit.py, without the JSON `diff` and the log's `request_id`
use plynth.Prelude.{ℕ, String, Option}

pub record AuditLog : Type 0 where
  pub product_id : ℕ
  pub tenant_id : ℕ
  pub acting_from_tenant_id : Option ℕ
  pub actor_user_id : Option ℕ
  pub actor_ip : Option String
  pub action : String
  pub resource_type : Option String
  pub resource_id : Option ℕ
