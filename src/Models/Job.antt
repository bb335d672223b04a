-- ===== src/Models/Job.antt =====
-- app/models/job.py
use plynth.Prelude.{ℕ, String, Bool, true, false, Option}

pub data JobStatus : Type 0 where
  queued running done failed cancelled : JobStatus

-- membership in TERMINAL_STATUSES
abbrev pub is_terminal : JobStatus → Bool
is_terminal JobStatus.queued = false
is_terminal JobStatus.running = false
is_terminal _ = true

pub record Job : Type 0 where
  pub id : ℕ
  pub product_id : ℕ
  pub tenant_id : ℕ
  pub type_ : String
  pub status : JobStatus
  pub payload : String
  pub result : Option String
  pub error : Option (String × String)
  pub progress : ℕ
  pub idempotency_key : Option String
  pub reference : Option String
  pub callback_url : Option String
  pub queued_at : ℕ
  pub started_at : Option ℕ
  pub completed_at : Option ℕ
  pub expires_at : ℕ
  pub created_by_user_id : Option ℕ
  pub acting_from_tenant_id : Option ℕ
