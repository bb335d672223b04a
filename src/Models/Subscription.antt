-- ===== src/Models/Subscription.antt =====
-- app/models/subscription.py and app/models/invoice.py
use plynth.Prelude.{ℕ, String, Bool, true, false, Option}

pub data SubscriptionStatus : Type 0 where
  trial active past_due grace suspended cancelled expired : SubscriptionStatus

pub record Subscription : Type 0 where
  pub id : ℕ
  pub product_id : ℕ
  pub tenant_id : ℕ
  pub plan_id : ℕ
  pub status : SubscriptionStatus
  pub current_period_start : ℕ
  pub current_period_end : ℕ
  pub trial_end : Option ℕ
  pub grace_ends_at : Option ℕ
  pub cancel_at_period_end : Bool
  pub cancelled_at : Option ℕ
  pub provider : String
  pub provider_subscription_id : Option String
  pub provider_customer_id : Option String

abbrev pub status_has_access : SubscriptionStatus → Bool
status_has_access SubscriptionStatus.trial = true
status_has_access SubscriptionStatus.active = true
status_has_access SubscriptionStatus.past_due = true
status_has_access SubscriptionStatus.grace = true
status_has_access _ = false

-- The property `Subscription.has_access`
abbrev pub has_access : Subscription → Bool
has_access s = status_has_access s.status

pub data InvoiceStatus : Type 0 where
  draft open_invoice paid uncollectible void : InvoiceStatus

pub record Invoice : Type 0 where
  pub id : ℕ
  pub product_id : ℕ
  pub tenant_id : ℕ
  pub subscription_id : Option ℕ
  pub status : InvoiceStatus
  pub amount_cents : ℕ
  pub currency : String
  pub issued_at : ℕ
  pub due_at : ℕ
  pub paid_at : Option ℕ
  pub attempt_count : ℕ
  pub last_attempt_at : Option ℕ
  pub next_attempt_at : Option ℕ
  pub provider : String
  pub provider_invoice_id : String
  pub hosted_invoice_url : Option String
