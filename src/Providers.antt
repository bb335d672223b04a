-- ===== src/Providers.antt =====
-- The billing provider (app/providers/billing/base.py), an external service: each call answers or
-- raises.
use plynth.Prelude.{ℕ, String, Bool, Option}
use plynth.Exec.{Result}

pub record ProviderSubscription : Type 0 where
  pub id : String
  pub current_period_start : ℕ
  pub current_period_end : ℕ

pub record Provider : Type 0 where
  pub name : String
  pub ensure_customer : ℕ → String → Result String
  pub create_subscription :
      String → String → ℕ → Option String → Option String → Result ProviderSubscription
  pub change_subscription : String → String → Bool → Option String → Result ProviderSubscription
  pub cancel_subscription : String → Bool → Result (Unit {0})
