-- ===== src/Billing.antt =====
-- app/services/billing.py: what invoices and payments do to a subscription.
pub mod Dunning
pub mod Recovery
pub mod Invoices
use plynth.Audit.{record_entry, event}
use plynth.Credit.{day}
use plynth.Subscription.{enter_grace_period}
use plynth.World.{World}
use plynth.Exec.{Action, pure, ◌>>=◌, ◌>>◌, now, gets, when, new_id, modify}
use plynth.Models.Subscription.{InvoiceStatus, SubscriptionStatus, Subscription, Invoice}
use plynth.Prelude.{
  ◌∷◌, some, none, true, false, String, ℕ, Option, Bool, if◌then◌else◌, str_eq, ◌&&◌, find?, ◌+◌,
  leb, is_none, ◌==◌, ◌*◌, save,
}

abbrev pub is_paid : InvoiceStatus → Bool
is_paid InvoiceStatus.paid = true
is_paid _ = false

abbrev pub is_invoice : String → String → Invoice → Bool
is_invoice provider provider_invoice_id i =
    str_eq i.provider provider && str_eq i.provider_invoice_id provider_invoice_id

-- The arguments of `record_invoice`.
pub record InvoiceData : Type 0 where
  pub tenant_id : ℕ
  pub product_id : ℕ
  pub subscription_id : Option ℕ
  pub provider : String
  pub provider_invoice_id : String
  pub amount_cents : ℕ
  pub currency : String
  pub status : InvoiceStatus
  pub issued_at : ℕ
  pub due_at : ℕ
  pub hosted_url : Option String

abbrev pub new_invoice : ℕ → ℕ → InvoiceData → Invoice
new_invoice id time d = record {
  id = id;
  product_id = d.product_id;
  tenant_id = d.tenant_id;
  subscription_id = d.subscription_id;
  status = d.status;
  amount_cents = d.amount_cents;
  currency = d.currency;
  issued_at = d.issued_at;
  due_at = d.due_at;
  paid_at = if is_paid d.status then some time else none;
  attempt_count = 0;
  last_attempt_at = none;
  next_attempt_at = none;
  provider = d.provider;
  provider_invoice_id = d.provider_invoice_id;
  hosted_invoice_url = d.hosted_url;
}

-- An invoice that is known gets the new status, and a time of payment if it had none.
unfoldable pub refreshed : ℕ → InvoiceStatus → Invoice → Invoice
refreshed time status i = record i {
  status = status;
  paid_at = if is_paid status && is_none i.paid_at then some time else i.paid_at;
}

unfoldable pub store_invoice : InvoiceData → Option Invoice → Action Invoice
store_invoice d none = do
  time ← now
  id ← new_id
  let invoice = new_invoice id time d
  modify (λ w. record w { invoices = invoice ∷ w.invoices })
  pure invoice
store_invoice d (some old) = do
  time ← now
  let invoice = refreshed time d.status old
  modify (λ w. record w { invoices = save (λ i. i.id) invoice w.invoices })
  pure invoice

unfoldable pub record_invoice : InvoiceData → Action Invoice
record_invoice d = do
  existing ← gets (λ w. find? (is_invoice d.provider d.provider_invoice_id) w.invoices)
  store_invoice d existing

-- `status not in (GRACE, SUSPENDED)`: a failed payment acts on the subscription.
abbrev pub is_dunned : SubscriptionStatus → Bool
is_dunned SubscriptionStatus.grace = false
is_dunned SubscriptionStatus.suspended = false
is_dunned _ = true

-- `status in (PAST_DUE, GRACE, SUSPENDED)`: a payment reactivates the subscription.
abbrev pub is_reactivated : SubscriptionStatus → Bool
is_reactivated SubscriptionStatus.past_due = true
is_reactivated SubscriptionStatus.grace = true
is_reactivated SubscriptionStatus.suspended = true
is_reactivated _ = false

abbrev pub find_subscription : Option ℕ → World → Option Subscription
find_subscription none w = none
find_subscription (some id) w = find? (λ s. s.id == id) w.subscriptions

-- The attempt that failed, counted on the invoice
abbrev pub attempted : ℕ → Invoice → Invoice
attempted time i = record i {
  attempt_count = i.attempt_count + 1;
  last_attempt_at = some time;
  next_attempt_at = some (time + 3 * day);
}

unfoldable pub dun : ℕ → Subscription → Action (Unit {0})
dun attempts sub = if leb 3 attempts then (enter_grace_period sub.id >> pure tt) else do
  let sub' = record sub { status = SubscriptionStatus.past_due }
  modify (λ w. record w { subscriptions = save (λ s. s.id) sub' w.subscriptions })
  record_entry
      (event "subscription.past_due" none "subscription" sub.id (some sub.tenant_id) sub.product_id)

-- `if sub and sub.status not in ...`
unfoldable pub dun_if_live : ℕ → Option Subscription → Action (Unit {0})
dun_if_live attempts none = pure tt
dun_if_live attempts (some sub) = when (is_dunned sub.status) (dun attempts sub)

unfoldable pub fail_invoice : Option Invoice → Action (Unit {0})
fail_invoice none = pure tt
fail_invoice (some inv) = do
  time ← now
  let inv' = attempted time inv
  modify (λ w. record w { invoices = save (λ i. i.id) inv' w.invoices })
  sub ← gets (find_subscription inv.subscription_id)
  dun_if_live inv'.attempt_count sub

unfoldable pub handle_payment_failed : ℕ → Action (Unit {0})
handle_payment_failed invoice_id = do
  inv ← gets (λ w. find? (λ i. i.id == invoice_id) w.invoices)
  fail_invoice inv

abbrev pub reactivated : Subscription → Subscription
reactivated sub = record sub { status = SubscriptionStatus.active; grace_ends_at = none }

unfoldable pub reactivate : Option Subscription → Action (Unit {0})
reactivate none = pure tt
reactivate (some sub) = when (is_reactivated sub.status) do
  modify (λ w. record w { subscriptions = save (λ s. s.id) (reactivated sub) w.subscriptions })
  record_entry (
      event "subscription.reactivated" none "subscription" sub.id (some sub.tenant_id)
        sub.product_id)

unfoldable pub pay_invoice : Option Invoice → Action (Unit {0})
pay_invoice none = pure tt
pay_invoice (some inv) = do
  time ← now
  let inv' = record inv { status = InvoiceStatus.paid; paid_at = some time }
  modify (λ w. record w { invoices = save (λ i. i.id) inv' w.invoices })
  sub ← gets (find_subscription inv.subscription_id)
  reactivate sub

unfoldable pub handle_payment_succeeded : ℕ → Action (Unit {0})
handle_payment_succeeded invoice_id = do
  inv ← gets (λ w. find? (λ i. i.id == invoice_id) w.invoices)
  pay_invoice inv
