-- ===== src/Samples.antt =====
-- Small databases for the tests.
pub mod People
-- A wallet of tenant 1 for "ai" in product 9 with ten thousand, and the entry that put it there.
use plynth.Component.{OverrideData, new_user_override}
use plynth.Models.Tenant.{User}
use plynth.Models.Component.{ProductComponent, UserComponentOverride}
use plynth.Storage.{PutRequest, new_collection}
use plynth.Models.Storage.{StorageCollection, StorageDocument}
use plynth.Models.Job.{Job, JobStatus}
use plynth.Job.{JobRequest, new_job}
use plynth.Billing.{InvoiceData, new_invoice}
use plynth.Models.Subscription.{SubscriptionStatus, Invoice, Subscription, InvoiceStatus}
use plynth.Models.Plan.{Plan, BillingInterval}
use plynth.World.{World, empty_world}
use plynth.Models.Credit.{CreditWallet, CreditLedger, CreditEntryType}
use plynth.Prelude.{[], ◌∷◌, some, none, true, false, pos}

abbrev pub ai_wallet : CreditWallet
ai_wallet = record {
  id = 1;
  product_id = 9;
  tenant_id = 1;
  feature_key = "ai";
  balance = pos 10000;
  period_start = none;
  period_end = none;
}

abbrev pub ai_entry : CreditLedger
ai_entry = record {
  product_id = 9;
  tenant_id = 1;
  wallet_id = 1;
  entry_type = CreditEntryType.grant;
  amount = pos 10000;
  balance_after = pos 10000;
  reason = none;
  reference = some "first";
}

abbrev pub funded : World
funded = record empty_world { drawn = 1; wallets = ai_wallet ∷ []; ledger = ai_entry ∷ [] }

-- A plan with a hundred credits for "ai" each period.
abbrev pub pro_plan : Plan
pro_plan = record {
  id = 5;
  product_id = 9;
  code = "pro";
  name = "Pro";
  description = none;
  price_cents = 1900;
  currency = "USD";
  interval = BillingInterval.month;
  trial_days = 0;
  is_public = true;
  is_active = true;
  provider_refs = [];
  features =
      record {
        plan_id = 5;
        product_id = 9;
        feature_key = "ai";
        limit_value = none;
        credit_amount = some (pos 100);
        is_hard_limit = true;
      }
      ∷ [];
}

-- The subscription of tenant 1 in a given state, and one invoice of it.
abbrev pub sub_in : SubscriptionStatus → Subscription
sub_in status = record {
  id = 2;
  product_id = 9;
  tenant_id = 1;
  plan_id = 5;
  status = status;
  current_period_start = 0;
  current_period_end = 900;
  trial_end = none;
  grace_ends_at = some 1000;
  cancel_at_period_end = false;
  cancelled_at = none;
  provider = "mock";
  provider_subscription_id = none;
  provider_customer_id = none;
}

abbrev pub bill : InvoiceData
bill = record {
  tenant_id = 1;
  product_id = 9;
  subscription_id = some 2;
  provider = "mock";
  provider_invoice_id = "in_1";
  amount_cents = 1900;
  currency = "USD";
  status = InvoiceStatus.open_invoice;
  issued_at = 900;
  due_at = 950;
  hosted_url = none;
}

abbrev pub invoice : Invoice
invoice = new_invoice 3 1000 bill

abbrev pub subscribed : SubscriptionStatus → World
subscribed status = record empty_world {
  drawn = 3;
  subscriptions = sub_in status ∷ [];
  invoices = invoice ∷ [];
}

-- A request for a job with a key, and the same job done.
abbrev pub request : JobRequest
request = record {
  product_id = 9;
  tenant_id = 1;
  type_ = "export";
  payload = "{}";
  callback_url = none;
  reference = none;
  ttl_seconds = none;
  idempotency_key = some "k1";
  actor_user_id = none;
  acting_from_tenant_id = none;
}

abbrev pub done_job : Job
done_job = record (new_job 4 10 request) { status = JobStatus.done; progress = 100 }

abbrev pub queue : World
queue = record empty_world { drawn = 4; jobs = done_job ∷ [] }

-- A collection of tenant 1 and one document in it.
abbrev pub prefs : StorageCollection
prefs = new_collection 6 9 1 "prefs" none (pos 0)

abbrev pub put_theme : PutRequest
put_theme = record {
  product_id = 9;
  tenant_id = 1;
  collection_name = "prefs";
  key = "theme";
  value = "{}";
  ttl_seconds = some (pos 60);
  if_version = some 1;
  actor_user_id = none;
}

abbrev pub theme : StorageDocument
theme = record {
  id = 7;
  product_id = 9;
  tenant_id = 1;
  collection_id = 6;
  key = "theme";
  value = "{}";
  version = 1;
  expires_at = none;
  updated_at = 500;
}

abbrev pub stored : World
stored = record empty_world { drawn = 7; collections = prefs ∷ []; documents = theme ∷ [] }

-- A component behind a plan, a user of tenant 1, and the user's override that gives it.
abbrev pub assistant : ProductComponent
assistant = record {
  id = 8;
  product_id = 9;
  code = "ai";
  name = "Assistant";
  description = none;
  is_default_enabled = true;
  is_active = true;
  settings = "{}";
  required_plan_codes = some ("pro" ∷ []);
}

abbrev pub user : User
user = record {
  id = 3;
  product_id = 9;
  tenant_id = 1;
  email = "u@example.com";
  password_hash = "h";
  full_name = none;
  is_active = true;
  last_login_at = none;
  deleted_at = none;
  is_platform_admin = false;
}

abbrev pub enabling : OverrideData
enabling = record { is_enabled = true; reason = none; actor_user_id = none }

abbrev pub given : UserComponentOverride
given = new_user_override 4 1000 9 1 3 8 enabling

abbrev pub entitled : World
entitled = record empty_world {
  drawn = 8;
  components = assistant ∷ [];
  user_overrides = given ∷ [];
}
