-- ===== src/World.antt =====
-- The state that a service call works on: the database session, the request's context variables
-- (app/core/tenant.py) and what the environment answers.
use plynth.Prelude.{ℕ, suc, String, Bool, false, Option, none, List, []}
use plynth.Models.Credit.{CreditWallet, CreditLedger}
use plynth.Models.Plan.{Plan, PlanFeature}
use plynth.Models.Subscription.{Subscription, Invoice}
use plynth.Models.Job.{Job}
use plynth.Models.Storage.{StorageCollection, StorageDocument}
use plynth.Models.Component.{ProductComponent, UserComponentOverride, TenantComponentOverride}
use plynth.Models.Tenant.{Tenant, Product, User}
use plynth.Models.Role.{Role, Permission, RolePermission, UserRole}
use plynth.Models.Session.{RefreshToken, PasswordResetToken}
use plynth.Models.Webhook.{WebhookEndpoint, WebhookDelivery}
use plynth.Models.ServiceToken.{ProductServiceToken}
use plynth.Models.EnvVar.{ProductEnvVar}
use plynth.Models.Audit.{AuditLog}

-- What the code takes from its environment: the clock (`datetime.now`, one reading for a call),
-- the identifiers that `uuid4` will return, in order, the texts of identifiers and dates, and the
-- settings of app/core/config.py.
pub record Env : Type 0 where
  pub now : ℕ
  pub uuid : ℕ → ℕ
  pub uuid_str : ℕ → String
  pub date_str : ℕ → String
  pub default_trial_days : ℕ
  pub grace_period_days : ℕ
  pub access_ttl_seconds : ℕ
  pub refresh_ttl_seconds : ℕ

-- The five context variables.
pub record Context : Type 0 where
  pub current_product : Option ℕ
  pub current_tenant : Option ℕ
  pub acting_from_tenant : Option ℕ
  pub bypass_tenant_var : Bool
  pub bypass_product_var : Bool

-- `drawn` counts the identifiers taken so far.
pub record World : Type 0 where
  pub env : Env
  pub ctx : Context
  pub drawn : ℕ
  pub audit_log : List AuditLog
  pub wallets : List CreditWallet
  pub ledger : List CreditLedger
  pub plans : List Plan
  pub plan_features : List PlanFeature
  pub subscriptions : List Subscription
  pub invoices : List Invoice
  pub jobs : List Job
  pub collections : List StorageCollection
  pub documents : List StorageDocument
  pub components : List ProductComponent
  pub user_overrides : List UserComponentOverride
  pub tenant_overrides : List TenantComponentOverride
  pub tenants : List Tenant
  pub products : List Product
  pub users : List User
  pub roles : List Role
  pub permissions : List Permission
  pub role_permissions : List RolePermission
  pub user_roles : List UserRole
  pub refresh_tokens : List RefreshToken
  pub reset_tokens : List PasswordResetToken
  pub webhook_endpoints : List WebhookEndpoint
  pub webhook_deliveries : List WebhookDelivery
  pub service_tokens : List ProductServiceToken
  pub env_vars : List ProductEnvVar

-- The identifier that the next new row gets.
abbrev pub next_id : World → ℕ
next_id w = w.env.uuid w.drawn

-- An empty database, for the tests: identifiers count up from 1, the clock stands at 1000.
abbrev pub empty_world : World
empty_world = record {
  env = record {
    now = 1000;
    uuid = suc;
    uuid_str = λ i. "u";
    date_str = λ t. "d";
    default_trial_days = 14;
    grace_period_days = 7;
    access_ttl_seconds = 900;
    refresh_ttl_seconds = 2592000;
  };
  ctx = record {
    current_product = none;
    current_tenant = none;
    acting_from_tenant = none;
    bypass_tenant_var = false;
    bypass_product_var = false;
  };
  drawn = 0;
  audit_log = [];
  wallets = [];
  ledger = [];
  plans = [];
  plan_features = [];
  subscriptions = [];
  invoices = [];
  jobs = [];
  collections = [];
  documents = [];
  components = [];
  user_overrides = [];
  tenant_overrides = [];
  tenants = [];
  products = [];
  users = [];
  roles = [];
  permissions = [];
  role_permissions = [];
  user_roles = [];
  refresh_tokens = [];
  reset_tokens = [];
  webhook_endpoints = [];
  webhook_deliveries = [];
  service_tokens = [];
  env_vars = [];
}
