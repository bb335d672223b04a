-- ===== src/Subscription.antt =====
-- app/services/subscription.py: the life of a tenant's subscription.
pub mod Grace
use plynth.Audit.{record_entry, event}
use plynth.Credit.{day, grant_plan_credits}
use plynth.Plan.{list_plans, get_by_code}
use plynth.Models.Plan.{Plan}
use plynth.Exec.{
  Action, ◌>>=◌, ◌>>◌, or_raise, pure, gets, new_id, now, modify, validation_failed, raise_if,
  not_found, lift, conflict,
}
use plynth.Models.Subscription.{Subscription, SubscriptionStatus}
use plynth.Providers.{Provider, ProviderSubscription}
use plynth.World.{Env}
use plynth.Prelude.{
  [], ◌∷◌, some, none, true, false, ℕ, List, String, Option, Bool, if◌then◌else◌, ◌+◌, ◌==◌, ltb,
  str_eq, is_text, find?, ◌*◌, ◌&&◌, save, leb, select, is_some, not, get_or, length, is_given,
  ◌<>◌,
}

abbrev pub of_tenant : ℕ → Subscription → Bool
of_tenant tenant_id s = s.tenant_id == tenant_id

-- `min(plans, key=lambda p: p.price_cents)`: the first of the cheapest
unfoldable pub cheapest : List Plan → Option Plan
cheapest [] = none
cheapest (p ∷ ps) = elim (cheapest ps) [
  | none ↦ some p
  | some q ↦ if ltb q.price_cents p.price_cents then some q else some p
]

unfoldable pub choose_plan : ℕ → Option String → Action Plan
choose_plan product_id none = do
  plans ← list_plans product_id true
  or_raise (cheapest plans) validation_failed
choose_plan product_id (some code) =
    if is_text code
    then get_by_code product_id code
    else do plans ← list_plans product_id true; or_raise (cheapest plans) validation_failed

-- The subscription that `start_trial` adds: a free plan is active with no trial, any other is on
-- trial for the plan's days or the default.
unfoldable pub trial_subscription : Env → ℕ → ℕ → ℕ → Plan → Subscription
trial_subscription env id tenant_id product_id plan =
    let is_free = plan.price_cents == 0 in
    let trial_days = if plan.trial_days == 0 then env.default_trial_days else plan.trial_days in
    record {
      id = id;
      product_id = product_id;
      tenant_id = tenant_id;
      plan_id = plan.id;
      status = if is_free then SubscriptionStatus.active else SubscriptionStatus.trial;
      current_period_start = env.now;
      current_period_end = env.now + (if is_free then 36500 * day else 30 * day);
      trial_end = if is_free then none else some (env.now + trial_days * day);
      grace_ends_at = none;
      cancel_at_period_end = false;
      cancelled_at = none;
      provider = "mock";
      provider_subscription_id = none;
      provider_customer_id = none;
    }

unfoldable pub start_trial : ℕ → ℕ → Option String → Action Subscription
start_trial tenant_id product_id plan_code = do
  existing ← gets (λ w. find? (of_tenant tenant_id) w.subscriptions)
  raise_if (is_some existing) conflict
  plan ← choose_plan product_id plan_code
  id ← new_id
  env ← gets (λ w. w.env)
  let sub = trial_subscription env id tenant_id product_id plan
  modify (λ w. record w { subscriptions = sub ∷ w.subscriptions })
  grant_plan_credits tenant_id product_id plan ("trial:" <> env.uuid_str id)
  record_entry (
      event
        (if plan.price_cents == 0
          then "subscription.activated_free"
          else "subscription.trial_started")
        none "subscription" id (some tenant_id) product_id)
  pure sub

-- What `purchase` writes on the subscription, new or existing.
unfoldable pub purchased :
    Provider → Plan → String → ProviderSubscription → Subscription → Subscription
purchased provider plan customer_id p_sub sub = record sub {
  plan_id = plan.id;
  status = SubscriptionStatus.active;
  current_period_start = p_sub.current_period_start;
  current_period_end = p_sub.current_period_end;
  trial_end = none;
  grace_ends_at = none;
  cancel_at_period_end = false;
  cancelled_at = none;
  provider = provider.name;
  provider_customer_id = some customer_id;
  provider_subscription_id = some p_sub.id;
}

abbrev pub new_subscription : ℕ → ℕ → ℕ → ℕ → Subscription
new_subscription id tenant_id product_id plan_id = record {
  id = id;
  product_id = product_id;
  tenant_id = tenant_id;
  plan_id = plan_id;
  status = SubscriptionStatus.trial;
  current_period_start = 0;
  current_period_end = 0;
  trial_end = none;
  grace_ends_at = none;
  cancel_at_period_end = false;
  cancelled_at = none;
  provider = "mock";
  provider_subscription_id = none;
  provider_customer_id = none;
}

-- The row that `purchase` changes: the tenant's subscription, or a new one, and whether it is new.
unfoldable pub upsert :
    (Subscription → Subscription) → ℕ → ℕ → ℕ → Option Subscription → Action (Subscription × Bool)
upsert change tenant_id product_id plan_id none = do
  id ← new_id
  let sub = change (new_subscription id tenant_id product_id plan_id)
  modify (λ w. record w { subscriptions = sub ∷ w.subscriptions })
  pure (sub, true)
upsert change tenant_id product_id plan_id (some old) = do
  let sub = change old
  modify (λ w. record w { subscriptions = save (λ s. s.id) sub w.subscriptions })
  pure (sub, false)

-- `plan.provider_refs.get(name)`
unfoldable pub price_ref : String → List (String × String) → Option String
price_ref name [] = none
price_ref name ((k, v) ∷ refs) = if str_eq k name then some v else price_ref name refs

-- `price_id or plan.code`
abbrev pub text_or : Option String → String → String
text_or none d = d
text_or (some s) d = if is_text s then s else d

-- `_get_or_raise` and `get_for_tenant`
unfoldable pub get_for_tenant : ℕ → Action Subscription
get_for_tenant tenant_id w = or_raise (find? (of_tenant tenant_id) w.subscriptions) not_found w

-- What `cancel` writes on the subscription.
unfoldable pub cancelled_sub : ℕ → Bool → Subscription → Subscription
cancelled_sub time true sub = record sub { cancel_at_period_end = true }
cancelled_sub time false sub = record sub {
  status = SubscriptionStatus.cancelled;
  cancelled_at = some time;
}

module _ (provider : Provider) where
  unfoldable pub purchase :
      ℕ → String → Option String → Option ℕ → Option String → Action Subscription
  purchase tenant_id plan_code payment_method_token actor_user_id idempotency_key = do
    found ← gets (λ w. find? (λ t. t.id == tenant_id) w.tenants)
    tenant ← or_raise found not_found
    plan ← get_by_code tenant.product_id plan_code
    let price_id = price_ref provider.name plan.provider_refs
    raise_if (not (is_given price_id) && not (str_eq provider.name "mock")) validation_failed
    customer_id ← lift (provider.ensure_customer tenant_id ("billing@" <> tenant.slug))
    p_sub ← lift (
        provider.create_subscription customer_id (text_or price_id plan.code) 0 payment_method_token
          idempotency_key)
    existing ← gets (λ w. find? (of_tenant tenant_id) w.subscriptions)
    (sub, is_new) ←
        upsert (purchased provider plan customer_id p_sub) tenant_id tenant.product_id plan.id
          existing
    env ← gets (λ w. w.env)
    grant_plan_credits tenant_id tenant.product_id plan
        ("period:" <> (p_sub.id <> (":" <> env.date_str p_sub.current_period_start)))
    record_entry (
        event (if is_new then "subscription.start" else "subscription.purchase") actor_user_id
          "subscription" sub.id (some tenant_id) tenant.product_id)
    pure sub

  -- The periods that the provider reports for the change, if the subscription is known to it
  unfoldable pub change_at_provider :
      Subscription → Plan → Bool → Option String → Action Subscription
  change_at_provider sub new_plan proration idempotency_key = elim sub.provider_subscription_id [
    | none ↦ pure sub
    | some sid ↦
        if is_text sid
        then (do
          let price_id = price_ref provider.name new_plan.provider_refs
          p_sub ← lift (
              provider.change_subscription sid (get_or price_id new_plan.code) proration
                idempotency_key)
          pure (record sub {
            current_period_start = p_sub.current_period_start;
            current_period_end = p_sub.current_period_end;
          }))
        else pure sub
  ]

  unfoldable pub change_plan : ℕ → String → Bool → Option ℕ → Option String → Action Subscription
  change_plan tenant_id new_plan_code proration actor_user_id idempotency_key = do
    sub ← get_for_tenant tenant_id
    new_plan ← get_by_code sub.product_id new_plan_code
    old_plan ← gets (λ w. find? (λ p. p.id == sub.plan_id) w.plans)
    raise_if (elim old_plan [ none ↦ false | some p ↦ p.id == new_plan.id ]) conflict
    moved ← change_at_provider sub new_plan proration idempotency_key
    let sub' = record moved { plan_id = new_plan.id }
    modify (λ w. record w { subscriptions = save (λ s. s.id) sub' w.subscriptions })
    env ← gets (λ w. w.env)
    grant_plan_credits tenant_id sub'.product_id new_plan (
        "change:"
        <> (env.uuid_str sub'.id
            <> (":" <> (new_plan.code <> (":" <> env.date_str sub'.current_period_start)))))
    let old_price : ℕ = elim old_plan [ none ↦ 0 | some p ↦ p.price_cents ]
    record_entry (
        event
          (if ltb old_price new_plan.price_cents
            then "subscription.upgrade"
            else "subscription.downgrade")
          actor_user_id "subscription" sub'.id (some tenant_id) sub'.product_id)
    pure sub'

  unfoldable pub cancel_at_provider : Subscription → Bool → Action (Unit {0})
  cancel_at_provider sub at_period_end = elim sub.provider_subscription_id [
    | none ↦ pure tt
    | some sid ↦
        if is_text sid then lift (provider.cancel_subscription sid at_period_end) else pure tt
  ]

  unfoldable pub cancel : ℕ → Bool → Option ℕ → Action Subscription
  cancel tenant_id at_period_end actor_user_id = do
    sub ← get_for_tenant tenant_id
    cancel_at_provider sub at_period_end
    time ← now
    let sub' = cancelled_sub time at_period_end sub
    modify (λ w. record w { subscriptions = save (λ s. s.id) sub' w.subscriptions })
    record_entry (
        event "subscription.cancel" actor_user_id "subscription" sub'.id (some tenant_id)
          sub'.product_id)
    pure sub'

abbrev pub is_grace : SubscriptionStatus → Bool
is_grace SubscriptionStatus.grace = true
is_grace _ = false

-- `status in (SUSPENDED, CANCELLED)`: such a subscription does not enter a grace period.
abbrev pub is_ended : SubscriptionStatus → Bool
is_ended SubscriptionStatus.suspended = true
is_ended SubscriptionStatus.cancelled = true
is_ended _ = false

abbrev pub in_grace : Env → Subscription → Subscription
in_grace env sub = record sub {
  status = SubscriptionStatus.grace;
  grace_ends_at = some (env.now + env.grace_period_days * day);
}

unfoldable pub enter_grace_period : ℕ → Action Subscription
enter_grace_period subscription_id = do
  found ← gets (λ w. find? (λ s. s.id == subscription_id) w.subscriptions)
  sub ← or_raise found not_found
  if is_ended sub.status then pure sub else do
    env ← gets (λ w. w.env)
    let sub' = in_grace env sub
    modify (λ w. record w { subscriptions = save (λ s. s.id) sub' w.subscriptions })
    record_entry (
        event "subscription.grace_started" none "subscription" sub'.id (some sub'.tenant_id)
          sub'.product_id)
    pure sub'

-- `status == GRACE and grace_ends_at <= now`; a NULL end is never past.
unfoldable pub has_lapsed : ℕ → Subscription → Bool
has_lapsed time s =
    is_grace s.status && elim s.grace_ends_at [ none ↦ false | some end ↦ leb end time ]

-- The loop of `suspend_if_grace_expired` over the candidates
unfoldable pub suspend_all : List Subscription → Action (Unit {0})
suspend_all [] = pure tt
suspend_all (sub ∷ rest) = do
  let sub' = record sub { status = SubscriptionStatus.suspended }
  modify (λ w. record w { subscriptions = save (λ s. s.id) sub' w.subscriptions })
  record_entry (
      event "subscription.suspended" none "subscription" sub'.id (some sub'.tenant_id)
        sub'.product_id)
  suspend_all rest

unfoldable pub suspend_if_grace_expired : Action ℕ
suspend_if_grace_expired = do
  time ← now
  candidates ← gets (λ w. select (has_lapsed time) w.subscriptions)
  suspend_all candidates
  pure (length candidates)
