-- ===== src/Webhooks.antt =====
-- app/services/webhook_endpoint.py, less the signature and the truncation of response bodies, which
-- work on bytes. `secrets.token_urlsafe` is part of the cryptography's parameter.
pub mod Dispatch
use plynth.World.{World}
use plynth.Security.{Crypto}
use plynth.Models.Webhook.{WebhookEndpoint, WebhookDelivery}
use plynth.Prelude.{
  [], ◌∷◌, some, none, true, false, String, List, ℕ, Option, Bool, if◌then◌else◌, get_or, ℤ, ◌==◌,
  str_eq, ◌||◌, select, ◌&&◌, ◌<>◌, any, save, find?, take, max, min, pos_part, not,
}
use plynth.Exec.{Action, ◌>>=◌, ◌>>◌, modify, pure, new_id, gets, or_raise, not_found, raise_if}
use text.Mathlib.Text.{starts_with}

-- The prefix before a trailing ".*": `filter_pattern[:-2]`, none if it does not end so.
unfoldable pub before_dot_star : String → Option String
before_dot_star String.[] = none
before_dot_star (String.◌∷◌ c text) =
    let rest = before_dot_star text in
    if str_eq (String.◌∷◌ c text) ".*"
    then some ""
    else (elim rest [ none ↦ none | some prefix ↦ some (String.◌∷◌ c prefix) ])

abbrev pub in_family : String → Option String → Bool
in_family event_type none = false
in_family event_type (some prefix) =
    str_eq event_type prefix || starts_with event_type (prefix <> ".")

unfoldable pub event_matches : String → String → Bool
event_matches filter_pattern event_type =
    (str_eq filter_pattern "*" || str_eq filter_pattern event_type)
    || in_family event_type (before_dot_star filter_pattern)

abbrev pub no_filter : List String → Bool
no_filter [] = true
no_filter (f ∷ fs) = false

unfoldable pub endpoint_accepts : WebhookEndpoint → String → Bool
endpoint_accepts endpoint event_type =
    no_filter endpoint.events || any (λ f. event_matches f event_type) endpoint.events

-- `token_urlsafe(32)[:64]`: the token has 43 characters, so all of it is kept.
unfoldable pub create :
    Crypto → ℕ → String → Option String → List String → Action (WebhookEndpoint × String)
create crypto product_id url description events = do
  draw ← new_id
  let secret = crypto.token_urlsafe draw
  id ← new_id
  let endpoint : WebhookEndpoint = record {
    id = id;
    product_id = product_id;
    url = url;
    description = description;
    secret = secret;
    events = events;
    is_active = true;
  }
  modify (λ w. record w { webhook_endpoints = endpoint ∷ w.webhook_endpoints })
  pure (endpoint, secret)

-- Newest first, as the table is kept.
abbrev pub list_for_product : ℕ → World → List WebhookEndpoint
list_for_product product_id w = select (λ e. e.product_id == product_id) w.webhook_endpoints

unfoldable pub get_or_404 : ℕ → ℕ → Action WebhookEndpoint
get_or_404 product_id endpoint_id = do
  found ← gets (λ w. find? (λ e. e.id == endpoint_id) w.webhook_endpoints)
  endpoint ← or_raise found not_found
  raise_if (not (endpoint.product_id == product_id)) not_found
  pure endpoint

abbrev pub save_endpoint : WebhookEndpoint → Action WebhookEndpoint
save_endpoint row =
    modify (λ w. record w { webhook_endpoints = save (λ e. e.id) row w.webhook_endpoints })
    >> pure row

-- The keys that `update` looks at, each absent (or None) or a value
pub record Fields : Type 0 where
  pub url : Option String
  pub description : Option String
  pub events : Option (List String)
  pub is_active : Option Bool

abbrev pub with_fields : Fields → WebhookEndpoint → WebhookEndpoint
with_fields f e = record e {
  url = get_or f.url e.url;
  description = (elim f.description [ none ↦ e.description | some d ↦ some d ]);
  events = get_or f.events e.events;
  is_active = get_or f.is_active e.is_active;
}

unfoldable pub update : ℕ → ℕ → Fields → Action WebhookEndpoint
update product_id endpoint_id fields = do
  endpoint ← get_or_404 product_id endpoint_id
  save_endpoint (with_fields fields endpoint)

unfoldable pub set_active : ℕ → ℕ → Bool → Action WebhookEndpoint
set_active product_id endpoint_id is_active = do
  endpoint ← get_or_404 product_id endpoint_id
  save_endpoint (record endpoint { is_active = is_active })

abbrev pub delete : ℕ → ℕ → Action WebhookEndpoint
delete product_id endpoint_id = set_active product_id endpoint_id false

unfoldable pub recent_deliveries : ℕ → ℕ → ℤ → Action (List WebhookDelivery)
recent_deliveries product_id endpoint_id limit = do
  _ ← get_or_404 product_id endpoint_id
  gets (λ w.
      take (max 1 (min (pos_part limit) 500))
        (select (λ d. d.endpoint_id == endpoint_id) w.webhook_deliveries))

abbrev pub new_delivery : ℕ → ℕ → ℕ → String → String → Option String → WebhookDelivery
new_delivery id endpoint_id product_id event_type payload request_id = record {
  id = id;
  endpoint_id = endpoint_id;
  product_id = product_id;
  event_type = event_type;
  payload = payload;
  request_id = request_id;
  attempt = 0;
  status = "pending";
}

abbrev pub is_matched : String → WebhookEndpoint → Bool
is_matched event_type ep = ep.is_active && endpoint_accepts ep event_type

-- The loop over the endpoints that match
unfoldable pub queue_all :
    List WebhookEndpoint → ℕ → String → String → Option String → Action (List WebhookDelivery)
queue_all [] product_id event_type payload request_id = pure []
queue_all (ep ∷ eps) product_id event_type payload request_id = do
  id ← new_id
  let delivery = new_delivery id ep.id product_id event_type payload request_id
  modify (λ w. record w { webhook_deliveries = delivery ∷ w.webhook_deliveries })
  created ← queue_all eps product_id event_type payload request_id
  pure (delivery ∷ created)

unfoldable pub dispatch : ℕ → String → String → Option String → Action (List WebhookDelivery)
dispatch product_id event_type payload request_id = do
  endpoints ← gets (list_for_product product_id)
  queue_all (select (is_matched event_type) endpoints) product_id event_type payload request_id
