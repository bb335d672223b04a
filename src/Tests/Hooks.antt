-- ===== src/Tests/Hooks.antt =====
-- Runs of the dispatch of webhooks.
use plynth.Webhooks.{event_matches, dispatch}
use plynth.Webhooks.Dispatch.{Queues, wants, dispatch-Queues, event_matches-family}
use plynth.World.{World, empty_world}
use plynth.Models.Webhook.{WebhookEndpoint}
use text.Mathlib.Text.{starts_with}
use plynth.Prelude.{[], ◌∷◌, none, true, false, select, ◌<>◌, ◌≡◌, str_eq, ◌||◌}

abbrev endpoint : WebhookEndpoint
endpoint = record {
  id = 4;
  product_id = 9;
  url = "https://example.com";
  description = none;
  secret = "s";
  events = "subscription.*" ∷ [];
  is_active = true;
}

abbrev hooked : World
hooked = record empty_world {
  webhook_endpoints = record endpoint { id = 5; is_active = false } ∷ endpoint ∷ [];
}

dispatch-Queues_example :
    Queues
      (select (wants 9 "subscription.grace.ended") hooked.webhook_endpoints)
      9
      "subscription.grace.ended"
      "{}"
      none
      hooked
      (dispatch 9 "subscription.grace.ended" "{}" none hooked)
dispatch-Queues_example = dispatch-Queues 9 "subscription.grace.ended" "{}" none hooked

event_matches-family_example : event_matches ("subscription" <> ".*") "subscription.grace.ended" ≡ (
    (str_eq ("subscription" <> ".*") "*"
      || str_eq ("subscription" <> ".*") "subscription.grace.ended")
    || (str_eq "subscription.grace.ended" "subscription"
        || starts_with "subscription.grace.ended" ("subscription" <> ".")))
event_matches-family_example = event_matches-family "subscription" "subscription.grace.ended"
