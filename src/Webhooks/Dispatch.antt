-- ===== src/Webhooks/Dispatch.antt =====
-- app/services/webhook_endpoint.py: what `dispatch` queues, and which events a filter takes.
use plynth.Webhooks.{
  endpoint_accepts, no_filter, queue_all, new_delivery, dispatch, before_dot_star, is_matched,
  list_for_product, event_matches, starts_with,
}
use plynth.World.{World, next_id}
use plynth.Models.Webhook.{WebhookDelivery, WebhookEndpoint}
use text.Mathlib.TextLemmas.{cons-append}
use Prim.Native.Char.{Char}
use plynth.Prelude.{
  ◌==◌, ◌&&◌, any, subst, [], ◌∷◌, some, true, false, inl, inr, refl, List, ℕ, String, ◌≡◌, ◌+◌,
  length, map, All, Option, ap, arith, select, ◌<>◌, ◌∙◌, Bool, str_eq, Bool-cases, ◌||◌,
  true_ne_false, sym, eq_iff,
}
use plynth.Exec.{ok, Result, resume, pure}

abbrev push_all : List WebhookDelivery → List WebhookDelivery → List WebhookDelivery
push_all [] rows = rows
push_all (d ∷ ds) rows = push_all ds (d ∷ rows)

-- The state after deliveries are queued: nothing else is written.
abbrev pub with_deliveries : List WebhookDelivery → World → World
with_deliveries ds w = record w {
  webhook_deliveries = push_all ds w.webhook_deliveries;
  drawn = w.drawn + length ds;
}

abbrev pub IsQueued : ℕ → String → String → Option String → WebhookDelivery → Type 0
IsQueued product_id event_type payload request_id d =
    (d.product_id ≡ product_id)
    × (d.event_type ≡ event_type)
    × (d.payload ≡ payload)
    × (d.request_id ≡ request_id)
    × (d.status ≡ "pending")
    × (d.attempt ≡ 0)

-- One delivery for each of the endpoints, in their order
abbrev pub Queues :
    List WebhookEndpoint
    → ℕ
    → String
    → String
    → Option String
    → World
    → Result (List WebhookDelivery) × World
    → Type 0
Queues eps product_id event_type payload request_id w out =
    (ds : List WebhookDelivery) × (out ≡ (ok ds, with_deliveries ds w))
    × (map (λ d. d.endpoint_id) ds ≡ map (λ e. e.id) eps)
    × All (IsQueued product_id event_type payload request_id) ds

queue_all-Queues :
    (eps : List WebhookEndpoint) (p : ℕ) (event payload : String) (rid : Option String) (w : World)
    → Queues eps p event payload rid w (queue_all eps p event payload rid w)
unfolding queue_all
queue_all-Queues [] p event payload rid w =
    ([], ap (λ n. (ok [], record w { drawn = n })) (omega arith), refl, tt)
queue_all-Queues (ep ∷ eps) p event payload rid w =
    let d = new_delivery (next_id w) ep.id p event payload rid in
    let (ds, e, ids, rows) =
      queue_all-Queues eps p event payload rid
        (record w { drawn = w.drawn + 1; webhook_deliveries = d ∷ w.webhook_deliveries }) in
    (
      d ∷ ds,
      ap
            (λ (x : Result (List WebhookDelivery) × World).
              resume x.0 (λ created. pure (d ∷ created)) x.1)
            e
          ∙ ap
              (λ n. (
                ok (d ∷ ds),
                record w { webhook_deliveries = push_all ds (d ∷ w.webhook_deliveries); drawn = n },
              ))
              (omega arith),
      ap (λ xs. ep.id ∷ xs) ids,
      ((refl, refl, refl, refl, refl, refl), rows),
    )

-- No filter at all, or one that takes the event
abbrev pub takes : String → List String → Bool
takes event_type [] = true
takes event_type (f ∷ fs) = any (λ g. event_matches g event_type) (f ∷ fs)

-- An endpoint of the product that is active and has no filter or one that takes the event
abbrev pub wants : ℕ → String → WebhookEndpoint → Bool
wants product_id event_type e =
    (e.product_id == product_id) && (e.is_active && takes event_type e.events)

select-select {ℓ} :
    {A : Type ℓ} (p q both : A → Bool) (xs : List A)
    → ((x : A) → (q x && p x) ≡ both x)
    → select p (select q xs) ≡ select both xs
select-select p q both [] same = refl
select-select p q both (x ∷ xs) same = elim (Bool-cases (q x)) [
  | inr out ↦ rw (out, sym (same x)) (rw out (select-select p q both xs same))
  | inl kept ↦ elim (Bool-cases (p x)) [
    | inr out ↦ rw (kept, sym (same x)) (rw (kept, out) (select-select p q both xs same))
    | inl held ↦
        rw (kept, sym (same x))
          (rw (kept, held) (ap (λ ys. x ∷ ys) (select-select p q both xs same)))
  ]
]

wants_lem :
    (p : ℕ) (event : String) (e : WebhookEndpoint)
    → ((e.product_id == p) && is_matched event e) ≡ wants p event e
unfolding endpoint_accepts
wants_lem p event e = ap (λ b. (e.product_id == p) && (e.is_active && b)) (filters e.events)
  where
    filters :
        (fs : List String) → (no_filter fs || any (λ f. event_matches f event) fs) ≡ takes event fs
    filters [] = refl
    filters (f ∷ fs) = refl

-- `dispatch` always returns: it queues one pending delivery for each endpoint of the product that is
-- active and has no filters or one that takes the event, in order, and for no other endpoint. Each
-- carries the event, the payload and the identifier of the request; nothing else is written.
pub dispatch-Queues :
    (product_id : ℕ) (event_type payload : String) (request_id : Option String) (w : World)
    → Queues
        (select (wants product_id event_type) w.webhook_endpoints)
        product_id
        event_type
        payload
        request_id
        w
        (dispatch product_id event_type payload request_id w)
unfolding dispatch
dispatch-Queues p event payload rid w =
    subst (λ eps. Queues eps p event payload rid w (dispatch p event payload rid w))
      (select-select (is_matched event) (λ e. e.product_id == p) (wants p event) w.webhook_endpoints
        (wants_lem p event))
      (queue_all-Queues (select (is_matched event) (list_for_product p w)) p event payload rid w)

has_two : String → Bool
has_two String.[] = false
has_two (String.◌∷◌ c String.[]) = false
has_two (String.◌∷◌ c (String.◌∷◌ d s)) = true

rest_of : String → String
rest_of String.[] = ""
rest_of (String.◌∷◌ c s) = s

has_two-append : (prefix : String) → has_two (prefix <> ".*") ≡ true
unfolding has_two
has_two-append String.[] = refl
has_two-append (String.◌∷◌ c String.[]) = rw cons-append refl
has_two-append (String.◌∷◌ c (String.◌∷◌ d s)) = rw cons-append (rw cons-append refl)

longer : (c : Char) (prefix : String) → str_eq (String.◌∷◌ c (prefix <> ".*")) ".*" ≡ false
unfolding has_two rest_of
longer c prefix = elim (Bool-cases (str_eq (String.◌∷◌ c (prefix <> ".*")) ".*")) [
  | inl same ↦ absurd (
      true_ne_false (
        sym (has_two-append prefix)
        ∙ ap (λ s. has_two (rest_of s)) ((eq_iff (String.◌∷◌ c (prefix <> ".*")) ".*").0 same)))
  | inr differ ↦ differ
]

-- The pattern of a family
before_dot_star-family : (prefix : String) → before_dot_star (prefix <> ".*") ≡ some prefix
unfolding before_dot_star
before_dot_star-family String.[] = refl
before_dot_star-family (String.◌∷◌ c prefix) =
    rw cons-append (rw (longer c prefix) (rw (before_dot_star-family prefix) refl))

-- A pattern `prefix.*` takes the event `prefix`, and every event that starts with `prefix.`, of
-- however many segments; of the others it takes only an event that is the pattern itself.
pub event_matches-family :
    (prefix event_type : String)
    → event_matches (prefix <> ".*") event_type ≡ (
        (str_eq (prefix <> ".*") "*" || str_eq (prefix <> ".*") event_type)
        || (str_eq event_type prefix || starts_with event_type (prefix <> ".")))
unfolding event_matches
event_matches-family prefix event_type = rw (before_dot_star-family prefix) refl
