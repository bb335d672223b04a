-- ===== src/Billing/Dunning.antt =====
-- What failed payments do to a subscription (app/services/billing.py).
-- The row that a call writes, if it writes one.
use plynth.Billing.{
  is_dunned, dun, dun_if_live, handle_payment_failed, fail_invoice, attempted, is_reactivated,
  reactivate, reactivated, find_subscription,
}
use plynth.Subscription.{enter_grace_period, is_ended, in_grace}
use plynth.World.{Env, World}
use plynth.Models.Subscription.{Subscription, SubscriptionStatus, Invoice}
use plynth.Exec.{ok, pure, Result, ◌>>◌}
use plynth.Prelude.{
  some, true, false, inl, inr, refl, Bool, ℕ, List, if◌then◌else◌, save, Option, ◌≡◌, find?, ◌==◌,
  leb, by_id, find_by_id-save_self, ◌∙◌, Bool-cases, ap, sym, ◌≢◌, find_by_id-save_ne, ==_true,
  arith, ◌+◌, none, ◌*◌, subst,
}

abbrev written : Bool → Subscription → List Subscription → List Subscription
written b row subs = if b then save (λ s. s.id) row subs else subs

abbrev pub find_sub : ℕ → World → Option Subscription
find_sub i w = find? (by_id (λ s. s.id) i) w.subscriptions

-- Only the subscription `s` is written, as `row`.
abbrev pub Only : Subscription → Subscription → World → World → Type 0
Only s row w w' = (i : ℕ) → find_sub i w' ≡ (if i == s.id then some row else find_sub i w)

written-Only :
    (b : Bool) (s row : Subscription) (w w' : World)
    → w'.subscriptions ≡ written b row w.subscriptions
    → find_sub s.id w ≡ some s
    → row.id ≡ s.id
    → (b ≡ false → row ≡ s)
    → Only s row w w'
written-Only b s row w w' e f same kept i = elim (Bool-cases (i == s.id)) [
  | inl here ↦ rw (here, e, ==_true i s.id here) (self b kept)
  | inr other ↦ rw (other, e) (others b (λ eq. ground arith))
]
  where
    self :
        (b : Bool)
        → (b ≡ false → row ≡ s)
        → find? (by_id (λ r. r.id) s.id) (written b row w.subscriptions) ≡ some row
    self true kept = find_by_id-save_self (λ r. r.id) row s s.id w.subscriptions f same
    self false kept = f ∙ ap some (sym (kept refl))

    others :
        (b : Bool)
        → row.id ≢ i
        → find? (by_id (λ r. r.id) i) (written b row w.subscriptions) ≡ find_sub i w
    others true ne = find_by_id-save_ne (λ r. r.id) row i w.subscriptions ne
    others false ne = refl

-- What a failed payment makes of a subscription, by its status and whether this is the third
-- failed attempt or a later one.
abbrev pub failed_from : Env → Bool → SubscriptionStatus → Subscription → Subscription
failed_from env third SubscriptionStatus.grace s = s
failed_from env third SubscriptionStatus.suspended s = s
failed_from env true SubscriptionStatus.cancelled s = s
failed_from env true _ s = record s {
  status = SubscriptionStatus.grace;
  grace_ends_at = some (env.now + env.grace_period_days * 86400);
}
failed_from env false _ s = record s { status = SubscriptionStatus.past_due }

-- The subscription after a failed payment, by the number of failed attempts.
abbrev pub failed : Env → ℕ → Subscription → Subscription
failed env attempts s = failed_from env (leb 3 attempts) s.status s

-- The same by the tests of the code
branches : Env → Bool → SubscriptionStatus → Subscription → Subscription
branches env third st s =
    if is_dunned st
    then (if third
        then (if is_ended st then s else in_grace env s)
        else record s { status = SubscriptionStatus.past_due })
    else s

branches-failed :
    (env : Env) (third : Bool) (st : SubscriptionStatus) (s : Subscription)
    → branches env third st s ≡ failed_from env third st s
unfolding branches
branches-failed env true SubscriptionStatus.trial s = refl
branches-failed env false SubscriptionStatus.trial s = refl
branches-failed env true SubscriptionStatus.active s = refl
branches-failed env false SubscriptionStatus.active s = refl
branches-failed env true SubscriptionStatus.past_due s = refl
branches-failed env false SubscriptionStatus.past_due s = refl
branches-failed env third SubscriptionStatus.grace s = refl
branches-failed env third SubscriptionStatus.suspended s = refl
branches-failed env true SubscriptionStatus.cancelled s = refl
branches-failed env false SubscriptionStatus.cancelled s = refl
branches-failed env true SubscriptionStatus.expired s = refl
branches-failed env false SubscriptionStatus.expired s = refl

-- What a call does with a failed payment's subscription: it returns, and only the row is written.
abbrev Writes : Subscription → Subscription → World → Result (Unit {0}) × World → Type 0
Writes s row w (r, w') =
    (r ≡ ok tt)
    × ((b : Bool) × (w'.subscriptions ≡ written b row w.subscriptions) × (b ≡ false → row ≡ s))

enter_grace_period_lem :
    (w : World) (s : Subscription)
    → find_sub s.id w ≡ some s
    → Writes s
        (if is_ended s.status then s else in_grace w.env s)
        w
        ((enter_grace_period s.id >> pure tt) w)
unfolding enter_grace_period
enter_grace_period_lem w s f = elim (Bool-cases (is_ended s.status)) [
  | inl e ↦ rw (f, e) (refl, (false, refl, λ _. refl))
  | inr e ↦ rw (f, e) (refl, (true, refl, λ e. cc))
]

abbrev dunned : Env → ℕ → Subscription → Subscription
dunned env attempts s =
    if leb 3 attempts
    then (if is_ended s.status then s else in_grace env s)
    else record s { status = SubscriptionStatus.past_due }

dun_lem :
    (attempts : ℕ) (w : World) (s : Subscription)
    → find_sub s.id w ≡ some s
    → Writes s (dunned w.env attempts s) w (dun attempts s w)
unfolding dun
dun_lem attempts w s f = elim (Bool-cases (leb 3 attempts)) [
  | inr few ↦ rw few (refl, (true, refl, λ e. cc))
  | inl many ↦ rw many (enter_grace_period_lem w s f)
]

dun_if_live_lem :
    (attempts : ℕ) (w : World) (s : Subscription)
    → find_sub s.id w ≡ some s
    → Writes s (failed w.env attempts s) w (dun_if_live attempts (some s) w)
unfolding dun_if_live branches
dun_if_live_lem attempts w s f =
    subst (λ row. Writes s row w (dun_if_live attempts (some s) w))
      (branches-failed w.env (leb 3 attempts) s.status s)
      (elim (Bool-cases (is_dunned s.status)) [
        | inl d ↦ rw d (dun_lem attempts w s f)
        | inr quiet ↦ rw quiet (refl, (false, refl, λ _. refl))
      ])

failed_from_id :
    (env : Env) (third : Bool) (st : SubscriptionStatus) (s : Subscription)
    → (failed_from env third st s).id ≡ s.id
unfolding branches
failed_from_id env third st s =
    subst (λ r. r.id ≡ s.id) (branches-failed env third st s) (ground arith)

pub failed_id : (env : Env) (attempts : ℕ) (s : Subscription) → (failed env attempts s).id ≡ s.id
failed_id env attempts s = failed_from_id env (leb 3 attempts) s.status s

pub Writes-Only :
    (s row : Subscription) (w : World) (out : Result (Unit {0}) × World)
    → Writes s row w out
    → row.id ≡ s.id
    → find_sub s.id w ≡ some s
    → (out.0 ≡ ok tt) × Only s row w out.1
Writes-Only s row w out (done, (b, e, kept)) same f =
    (done, written-Only b s row w out.1 e f same kept)

-- A failed payment of an invoice in the table, with a subscription in the table, returns and writes
-- no subscription but this one: with the third failed attempt or a later one it enters a grace
-- period that ends after the configured days of 86,400 seconds, unless it is cancelled, when it
-- stays as it is; before the third it is past due; and one in a grace period or suspended stays as
-- it is.
pub handle_payment_failed-Only :
    (w : World) (invoice_id : ℕ) (inv : Invoice) (s : Subscription)
    → find? (by_id (λ i. i.id) invoice_id) w.invoices ≡ some inv
    → inv.subscription_id ≡ some s.id
    → find_sub s.id w ≡ some s
    → ((handle_payment_failed invoice_id w).0 ≡ ok tt)
      × Only s (failed w.env (inv.attempt_count + 1) s) w (handle_payment_failed invoice_id w).1
unfolding handle_payment_failed fail_invoice
handle_payment_failed-Only w invoice_id inv s found owner f =
    let w' = record w { invoices = save (λ i. i.id) (attempted w.env.now inv) w.invoices } in
    rw (found, ap (λ o. find_subscription o w') owner ∙ f)
      (Writes-Only s (failed w.env (inv.attempt_count + 1) s) w'
        (dun_if_live (inv.attempt_count + 1) (some s) w')
        (dun_if_live_lem (inv.attempt_count + 1) w' s f) (failed_id w.env (inv.attempt_count + 1) s)
        f)

-- What a payment makes of a subscription, by its status.
abbrev pub recovered_from : SubscriptionStatus → Subscription → Subscription
recovered_from SubscriptionStatus.trial s = s
recovered_from SubscriptionStatus.active s = s
recovered_from SubscriptionStatus.cancelled s = s
recovered_from SubscriptionStatus.expired s = s
recovered_from _ s = record s { status = SubscriptionStatus.active; grace_ends_at = none }

abbrev pub recovered : Subscription → Subscription
recovered s = recovered_from s.status s

reactivates :
    (st : SubscriptionStatus) (s : Subscription)
    → (if is_reactivated st then reactivated s else s) ≡ recovered_from st s
reactivates SubscriptionStatus.trial s = refl
reactivates SubscriptionStatus.active s = refl
reactivates SubscriptionStatus.past_due s = refl
reactivates SubscriptionStatus.grace s = refl
reactivates SubscriptionStatus.suspended s = refl
reactivates SubscriptionStatus.cancelled s = refl
reactivates SubscriptionStatus.expired s = refl

pub reactivate_lem :
    (w : World) (s : Subscription) → Writes s (recovered s) w (reactivate (some s) w)
unfolding reactivate
reactivate_lem w s =
    subst (λ row. Writes s row w (reactivate (some s) w)) (reactivates s.status s)
      (elim (Bool-cases (is_reactivated s.status)) [
        | inl r ↦ rw r (refl, (true, refl, λ e. cc))
        | inr r ↦ rw r (refl, (false, refl, λ _. refl))
      ])

pub recovered_id : (s : Subscription) → (recovered s).id ≡ s.id
recovered_id s = subst (λ r. r.id ≡ s.id) (reactivates s.status s) (ground arith)
