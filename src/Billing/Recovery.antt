-- ===== src/Billing/Recovery.antt =====
-- What payments do, and what failed ones mean for access (app/services/billing.py).
use plynth.Billing.Dunning.{
  Only, find_sub, failed, recovered, handle_payment_failed-Only, failed_id, Writes-Only,
  reactivate_lem, recovered_id,
}
use plynth.Subscription.{enter_grace_period, is_ended}
use plynth.World.{Env, World}
use plynth.Models.Subscription.{
  Subscription, SubscriptionStatus, has_access, Invoice, status_has_access, InvoiceStatus,
}
use plynth.Billing.{
  handle_payment_succeeded, dun_if_live, handle_payment_failed, pay_invoice, dun, fail_invoice,
  is_dunned, attempted, is_reactivated, find_subscription, reactivated, reactivate,
}
use plynth.Exec.{ok, ◌>>◌, pure, resume}
use plynth.Prelude.{
  some, true, false, inl, inr, refl, ℕ, ◌==◌, ◌≡◌, ◌<◌, find?, arith, Bool, ◌⊎◌, leb, Bool-cases,
  by_id, ◌∙◌, ◌+◌, Option-cases, ap, ◌||◌, if◌then◌else◌, save, find_by_id-save_self, sym, subst,
}
use mathlib.Core.Option

-- A payment of an invoice in the table, with a subscription in the table, returns and writes no
-- subscription but this one: one that is past due, in a grace period or suspended is active and
-- has no end of grace, any other stays as it is.
pub handle_payment_succeeded-Only :
    (w : World) (invoice_id : ℕ) (inv : Invoice) (s : Subscription)
    → find? (by_id (λ i. i.id) invoice_id) w.invoices ≡ some inv
    → inv.subscription_id ≡ some s.id
    → find_sub s.id w ≡ some s
    → ((handle_payment_succeeded invoice_id w).0 ≡ ok tt)
      × Only s (recovered s) w (handle_payment_succeeded invoice_id w).1
unfolding handle_payment_succeeded pay_invoice
handle_payment_succeeded-Only w invoice_id inv s found owner f =
    let paid = record inv { status = InvoiceStatus.paid; paid_at = some w.env.now } in
    let w' = record w { invoices = save (λ i. i.id) paid w.invoices } in
    rw (found, ap (λ o. find_subscription o w') owner ∙ f)
      (Writes-Only s (recovered s) w' (reactivate (some s) w') (reactivate_lem w' s)
        (recovered_id s) f)

eq_self : (n : ℕ) → (n == n) ≡ true
eq_self n = ground arith

find_sub_self :
    (s row : Subscription) (w w' : World) → Only s row w w' → find_sub s.id w' ≡ some row
find_sub_self s row w w' only =
    only s.id ∙ ap (λ b. if b then some row else find_sub s.id w) (eq_self s.id)

status_access :
    (env : Env) (n : ℕ) (s : Subscription) (st : SubscriptionStatus) (b : Bool)
    → s.status ≡ st
    → leb 3 n ≡ b
    → status_has_access st ≡ true
    → has_access (failed env n s) ≡ true
status_access env n s SubscriptionStatus.trial true e m h = rw (e, m) refl
status_access env n s SubscriptionStatus.trial false e m h = rw (e, m) refl
status_access env n s SubscriptionStatus.active true e m h = rw (e, m) refl
status_access env n s SubscriptionStatus.active false e m h = rw (e, m) refl
status_access env n s SubscriptionStatus.past_due true e m h = rw (e, m) refl
status_access env n s SubscriptionStatus.past_due false e m h = rw (e, m) refl
status_access env n s SubscriptionStatus.grace b e m h = rw e refl
status_access env n s SubscriptionStatus.suspended b e m h = cc
status_access env n s SubscriptionStatus.cancelled b e m h = cc
status_access env n s SubscriptionStatus.expired b e m h = cc

failed-has_access :
    (env : Env) (n : ℕ) (s : Subscription)
    → has_access s ≡ true
    → has_access (failed env n s) ≡ true
failed-has_access env n s h = status_access env n s s.status (leb 3 n) refl refl h

failed-ended :
    (env : Env) (n : ℕ) (s : Subscription)
    → (s.status ≡ SubscriptionStatus.cancelled) ⊎ (s.status ≡ SubscriptionStatus.expired)
    → leb 3 n ≡ false
    → (has_access s ≡ false) × (Option.map has_access (some (failed env n s)) ≡ some true)
failed-ended env n s (inl e) few = rw (e, few) (refl, refl)
failed-ended env n s (inr e) few = rw (e, few) (refl, refl)

leb_3_suc : (n : ℕ) → n < 2 → leb 3 (n + 1) ≡ false
leb_3_suc n h = ground arith

-- A failed payment of an invoice in the table does not take away the access of its subscription in
-- the table, if it had access.
pub handle_payment_failed-has_access :
    (w : World) (invoice_id : ℕ) (inv : Invoice) (s : Subscription)
    → find? (by_id (λ i. i.id) invoice_id) w.invoices ≡ some inv
    → inv.subscription_id ≡ some s.id
    → find_sub s.id w ≡ some s
    → has_access s ≡ true
    → Option.map has_access (find_sub s.id (handle_payment_failed invoice_id w).1) ≡ some true
handle_payment_failed-has_access w invoice_id inv s found owner f access =
    rw
      (find_sub_self s (failed w.env (inv.attempt_count + 1) s) w
        (handle_payment_failed invoice_id w).1
        (handle_payment_failed-Only w invoice_id inv s found owner f).1)
      (ap some (failed-has_access w.env (inv.attempt_count + 1) s access))

-- A subscription in the table that was cancelled or has expired has no access; an invoice of it in
-- the table that fails for the first or second time makes it past due, and it has access again.
pub handle_payment_failed-ended :
    (w : World) (invoice_id : ℕ) (inv : Invoice) (s : Subscription)
    → find? (by_id (λ i. i.id) invoice_id) w.invoices ≡ some inv
    → inv.subscription_id ≡ some s.id
    → find_sub s.id w ≡ some s
    → (s.status ≡ SubscriptionStatus.cancelled) ⊎ (s.status ≡ SubscriptionStatus.expired)
    → inv.attempt_count < 2
    → (has_access s ≡ false)
      × (Option.map has_access (find_sub s.id (handle_payment_failed invoice_id w).1) ≡ some true)
handle_payment_failed-ended w invoice_id inv s found owner f ended few =
    rw
      (find_sub_self s (failed w.env (inv.attempt_count + 1) s) w
        (handle_payment_failed invoice_id w).1
        (handle_payment_failed-Only w invoice_id inv s found owner f).1)
      (failed-ended w.env (inv.attempt_count + 1) s ended (leb_3_suc inv.attempt_count few))

recovers :
    (env : Env) (n : ℕ) (s : Subscription) (st : SubscriptionStatus) (b : Bool)
    → s.status ≡ st
    → leb 3 n ≡ b
    → (status_has_access st || is_reactivated st) ≡ true
    → recovered (failed env n s) ≡ reactivated s
recovers env n s SubscriptionStatus.trial true e m h = rw (e, m) refl
recovers env n s SubscriptionStatus.trial false e m h = rw (e, m) refl
recovers env n s SubscriptionStatus.active true e m h = rw (e, m) refl
recovers env n s SubscriptionStatus.active false e m h = rw (e, m) refl
recovers env n s SubscriptionStatus.past_due true e m h = rw (e, m) refl
recovers env n s SubscriptionStatus.past_due false e m h = rw (e, m) refl
recovers env n s SubscriptionStatus.grace b e m h = rw e refl
recovers env n s SubscriptionStatus.suspended b e m h = rw e refl
recovers env n s SubscriptionStatus.cancelled b e m h = cc
recovers env n s SubscriptionStatus.expired b e m h = cc

enter_grace_period-invoices :
    (w : World) (i : ℕ) → ((enter_grace_period i >> pure tt) w).1.invoices ≡ w.invoices
unfolding enter_grace_period
enter_grace_period-invoices w i = elim (Option-cases (find? (λ s. s.id == i) w.subscriptions)) [
  | inl none_found ↦ rw none_found refl
  | inr (s, f) ↦ elim (Bool-cases (is_ended s.status)) [
    | inl e ↦ rw (f, e) refl
    | inr e ↦ rw (f, e) refl
  ]
]

dun_if_live-invoices :
    (n : ℕ) (s : Subscription) (w : World) → (dun_if_live n (some s) w).1.invoices ≡ w.invoices
unfolding dun_if_live dun
dun_if_live-invoices n s w = elim (Bool-cases (is_dunned s.status)) [
  | inr quiet ↦ rw quiet refl
  | inl d ↦ elim (Bool-cases (leb 3 n)) [
    | inr few ↦ rw (d, few) refl
    | inl many ↦ rw (d, many) (enter_grace_period-invoices w s.id)
  ]
]

failed-invoice :
    (w : World) (invoice_id : ℕ) (inv : Invoice) (s : Subscription)
    → find? (by_id (λ i. i.id) invoice_id) w.invoices ≡ some inv
    → inv.subscription_id ≡ some s.id
    → find_sub s.id w ≡ some s
    → find? (by_id (λ i. i.id) invoice_id) (handle_payment_failed invoice_id w).1.invoices
      ≡ some (attempted w.env.now inv)
unfolding handle_payment_failed fail_invoice
failed-invoice w invoice_id inv s found owner f =
    let w' = record w { invoices = save (λ i. i.id) (attempted w.env.now inv) w.invoices } in
    rw
      (
        found,
        ap (λ o. find_subscription o w') owner ∙ f,
        dun_if_live-invoices (inv.attempt_count + 1) s w',
      )
      (find_by_id-save_self (λ i. i.id) (attempted w.env.now inv) inv invoice_id w.invoices found
        refl)

Only-trans :
    (s s' row : Subscription) (w w' w'' : World)
    → s'.id ≡ s.id
    → Only s s' w w'
    → Only s' row w' w''
    → Only s row w w''
Only-trans s s' row w w' w'' same first second i = elim (Bool-cases (i == s.id)) [
  | inl here ↦ second i ∙ rw (same, here) refl
  | inr other ↦ second i ∙ rw (same, other) (first i ∙ rw other refl)
]

-- A payment of an invoice in the table after a failed one: its subscription, if it is in the table
-- and had access or was suspended, is active with no end of grace, and all else of it, and every
-- other subscription, is as before the failure.
pub pay_after_failure :
    (w : World) (invoice_id : ℕ) (inv : Invoice) (s : Subscription)
    → find? (by_id (λ i. i.id) invoice_id) w.invoices ≡ some inv
    → inv.subscription_id ≡ some s.id
    → find_sub s.id w ≡ some s
    → (has_access s || is_reactivated s.status) ≡ true
    → Only s
        (reactivated s)
        w
        ((handle_payment_failed invoice_id >> handle_payment_succeeded invoice_id) w).1
pay_after_failure w invoice_id inv s found owner f live =
    let w' = (handle_payment_failed invoice_id w).1 in
    let (done, first) = handle_payment_failed-Only w invoice_id inv s found owner f in
    let s' = failed w.env (inv.attempt_count + 1) s in
    let same = failed_id w.env (inv.attempt_count + 1) s in
    let second =
      handle_payment_succeeded-Only w' invoice_id (attempted w.env.now inv) s'
        (failed-invoice w invoice_id inv s found owner f) (owner ∙ ap some (sym same))
        (ap (λ v. find_sub v w') same ∙ find_sub_self s s' w w' first) in
    rw (done, resume)
      (Only-trans s s' (reactivated s) w w' (handle_payment_succeeded invoice_id w').1 same first (
        subst (λ r. Only s' r w' (handle_payment_succeeded invoice_id w').1)
          (recovers w.env (inv.attempt_count + 1) s s.status (leb 3 (inv.attempt_count + 1)) refl
            refl live)
          second.1))
