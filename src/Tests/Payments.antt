-- ===== src/Tests/Payments.antt =====
-- Runs of dunning, of the sweep and of the invoices.
use plynth.Billing.Recovery.{
  handle_payment_succeeded-Only, handle_payment_failed-ended, pay_after_failure,
}
use plynth.Billing.Invoices.{Once, record_invoice_twice}
use plynth.Billing.Dunning.{Only, find_sub, failed, recovered, handle_payment_failed-Only}
use plynth.Subscription.Grace.{
  suspend_if_grace_expired-none_lapsed, suspend_if_grace_expired-find, swept_from, is_over,
}
use plynth.Samples.{sub_in, subscribed, bill, invoice}
use plynth.Billing.{handle_payment_failed, handle_payment_succeeded, reactivated}
use plynth.Subscription.{suspend_if_grace_expired}
use plynth.World.{World}
use plynth.Models.Subscription.{Subscription, has_access, SubscriptionStatus, InvoiceStatus}
use plynth.Exec.{ok, ◌>>◌}
use plynth.Prelude.{
  [], ◌∷◌, some, true, false, inl, refl, find?, by_id, ◌≡◌, length, select, All, arith,
}
use mathlib.Core.Option

abbrev active_sub : Subscription
active_sub = sub_in SubscriptionStatus.active

abbrev active_world : World
active_world = subscribed SubscriptionStatus.active

abbrev ended_sub : Subscription
ended_sub = sub_in SubscriptionStatus.cancelled

suspend_if_grace_expired-none_lapsed_example :
    ((suspend_if_grace_expired (subscribed SubscriptionStatus.grace)).0
      ≡ ok (length (select (is_over 1000) (sub_in SubscriptionStatus.grace ∷ []))))
    × All
        (λ s. is_over 1000 s ≡ false)
        (suspend_if_grace_expired (subscribed SubscriptionStatus.grace)).1.subscriptions
suspend_if_grace_expired-none_lapsed_example =
    suspend_if_grace_expired-none_lapsed (subscribed SubscriptionStatus.grace)

suspend_if_grace_expired-find_example :
    find?
      (by_id (λ r. r.id) 2)
      (suspend_if_grace_expired (subscribed SubscriptionStatus.grace)).1.subscriptions
    ≡ some (
        swept_from 1000 SubscriptionStatus.grace
          (sub_in SubscriptionStatus.grace).grace_ends_at
          (sub_in SubscriptionStatus.grace))
suspend_if_grace_expired-find_example =
    suspend_if_grace_expired-find (subscribed SubscriptionStatus.grace)
      (sub_in SubscriptionStatus.grace) 2 (tt, tt) refl

handle_payment_failed-Only_example :
    ((handle_payment_failed 3 active_world).0 ≡ ok tt)
    × Only active_sub
        (failed active_world.env 1 active_sub)
        active_world
        (handle_payment_failed 3 active_world).1
handle_payment_failed-Only_example =
    handle_payment_failed-Only active_world 3 invoice active_sub refl refl refl

handle_payment_succeeded-Only_example :
    ((handle_payment_succeeded 3 active_world).0 ≡ ok tt)
    × Only active_sub
        (recovered active_sub)
        active_world
        (handle_payment_succeeded 3 active_world).1
handle_payment_succeeded-Only_example =
    handle_payment_succeeded-Only active_world 3 invoice active_sub refl refl refl

handle_payment_failed-ended_example :
    (has_access ended_sub ≡ false)
    × (Option.map has_access
          (find_sub 2 (handle_payment_failed 3 (subscribed SubscriptionStatus.cancelled)).1)
        ≡ some true)
handle_payment_failed-ended_example =
    handle_payment_failed-ended (subscribed SubscriptionStatus.cancelled) 3 invoice ended_sub refl
      refl refl (inl refl) (omega arith)

pay_after_failure_example :
    Only active_sub
      (reactivated active_sub)
      active_world
      ((handle_payment_failed 3 >> handle_payment_succeeded 3) active_world).1
pay_after_failure_example = pay_after_failure active_world 3 invoice active_sub refl refl refl refl

record_invoice_twice_example : Once bill (record bill { status = InvoiceStatus.paid }) active_world
record_invoice_twice_example =
    record_invoice_twice bill (record bill { status = InvoiceStatus.paid }) active_world refl refl
