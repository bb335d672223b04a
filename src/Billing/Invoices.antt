-- ===== src/Billing/Invoices.antt =====
-- Invoices are recorded once (app/services/billing.py, `record_invoice`).
-- The outcome of a second report `again` of an invoice reported as `d` before.
use plynth.Models.Subscription.{Invoice}
use plynth.World.{World, next_id}
use plynth.Billing.{InvoiceData, record_invoice, store_invoice, refreshed, is_invoice, new_invoice}
use plynth.Exec.{ok}
use plynth.Prelude.{
  some, inl, inr, refl, ◌≡◌, find?, Option-cases, length, length-save, ◌∷◌, List, ◌∙◌, eq_refl, ap,
  save, find?-save, find?-holds,
}

abbrev pub Once : InvoiceData → InvoiceData → World → Type 0
Once d again w =
    let (r, w') = record_invoice d w in
    let (r', w'') = record_invoice again w' in
    (invoice : Invoice) × (r ≡ ok invoice)
    × (r' ≡ ok (refreshed w.env.now again.status invoice))
    × (length w''.invoices ≡ length w'.invoices)

known_again :
    (again : InvoiceData) (w : World) (old : Invoice)
    → find? (is_invoice again.provider again.provider_invoice_id) w.invoices ≡ some old
    → ((record_invoice again w).0 ≡ ok (refreshed w.env.now again.status old))
      × (length (record_invoice again w).1.invoices ≡ length w.invoices)
unfolding record_invoice store_invoice
known_again again w old f =
    rw f (refl, length-save (λ i. i.id) (refreshed w.env.now again.status old) w.invoices)

-- After a report the invoice is found by its provider and its provider's id.
reported :
    (d : InvoiceData) (w : World)
    → (invoice : Invoice) × ((record_invoice d w).0 ≡ ok invoice)
      × (find? (is_invoice d.provider d.provider_invoice_id) (record_invoice d w).1.invoices
          ≡ some invoice)
      × ((record_invoice d w).1.env ≡ w.env)
unfolding record_invoice store_invoice refreshed
reported d w =
    elim (Option-cases (find? (is_invoice d.provider d.provider_invoice_id) w.invoices)) [
      | inl new ↦ rw new (
        new_invoice (next_id w) w.env.now d,
        refl,
        is_new (new_invoice (next_id w) w.env.now d) w.invoices refl refl,
        refl,
      )
      | inr (old, f) ↦ rw f (refreshed w.env.now d.status old, refl, is_old old f, refl)
    ]
  where
    is_new :
        (i : Invoice) (is : List Invoice)
        → i.provider ≡ d.provider
        → i.provider_invoice_id ≡ d.provider_invoice_id
        → find? (is_invoice d.provider d.provider_invoice_id) (i ∷ is) ≡ some i
    is_new i is e e' = rw (e, e', eq_refl d.provider, eq_refl d.provider_invoice_id) refl

    is_old :
        (old : Invoice)
        → find? (is_invoice d.provider d.provider_invoice_id) w.invoices ≡ some old
        → find?
            (is_invoice d.provider d.provider_invoice_id)
            (save (λ i. i.id) (refreshed w.env.now d.status old) w.invoices)
          ≡ some (refreshed w.env.now d.status old)
    is_old old f =
        find?-save (is_invoice d.provider d.provider_invoice_id) (λ i. i.id) w.invoices old
          (refreshed w.env.now d.status old) f refl
          (find?-holds (is_invoice d.provider d.provider_invoice_id) w.invoices old f)

-- A second report of an invoice, under the same provider and provider's id, changes the row of the
-- first and adds none.
pub record_invoice_twice :
    (d again : InvoiceData) (w : World)
    → again.provider ≡ d.provider
    → again.provider_invoice_id ≡ d.provider_invoice_id
    → Once d again w
record_invoice_twice d again w same_p same_i =
    let (invoice, done, found, env) = reported d w in
    let w' = (record_invoice d w).1 in
    let (done', count) = known_again again w' invoice (rw (same_p, same_i) found) in
    (invoice, done, done' ∙ ap (λ e. ok (refreshed e.now again.status invoice)) env, count)
