-- ===== src/Reminders/Once.antt =====
-- app/tasks/payment_reminders.py: on which days reminders go out, and that they go out once.
use plynth.Models.Subscription.{Invoice}
use plynth.World.{World}
use plynth.Models.Tenant.{Tenant, User}
use plynth.Reminders.{
  is_reminder_day, remind, days_to_due, Outbox, mail_to, already_sent, date, send_new, remind_all,
  dispatch_due_reminders, is_open, reminder_offsets_days, is_key,
}
use plynth.Prelude.{
  [], ◌∷◌, some, none, true, inl, inr, refl, ℕ, eq_ℤ, Option, not, ℤ, Bool-cases, ◌||◌, ◌≡◌, arith,
  Bool, find?, ◌==◌, List, select, ◌+◌, ◌&&◌, All, any, ap, sub_ℕ, ◌∙◌, leb,
}

-- A reminder is due exactly on the third day after the due date, on the due date itself, and on the
-- third and the seventh day before it.
pub is_reminder_day-days_to_due :
    (due_at now : ℕ)
    → is_reminder_day (days_to_due due_at now) ≡ (
        ((date now) == (date due_at + 3))
        || (((date due_at) == (date now))
            || (((date due_at) == (date now + 3)) || ((date due_at) == (date now + 7)))))
unfolding is_reminder_day days_to_due eq_ℤ
is_reminder_day-days_to_due due_at now = days (date due_at) (date now)
  where
    days :
        (a b : ℕ)
        → any (λ d. eq_ℤ d (sub_ℕ a b)) reminder_offsets_days
          ≡ ((b == (a + 3)) || ((a == b) || ((a == (b + 3)) || (a == (b + 7)))))
    days a b = elim (Bool-cases (leb b a)) [
      | inl le ↦ rw le (ground arith)
      | inr gt ↦ rw gt (ground arith)
    ]

-- The key of an invoice that is due for a reminder is set.
abbrev Marked : ℕ → Outbox → Invoice → Type 0
Marked now box inv =
    (not (is_reminder_day (days_to_due inv.due_at now))
      || already_sent inv.id (days_to_due inv.due_at now) box.keys)
    ≡ true

eq_ℤ_self : (a : ℤ) → eq_ℤ a a ≡ true
unfolding eq_ℤ
eq_ℤ_self a = ground arith

-- Keys are only added.
mail_to-keys :
    (t : Option Tenant) (u : Option User) (inv : Invoice) (days : ℤ) (box : Outbox)
    → (mail_to t u inv days box).keys ≡ box.keys
mail_to-keys none u inv days box = refl
mail_to-keys (some t) none inv days box = refl
mail_to-keys (some t) (some u) inv days box = refl

or_grows : (a b c : Bool) → (a || b) ≡ true → (a || (c || b)) ≡ true
or_grows a b c h = ground arith

or_new : (a b c : Bool) → b ≡ true → (a || (b || c)) ≡ true
or_new a b c h = ground arith

send_new-Marked :
    (w : World) (now : ℕ) (other inv : Invoice) (days : ℤ) (box : Outbox)
    → Marked now box other
    → Marked now (send_new w inv days box) other
send_new-Marked w now other inv days box h =
    rw
      (mail_to-keys (find? (λ t. t.id == inv.tenant_id) w.tenants)
        (find? (λ u. (u.tenant_id == inv.tenant_id) && u.is_active) w.users) inv days
        (record box { keys = (inv.id, days) ∷ box.keys }))
      (or_grows (not (is_reminder_day (days_to_due other.due_at now)))
        (already_sent other.id (days_to_due other.due_at now) box.keys)
        (is_key other.id (days_to_due other.due_at now) (inv.id, days)) h)

remind-keeps :
    (w : World) (now : ℕ) (other inv : Invoice) (box : Outbox)
    → Marked now box other
    → Marked now (remind w now inv box) other
unfolding remind
remind-keeps w now other inv box h =
    let days = days_to_due inv.due_at now in
    elim (Bool-cases (not (is_reminder_day days) || already_sent inv.id days box.keys)) [
      | inl done ↦ rw (done, remind) h
      | inr fresh ↦ rw (fresh, remind) (send_new-Marked w now other inv days box h)
    ]

remind-Marked :
    (w : World) (now : ℕ) (inv : Invoice) (box : Outbox) → Marked now (remind w now inv box) inv
unfolding remind
remind-Marked w now inv box =
    let days = days_to_due inv.due_at now in
    elim (Bool-cases (not (is_reminder_day days) || already_sent inv.id days box.keys)) [
      | inl done ↦ rw (done, remind) done
      | inr fresh ↦
          rw (fresh, remind)
            (rw
              (mail_to-keys (find? (λ t. t.id == inv.tenant_id) w.tenants)
                (find? (λ u. (u.tenant_id == inv.tenant_id) && u.is_active) w.users) inv days
                (record box { keys = (inv.id, days) ∷ box.keys }))
              (or_new (not (is_reminder_day days)) (is_key inv.id days (inv.id, days))
                (already_sent inv.id days box.keys) (rw (eq_ℤ_self days) (ground arith))))
    ]

remind-same :
    (w : World) (now : ℕ) (inv : Invoice) (box : Outbox)
    → Marked now box inv
    → remind w now inv box ≡ box
unfolding remind
remind-same w now inv box h = rw h refl

remind_all-keeps :
    (w : World) (now : ℕ) (other : Invoice) (invs : List Invoice) (box : Outbox)
    → Marked now box other
    → Marked now (remind_all w now invs box) other
unfolding remind_all
remind_all-keeps w now other [] box h = h
remind_all-keeps w now other (inv ∷ invs) box h =
    remind_all-keeps w now other invs (remind w now inv box) (remind-keeps w now other inv box h)

remind_all-Marked :
    (w : World) (now : ℕ) (invs : List Invoice) (box : Outbox)
    → All (Marked now (remind_all w now invs box)) invs
unfolding remind_all
remind_all-Marked w now [] box = tt
remind_all-Marked w now (inv ∷ invs) box = (
  remind_all-keeps w now inv invs (remind w now inv box) (remind-Marked w now inv box),
  remind_all-Marked w now invs (remind w now inv box),
)

remind_all-same :
    (w : World) (now : ℕ) (invs : List Invoice) (box : Outbox)
    → All (Marked now box) invs
    → remind_all w now invs box ≡ box
unfolding remind_all
remind_all-same w now [] box h = refl
remind_all-same w now (inv ∷ invs) box h =
    ap (remind_all w now invs) (remind-same w now inv box h.0) ∙ remind_all-same w now invs box h.1

-- A second run of the task at the same time, on the same rows, sends nothing and changes nothing.
pub dispatch_due_reminders_twice :
    (w : World) (now : ℕ) (box : Outbox)
    → dispatch_due_reminders w now (dispatch_due_reminders w now box)
      ≡ dispatch_due_reminders w now box
unfolding dispatch_due_reminders
dispatch_due_reminders_twice w now box =
    remind_all-same w now (select is_open w.invoices)
      (remind_all w now (select is_open w.invoices) box)
      (remind_all-Marked w now (select is_open w.invoices) box)
