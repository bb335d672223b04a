-- ===== src/Reminders.antt =====
-- app/tasks/payment_reminders.py. Redis' keys and the mails that are sent are a state of their own;
-- a key stays for thirty days, longer than the day on which it counts.
pub mod Once
use plynth.Models.Tenant.{Tenant, User}
use plynth.World.{World}
use plynth.Models.Subscription.{Invoice}
use Prim.Native.Nat.{◌/◌}
use plynth.Models.Subscription.{InvoiceStatus}
use plynth.Prelude.{
  [], ◌∷◌, some, none, true, false, pos, negsuc, List, ℕ, ℤ, String, Option, sub_ℕ, Bool, find?,
  if◌then◌else◌, select, any, ◌==◌, not, leb_ℤ, eq_ℤ, ◌&&◌, ◌+◌, ◌||◌, ◌+ℤ◌,
}

abbrev pub reminder_offsets_days : List ℤ
reminder_offsets_days = negsuc 2 ∷ pos 0 ∷ pos 3 ∷ pos 7 ∷ []

-- `date()`, as a number of days
unfoldable pub date : ℕ → ℕ
date time = time / 86400

-- `(due_at.date() - now.date()).days`
unfoldable pub days_to_due : ℕ → ℕ → ℤ
days_to_due due_at now = sub_ℕ (date due_at) (date now)

unfoldable pub is_reminder_day : ℤ → Bool
is_reminder_day days = any (λ d. eq_ℤ d days) reminder_offsets_days

pub record Mail : Type 0 where
  pub to : String
  pub invoice_id : ℕ
  pub days : ℤ

pub record Outbox : Type 0 where
  pub keys : List (ℕ × ℤ)
  pub mails : List Mail
  pub sent : ℕ

abbrev pub is_key : ℕ → ℤ → ℕ × ℤ → Bool
is_key invoice_id offset (i, d) = (i == invoice_id) && eq_ℤ d offset

-- SETNX fails on a key that is there.
abbrev pub already_sent : ℕ → ℤ → List (ℕ × ℤ) → Bool
already_sent invoice_id offset keys = any (is_key invoice_id offset) keys

abbrev pub is_open : Invoice → Bool
is_open inv = elim inv.status [
  | InvoiceStatus.open_invoice ↦ true
  | InvoiceStatus.draft ↦ true
  | _ ↦ false
]

abbrev pub mail_to : Option Tenant → Option User → Invoice → ℤ → Outbox → Outbox
mail_to none owner inv days box = box
mail_to (some tenant) none inv days box = box
mail_to (some tenant) (some owner) inv days box = record box {
  mails = record { to = owner.email; invoice_id = inv.id; days = days } ∷ box.mails;
  sent = box.sent + 1;
}

-- The key is set before the owner is looked up.
abbrev pub send_new : World → Invoice → ℤ → Outbox → Outbox
send_new w inv days box =
    mail_to (find? (λ t. t.id == inv.tenant_id) w.tenants)
      (find? (λ u. (u.tenant_id == inv.tenant_id) && u.is_active) w.users) inv days
      (record box { keys = (inv.id, days) ∷ box.keys })

-- The body of the loop
unfoldable pub remind : World → ℕ → Invoice → Outbox → Outbox
remind w now inv box =
    let days = days_to_due inv.due_at now in
    if not (is_reminder_day days) || already_sent inv.id days box.keys
    then box
    else send_new w inv days box

unfoldable pub remind_all : World → ℕ → List Invoice → Outbox → Outbox
remind_all w now [] box = box
remind_all w now (inv ∷ invs) box = remind_all w now invs (remind w now inv box)

unfoldable pub dispatch_due_reminders : World → ℕ → Outbox → Outbox
dispatch_due_reminders w now box = remind_all w now (select is_open w.invoices) box

-- `next_reminder_at`: days, of a list of offsets
abbrev pub next_day : ℕ → ℕ → List ℤ → Option ℤ
next_day due today [] = none
next_day due today (d ∷ ds) =
    let rest = next_day due today ds in
    if leb_ℤ (pos today) (pos due +ℤ d) then some (pos due +ℤ d) else rest

unfoldable pub next_reminder_at : ℕ → ℕ → Option ℤ
next_reminder_at due_at today = next_day (date due_at) (date today) reminder_offsets_days
