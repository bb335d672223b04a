-- ===== src/Tests/Mails.antt =====
-- A run of the payment reminders.
use plynth.Reminders.Once.{dispatch_due_reminders_twice, is_reminder_day-days_to_due}
use plynth.World.{World}
use plynth.Reminders.{
  is_reminder_day, Outbox, dispatch_due_reminders, days_to_due, remind_all, date, remind,
}
use plynth.Samples.{invoice}
use plynth.Samples.People.{office}
use plynth.Prelude.{[], ◌∷◌, refl, ◌≡◌, ◌==◌, eq_ℤ, ◌+◌, ◌||◌}

is_reminder_day-days_to_due_example : is_reminder_day (days_to_due 864000 1123200) ≡ (
    ((date 1123200) == (date 864000 + 3))
    || (((date 864000) == (date 1123200))
        || (((date 864000) == (date 1123200 + 3)) || ((date 864000) == (date 1123200 + 7)))))
is_reminder_day-days_to_due_example = is_reminder_day-days_to_due 864000 1123200

abbrev billed : World
billed = record office { invoices = invoice ∷ [] }

abbrev no_mail : Outbox
no_mail = record { keys = []; mails = []; sent = 0 }

-- One reminder is sent on the due date.
one_sent : (dispatch_due_reminders billed invoice.due_at no_mail).sent ≡ 1
unfolding dispatch_due_reminders remind_all remind is_reminder_day days_to_due eq_ℤ date
one_sent = refl

dispatch_due_reminders_twice_example :
    dispatch_due_reminders billed invoice.due_at
      (dispatch_due_reminders billed invoice.due_at no_mail)
    ≡ dispatch_due_reminders billed invoice.due_at no_mail
dispatch_due_reminders_twice_example = dispatch_due_reminders_twice billed invoice.due_at no_mail
