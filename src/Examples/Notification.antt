-- ===== src/Examples/Notification.antt =====
-- A run of the notification worker (server/appointment-notifications.ts) up to its message.
use barber_bookings.Common.{false, ◌≤◌, true, List, [], ◌∷◌, none, some, ◌≡◌, refl, inl}
use barber_bookings.Schema.{Appointment}
use barber_bookings.Schema.Enums.{status_eq}
use barber_bookings.Schema.Events.{Place}
use barber_bookings.Storage.State.{new_event}
use barber_bookings.Storage.Create.{new_appointment}
use barber_bookings.Delivery.{
  claim_appointment_notification_event, claim_appointment_notification_whatsapp_attempt,
  update_appointment_notification_event,
}
use barber_bookings.Delivery.Calls.{perform}
use barber_bookings.Delivery.Columns.{Rows, accepted, apply_patch, change_first}
use barber_bookings.Notification.Effects.{LookedUp, Program, WhatsappResult}
use barber_bookings.Notification.{NotificationDependencies, is_current_event}
use barber_bookings.Notification.Messages.{single_message}
use barber_bookings.Notification.Once.{whatsapp_sent-bound}
use barber_bookings.Notification.System.{
  Reach, Step, World, here, moves, of_event, sent_count, started, starts,
}
use barber_bookings.Notification.Worker.{
  process_appointment_notification, process_claimed_appointment_notification, process_claimed_core,
  single_claimed, single_current, single_due, single_found, single_send, single_with,
}
use barber_bookings.Notification.{deferred, details_of, no_channel, went}
use barber_bookings.Notification.Effects.{pure}
use barber_bookings.Notification.Recurring.{recurring_current, recurring_reason}
use barber_bookings.Schema.Events.{RecurringNotificationSnapshot}
use barber_bookings.Examples.Delivery.{row}
use barber_bookings.Examples.Storage.{row as booking}
use barber_bookings.Examples.TimeZone.{lisbon}

abbrev shop : Place
shop = record { id = 1; name = "Barbearia"; address = ""; timezone = "Europe/Lisbon" }

abbrev deps : NotificationDependencies
deps = record {
  processing_enabled = true;
  whatsapp_enabled = true;
  recurring_whatsapp_enabled = true;
  reminders_enabled = true;
  defer_whatsapp_when_disabled = true;
  template_name = λ type. some "appointment_confirmation_v1";
  trim = λ t. t;
  zone_of = λ name. lisbon;
  shop = shop;
}

abbrev customer : Appointment
customer = record (booking 1 0) { whatsapp_opt_in = true; notification_revision = 1 }

abbrev found : LookedUp
found = record { barber_name = some "Rui"; service_name = none; location = some shop }

abbrev sent_well : WhatsappResult
sent_well = record {
  outcome = accepted;
  template_name = "appointment_confirmation_v1";
  provider_message_id = some "wamid.1";
  provider_status = "META_ACCEPTED";
  response_status = some 200;
  error_code = none;
}

on :
    {rows : Rows} {w v : World} {p q : Program (Unit {0})}
    → Reach rows w (p ∷ [])
    → Step w p v q
    → Reach rows v (q ∷ [])
on {q} r s = moves r (inl (q, s, refl))

-- The worker claims the event, reads the appointment twice, claims the attempt and sends the message.
unfoldable message_run : (w : World) × (ps : List (Program (Unit {0}))) × Reach (row ∷ []) w ps
unfolding started process_appointment_notification process_claimed_appointment_notification
    process_claimed_core single_found single_current single_with single_due single_send
    single_claimed is_current_event status_eq new_event change_first apply_patch perform
    claim_appointment_notification_event claim_appointment_notification_whatsapp_attempt
    update_appointment_notification_event new_appointment
message_run = (
  _,
  _,
  on
      (on
        (on
          (on
            (on
              (on
                (on
                  (on
                    (on (on (starts deps (of_event 1) here) (5, refl, refl))
                      (_, (refl, refl), refl))
                    (some customer, refl, refl))
                  (found, refl, refl))
                (some customer, refl, refl))
              (6, refl, refl))
            (_, (refl, refl), refl))
          (7, refl, refl))
        (_, (refl, refl), refl))
      (some sent_well, refl, refl),
)

one_message : message_run.0.sent ≡ 1 ∷ []
unfolding message_run new_event single_message single_claimed
one_message = refl

whatsapp_sent-bound_example : sent_count 1 message_run.0.sent ≤ 1
whatsapp_sent-bound_example =
    whatsapp_sent-bound 1 (row ∷ []) message_run.0 message_run.1 message_run.2

abbrev series : RecurringNotificationSnapshot
series = record {
  snapshot = record {
    customer_name = "Ana";
    customer_email = some "ana@example.com";
    customer_phone = "+351910000000";
    whatsapp_opt_in = true;
    location = shop;
    service = record { id = 1; name = "Corte" };
    barber = record { id = 1; name = "Rui" };
    recurrence = record { interval_weeks = 1; duration_months = 1; occurrence_count = 2 };
  };
  series_id = "series-1";
  occurrences =
      record { appointment_id = 1; occurrence_index = 0; start_time = 0 }
      ∷ record { appointment_id = 2; occurrence_index = 1; start_time = 604800000 }
      ∷ [];
}

-- A message of a series that failed is put down as an opt-in that is missing.
failed_as_missing : recurring_reason deps series ≡ "WHATSAPP_OPT_IN_MISSING"
unfolding recurring_reason
failed_as_missing = refl

-- With WhatsApp off for now, the event of a series is done with and that of an appointment is put off.
series_not_deferred :
    recurring_current (record deps { whatsapp_enabled = false }) row series ≡ pure (went no_channel)
unfolding recurring_current new_event
series_not_deferred = refl

appointment_deferred :
    single_due
      (record deps { whatsapp_enabled = false })
      customer
      row
      (details_of deps customer found)
    ≡ pure deferred
unfolding single_due new_event new_appointment
appointment_deferred = refl
