-- ===== src/Notification/Email.antt =====
-- The fallback to e-mail of server/appointment-notifications.ts: `emailFallback`,
-- `recurringEmailFallback` and `processMetaLateFailureEmailFallback`.
use barber_bookings.Common.{ℕ, String, false, not, Option, none, some, if◌then◌else◌}
use barber_bookings.Schema.{Appointment, Instant}
use barber_bookings.Schema.Enums.{late_cancelled, status_eq}
use barber_bookings.Schema.Events.{
  AppointmentNotificationEventType, RecurringNotificationSnapshot, appointment_confirmation,
  appointment_reminder_day_before, appointment_rescheduled, appointment_updated,
}
use barber_bookings.Delivery.{is_email_sent, is_reminder}
use barber_bookings.Delivery.Calls.{fallback}
use barber_bookings.Delivery.Columns.{
  DeliveryPatch, DeliveryRow, email_failed, email_sent, email_skipped, no_patch, sending,
}
use barber_bookings.Notification.Effects.{
  EmailCommon, EmailManagement, EmailMessage, EmailResult, Program, ask, cancellation_email, clock,
  confirmation_email, get_appointment, get_event, look_up, outbox, pure, recurring_email,
  reminder_email, reschedule_email, send_email, updated_email, ◌>>=◌, ◌>>◌,
}
use barber_bookings.Notification.{
  Channel, Details, NotificationDependencies, details_of, email, has_address, is_current_event,
  is_current_recurring_event, is_recurring, no_channel, recurring_snapshot, reminder_error,
  update_event,
}

abbrev pub skip_email : String → Instant → DeliveryPatch
skip_email reason now = record no_patch {
  email_status = some email_skipped;
  email_error_code = some (some reason);
}

abbrev pub sending_email : Instant → DeliveryPatch
sending_email now = record no_patch {
  email_status = some sending;
  email_attempted_at = some (some now);
}

abbrev pub skipped : ℕ → String → Program Channel
skipped id reason = update_event id (skip_email reason) >> pure no_channel

abbrev pub unexpected_error : EmailResult
unexpected_error = record {
  sent = false;
  provider_message_id = none;
  error_code = some "EMAIL_UNEXPECTED_ERROR";
}

abbrev pub email_result : Option EmailResult → EmailResult
email_result none = unexpected_error
email_result (some result) = result

abbrev pub email_outcome : EmailResult → Instant → DeliveryPatch
email_outcome result now = record no_patch {
  email_status = some (if result.sent then email_sent else email_failed);
  email_provider_message_id = some result.provider_message_id;
  email_error_code = some result.error_code;
  email_sent_at = some (if result.sent then some now else none);
}

abbrev pub channel_of : EmailResult → Channel
channel_of result = if result.sent then email else no_channel

-- The end of both fallbacks: the row says that an e-mail is under way, and then how it went.
unfoldable pub deliver_email : ℕ → EmailMessage → Program Channel
deliver_email id message =
    update_event id sending_email
    >> (ask (send_email message) >>= λ answer.
        update_event id (email_outcome (email_result answer))
        >> pure (channel_of (email_result answer)))

unfoldable pub email_message : Appointment → DeliveryRow → Details → EmailMessage
email_message a row details = by_type row.event.event_type
  where
    common : EmailCommon
    common = record {
      event_id = row.event.id;
      customer_name = a.customer_name;
      customer_email = a.customer_email;
      barber_name = details.barber_name;
      service_name = details.service_name;
      start_time = row.event.appointment_start_time;
      location_name = details.location_name;
      location_time_zone = details.location_time_zone;
      idempotency_key = row.event.event_key;
    }

    management : EmailManagement
    management = record {
      cancel_token = a.cancel_token;
      duration_minutes = a.duration_minutes;
      location_address = details.location_address;
    }

    by_type : AppointmentNotificationEventType → EmailMessage
    by_type appointment_confirmation =
        confirmation_email common management a.deposit_required a.deposit_reason
    by_type appointment_rescheduled = reschedule_email common management
    by_type appointment_updated = updated_email common management
    by_type appointment_reminder_day_before = reminder_email common management
    by_type _ = cancellation_email common (status_eq a.status late_cancelled)

abbrev pub late_reminder_by : DeliveryRow → Option String → Program Channel → Program Channel
late_reminder_by row none next = next
late_reminder_by row (some reason) next = skipped row.event.id reason

module _ (deps : NotificationDependencies) where
  unfoldable pub deliver_in_time : Appointment → DeliveryRow → Details → Program Channel
  unfolding deliver_email
  deliver_in_time a row details =
      if is_reminder row.event.event_type
      then (ask clock >>= λ now.
          late_reminder_by row (reminder_error deps row details now)
            (deliver_email row.event.id (email_message a row details)))
      else deliver_email row.event.id (email_message a row details)

  unfoldable pub email_fallback : Appointment → DeliveryRow → Details → Program Channel
  unfolding deliver_in_time
  email_fallback a row details =
      if is_email_sent row.email_status
      then pure email
      else if not (has_address deps.trim a.customer_email)
      then skipped row.event.id "EMAIL_MISSING"
      else ask (get_appointment a.id) >>= λ latest.
          if not (is_current_event latest row)
          then skipped row.event.id "STALE_EVENT"
          else deliver_in_time a row details

  unfoldable pub recurring_email_fallback :
      DeliveryRow → RecurringNotificationSnapshot → Program Channel
  unfolding deliver_email
  recurring_email_fallback row snapshot =
      if is_email_sent row.email_status
      then pure email
      else if not (has_address deps.trim snapshot.snapshot.customer_email)
      then skipped row.event.id "EMAIL_MISSING"
      else is_current_recurring_event row snapshot >>= λ current.
          if not current
          then skipped row.event.id "STALE_EVENT"
          else deliver_email row.event.id (
              recurring_email row.event.id snapshot.snapshot snapshot.occurrences
                row.event.event_key)

  unfoldable pub late_recurring :
      DeliveryRow → Option RecurringNotificationSnapshot → Program Channel
  unfolding recurring_email_fallback
  late_recurring row none = skipped row.event.id "STALE_EVENT"
  late_recurring row (some snapshot) = recurring_email_fallback row snapshot

  unfoldable pub late_single : DeliveryRow → Option Appointment → Program Channel
  unfolding email_fallback
  late_single row none = skipped row.event.id "STALE_EVENT"
  late_single row (some a) =
      ask (look_up a) >>= λ found. email_fallback a row (details_of deps a found)

  abbrev pub appointment_of : Option ℕ → Program (Option Appointment)
  appointment_of none = pure none
  appointment_of (some id) = ask (get_appointment id)

  unfoldable pub late_claimed : DeliveryRow → Program Channel
  unfolding late_recurring late_single
  late_claimed row =
      if is_recurring row.event.event_type
      then late_recurring row (recurring_snapshot row)
      else appointment_of row.event.appointment_id >>= λ found. late_single row found

  abbrev pub existing_channel : Option DeliveryRow → Channel
  existing_channel none = no_channel
  existing_channel (some row) = if is_email_sent row.email_status then email else no_channel

  unfoldable pub late_by : ℕ → Option DeliveryRow → Program Channel
  unfolding late_claimed
  late_by id none = ask (get_event id) >>= λ existing. pure (existing_channel existing)
  late_by id (some row) = late_claimed row

  unfoldable pub process_meta_late_failure_email_fallback : ℕ → Program Channel
  unfolding late_by
  process_meta_late_failure_email_fallback id =
      ask clock >>= λ now. ask (outbox (fallback now id)) >>= λ claimed. late_by id claimed
