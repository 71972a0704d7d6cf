-- ===== src/Notification/Worker.antt =====
-- The course of the event of one appointment, of any claimed event, and the loop of the worker
-- (`processClaimedCore`, `processClaimedAppointmentNotification`, `processAppointmentNotification` and
-- `processPendingAppointmentNotifications` of server/appointment-notifications.ts). The loop counts its
-- 25 rounds down.
use barber_bookings.Common.{
  ℕ, zero, suc, String, ◌+◌, ◌-◌, Bool, not, ◌&&◌, ◌||◌, Option, none, some, is_some, if◌then◌else◌,
}
use barber_bookings.Schema.{Appointment, Instant}
use barber_bookings.Delivery.{is_reminder}
use barber_bookings.Delivery.Calls.{attempt_whatsapp, claim, claim_next}
use barber_bookings.Delivery.Columns.{DeliveryPatch, DeliveryRow, no_patch}
use barber_bookings.Notification.Effects.{
  Program, ask, clock, look_up, get_appointment, outbox, pure, send_whatsapp, ◌>>=◌, ◌>>◌,
}
use barber_bookings.Notification.{
  Channel, CoreResult, Details, NotificationDependencies, deferred, details_of, in_progress,
  is_accepted, is_current_event, is_pending, is_recurring, no_channel, reminder_error, threw,
  update_event, went, whatsapp,
}
use barber_bookings.Notification.Email.{appointment_of, email_fallback}
use barber_bookings.Notification.Messages.{
  interrupted, single_message, skip_whatsapp, skipped_both, to_core, whatsapp_result,
}
use barber_bookings.Notification.Recurring.{
  is_deferred, process_recurring_confirmation, settle_whatsapp,
}

-- `{ provider: "meta", templateName }`
abbrev pub name_template : Option String → Instant → DeliveryPatch
name_template template now = record no_patch {
  provider = some (some "meta");
  template_name = some template;
}

abbrev pub complete : Instant → DeliveryPatch
complete now = record no_patch { processing_completed_at = some (some now) }

abbrev pub release : Instant → DeliveryPatch
release now = record no_patch { processing_started_at = some none }

-- What comes of a claimed event: a channel, or an exception.
unfoldable pub finish_claimed : ℕ → CoreResult → Program (Option Channel)
finish_claimed id (went taken) = update_event id complete >> pure (some taken)
finish_claimed id deferred = update_event id release >> pure (some no_channel)
finish_claimed id in_progress = pure (some no_channel)
finish_claimed id threw = pure none

module _ (deps : NotificationDependencies) where
  unfoldable pub single_claimed :
      Appointment → DeliveryRow → Details → Option DeliveryRow → Program CoreResult
  unfolding settle_whatsapp email_fallback single_message
  single_claimed a row details none = pure in_progress
  single_claimed a row details (some attempt) =
      update_event row.event.id (name_template (deps.template_name row.event.event_type))
      >> (ask (send_whatsapp (single_message a row details)) >>= λ answer.
          settle_whatsapp deps row.event.id
            (whatsapp_result (deps.template_name row.event.event_type) answer)
            (to_core (email_fallback deps a row details)))

  unfoldable pub single_send : Appointment → DeliveryRow → Details → Program CoreResult
  unfolding single_claimed
  single_send a row details = ask (get_appointment a.id) >>= λ latest.
      if is_current_event latest row
      then (ask clock >>= λ now. ask (outbox (attempt_whatsapp now row.event.id)) >>= λ attempt.
          single_claimed a row details attempt)
      else skipped_both row.event.id "STALE_EVENT"

  -- WhatsApp is passed over for a reason, and the e-mail takes its place.
  unfoldable pub single_without : Appointment → DeliveryRow → Details → String → Program CoreResult
  unfolding email_fallback
  single_without a row details reason =
      update_event row.event.id (skip_whatsapp (deps.template_name row.event.event_type) reason)
      >> to_core (email_fallback deps a row details)

  -- An attempt was made, and how it ended is not known.
  unfoldable pub single_attempted : Appointment → DeliveryRow → Details → Program CoreResult
  unfolding email_fallback
  single_attempted a row details =
      if is_pending row.whatsapp_status
      then update_event row.event.id interrupted >> to_core (email_fallback deps a row details)
      else to_core (email_fallback deps a row details)

  unfoldable pub single_due : Appointment → DeliveryRow → Details → Program CoreResult
  single_due a row details =
      if is_deferred deps a.whatsapp_opt_in row
      then pure deferred
      else if is_accepted row.whatsapp_status
      then pure (went whatsapp)
      else if is_some row.whatsapp_attempted_at
      then single_attempted a row details
      else if a.whatsapp_opt_in && not deps.whatsapp_enabled
      then single_without a row details "WHATSAPP_DISABLED"
      else if not a.whatsapp_opt_in
      then single_without a row details "WHATSAPP_OPT_IN_MISSING"
      else single_send a row details

  abbrev pub single_in_time :
      Appointment → DeliveryRow → Details → Option String → Program CoreResult
  single_in_time a row details none = single_due a row details
  single_in_time a row details (some reason) = skipped_both row.event.id reason

  unfoldable pub single_with : Appointment → DeliveryRow → Details → Program CoreResult
  unfolding single_due reminder_error
  single_with a row details =
      if is_reminder row.event.event_type
      then (ask clock >>= λ now. single_in_time a row details (reminder_error deps row details now))
      else single_due a row details

  unfoldable pub single_current : DeliveryRow → Appointment → Program CoreResult
  unfolding single_with details_of
  single_current row a =
      if is_current_event (some a) row
      then (ask (look_up a) >>= λ found. single_with a row (details_of deps a found))
      else skipped_both row.event.id "STALE_EVENT"

  unfoldable pub single_found : DeliveryRow → Option Appointment → Program CoreResult
  unfolding single_current
  single_found row none = skipped_both row.event.id "STALE_EVENT"
  single_found row (some a) = single_current row a

  unfoldable pub process_claimed_core : DeliveryRow → Program CoreResult
  unfolding single_found process_recurring_confirmation
  process_claimed_core row =
      if not deps.processing_enabled
      then pure (went no_channel)
      else if is_recurring row.event.event_type
      then process_recurring_confirmation deps row
      else appointment_of deps row.event.appointment_id >>= λ found. single_found row found

  unfoldable pub process_claimed_appointment_notification : DeliveryRow → Program (Option Channel)
  unfolding process_claimed_core finish_claimed
  process_claimed_appointment_notification row =
      process_claimed_core row >>= λ result. finish_claimed row.event.id result

  abbrev pub process_if : Option DeliveryRow → Program (Option Channel)
  process_if none = pure (some no_channel)
  process_if (some row) = process_claimed_appointment_notification row

  unfoldable pub process_appointment_notification : ℕ → Program (Option Channel)
  unfolding process_claimed_appointment_notification
  process_appointment_notification id =
      if not deps.processing_enabled
      then pure (some no_channel)
      else (ask clock >>= λ now.
          ask (outbox (claim now id now deps.reminders_enabled)) >>= λ row. process_if row)

  -- The next round, unless the event threw; `none` if it did.
  abbrev pub go_on : Program (Option ℕ) → Option Channel → Program (Option ℕ)
  go_on next none = pure none
  go_on next (some _) = next

  abbrev pub round_by : ℕ → Program (Option ℕ) → Option DeliveryRow → Program (Option ℕ)
  round_by processed next none = pure (some processed)
  round_by processed next (some row) =
      process_claimed_appointment_notification row >>= λ result. go_on next result

  -- `opted_in` is what the storage knows of the appointments when the call comes.
  unfoldable pub process_rounds : ℕ → (Instant → Option ℕ → Bool) → ℕ → ℕ → Program (Option ℕ)
  unfolding process_claimed_appointment_notification
  process_rounds lease_ms opted_in zero processed = pure (some processed)
  process_rounds lease_ms opted_in (suc rounds) processed =
      let next = process_rounds lease_ms opted_in rounds (processed + 1) in
      ask clock >>= λ now.
      ask (
        outbox (
          claim_next now (now - lease_ms)
            (deps.whatsapp_enabled || not deps.defer_whatsapp_when_disabled) now
            deps.reminders_enabled (opted_in now)))
      >>= λ row. round_by processed next row

  unfoldable pub process_pending_appointment_notifications :
      ℕ → (Instant → Option ℕ → Bool) → Program (Option ℕ)
  unfolding process_rounds
  process_pending_appointment_notifications lease_ms opted_in =
      if not deps.processing_enabled then pure (some 0) else process_rounds lease_ms opted_in 25 0
