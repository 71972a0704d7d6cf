-- ===== src/Delivery.antt =====
-- The outbox of the notifications: the columns of an event that report on its delivery
-- (shared/schema.ts), and the calls of `MemoryStorage` (server/storage.ts) by which workers claim an
-- event, an attempt or a fallback. Each call reads the clock as an argument. Workers share the table and
-- interleave call by call.
pub mod Calls
pub mod Claims
pub mod Receipts
pub mod Progress
pub mod Inbox
pub mod Columns
use barber_bookings.Common.{
  ℕ, String, Bool, true, false, not, ◌&&◌, ◌||◌, List, [], ◌∷◌, Option, none, some, leb, ltb, ◌==◌,
  find?, get_or, is_some, str_eq, if◌then◌else◌,
}
use barber_bookings.Schema.{Instant}
use barber_bookings.Schema.Events.{
  AppointmentNotificationEvent, AppointmentNotificationEventType, appointment_reminder_day_before,
}
use barber_bookings.Delivery.Columns.{
  WhatsappStatus, EmailStatus, DeliveryRow, DeliveryPatch, updated, apply_patch, Rows, Claimed,
  found, change_first, failed, email_sent,
}

abbrev pub is_reminder : AppointmentNotificationEventType → Bool
is_reminder appointment_reminder_day_before = true
is_reminder _ = false

abbrev pub has_event_id : ℕ → DeliveryRow → Bool
has_event_id id row = row.event.id == id

abbrev pub start_processing : Instant → DeliveryRow → DeliveryRow
start_processing now row = record row {
  event = updated now row.event;
  processing_started_at = some now;
}

abbrev is_due : ℕ → Instant → Bool → DeliveryRow → Bool
is_due id available_before include_reminders row =
    (row.event.id == id)
    && leb row.event.available_at available_before
    && (include_reminders || not (is_reminder row.event.event_type))

-- The row found is left as it is, and not returned, if it is being processed.
abbrev pub claim_found : (DeliveryRow → Bool) → Instant → Option DeliveryRow → Rows → Claimed
claim_found test now none rows = record { row = none; rows = rows }
claim_found test now (some row) rows =
    if is_some row.processing_started_at
    then record { row = none; rows = rows }
    else change_first test (start_processing now) rows

unfoldable pub claim_appointment_notification_event : Instant → ℕ → Instant → Bool → Rows → Claimed
unfolding change_first
claim_appointment_notification_event now id available_before include_reminders rows =
    let test = is_due id available_before include_reminders in
    claim_found test now (find? test rows) rows

abbrev pub is_leased : Instant → Option Instant → Bool
is_leased lease_before none = false
is_leased lease_before (some at) = not (ltb at lease_before)

-- The test of `claimNextAppointmentNotificationEvent`. `opted_in` tells whether the appointment of an
-- event is there and its customer opted in to WhatsApp.
unfoldable pub is_next : Instant → Bool → Instant → Bool → (Option ℕ → Bool) → DeliveryRow → Bool
is_next lease_before include_unattempted available_before include_reminders opted_in row =
    not (is_some row.processing_completed_at)
    && leb row.event.available_at available_before
    && (include_reminders || not (is_reminder row.event.event_type))
    && not (is_leased lease_before row.processing_started_at)
    && (is_some row.event.series_id
        || include_unattempted
        || not (opted_in row.event.appointment_id)
        || is_some row.whatsapp_attempted_at)

unfoldable pub claim_next_appointment_notification_event :
    Instant → Instant → Bool → Instant → Bool → (Option ℕ → Bool) → Rows → Claimed
unfolding change_first is_next
claim_next_appointment_notification_event now lease_before include_unattempted available_before
      include_reminders opted_in rows =
    change_first
      (is_next lease_before include_unattempted available_before include_reminders opted_in)
      (start_processing now) rows

abbrev pub attempt_now : Instant → DeliveryRow → DeliveryRow
attempt_now now row = record row { event = updated now row.event; whatsapp_attempted_at = some now }

-- The row found is left as it is, and not returned, if WhatsApp was attempted.
abbrev pub attempt_found : ℕ → Instant → Option DeliveryRow → Rows → Claimed
attempt_found id now none rows = record { row = none; rows = rows }
attempt_found id now (some row) rows =
    if is_some row.whatsapp_attempted_at
    then record { row = none; rows = rows }
    else change_first (has_event_id id) (attempt_now now) rows

unfoldable pub claim_appointment_notification_whatsapp_attempt : Instant → ℕ → Rows → Claimed
unfolding change_first
claim_appointment_notification_whatsapp_attempt now id rows =
    attempt_found id now (find? (has_event_id id) rows) rows

unfoldable pub update_appointment_notification_event : Instant → ℕ → DeliveryPatch → Rows → Claimed
unfolding change_first apply_patch
update_appointment_notification_event now id patch rows =
    change_first (has_event_id id) (apply_patch now patch) rows

abbrev pub is_failed : WhatsappStatus → Bool
is_failed failed = true
is_failed _ = false

abbrev pub is_email_sent : EmailStatus → Bool
is_email_sent email_sent = true
is_email_sent _ = false

abbrev pub may_fall_back : ℕ → DeliveryRow → Bool
may_fall_back id row =
    (row.event.id == id)
    && is_failed row.whatsapp_status
    && not (is_some row.webhook_fallback_claimed_at)
    && not (is_email_sent row.email_status)

abbrev pub fall_back : Instant → DeliveryRow → DeliveryRow
fall_back now row = record row {
  event = updated now row.event;
  webhook_fallback_claimed_at = some now;
}

unfoldable pub claim_appointment_notification_webhook_fallback : Instant → ℕ → Rows → Claimed
unfolding change_first
claim_appointment_notification_webhook_fallback now id rows =
    change_first (may_fall_back id) (fall_back now) rows
