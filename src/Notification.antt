-- ===== src/Notification.antt =====
-- The worker that delivers the events of the outbox (server/appointment-notifications.ts): what it is
-- given, and its tests. An event is read once, when it is claimed; log lines are left out. The names of
-- templates, which the code reads from the environment, `trim`, and the zone of a name are parameters.
pub mod Effects
pub mod Guarded
pub mod Budget
pub mod Spending
pub mod System
pub mod Fallback
pub mod Once
pub mod Email
pub mod Messages
pub mod Reconcile
pub mod Recurring
pub mod Worker
use barber_bookings.Common.{
  ℕ, String, Bool, true, false, not, ◌&&◌, ◌||◌, List, [], ◌∷◌, Option, none, some, leb, ltb, ◌==◌,
  get_or, is_some, length, opt_eq, str_eq, if◌then◌else◌,
}
use barber_bookings.Schema.{Appointment, AppointmentSeries, Instant}
use barber_bookings.Schema.Enums.{
  AppointmentStatus, booked, cancelled, is_booked, late_cancelled, status_eq,
}
use barber_bookings.Schema.Events.{
  AppointmentNotificationEventType, Occurrence, Place, RecurringNotificationSnapshot,
  appointment_cancelled, appointment_recurring_confirmation, appointment_reminder_day_before,
}
use barber_bookings.Delivery.Calls.{update}
use barber_bookings.Delivery.Columns.{
  DeliveryPatch, DeliveryRow, WhatsappStatus, accepted, delivered, read, sent, pending,
}
use barber_bookings.Notification.Effects.{
  Answer, LookedUp, Program, SeriesFound, ask, clock, get_series, outbox, pure, ◌>>=◌,
}
use barber_bookings.Reminders.{is_appointment_reminder_delivery_window}
use barber_bookings.Terms.{get_appointment_service_name, or_text}
use barber_bookings.TimeZone.{Zone}

-- `AppointmentNotificationDependencies` beyond the storage and the senders, and the fallbacks for a
-- location that is gone.
pub record NotificationDependencies : Type 0 where
  pub processing_enabled : Bool
  pub whatsapp_enabled : Bool
  pub recurring_whatsapp_enabled : Bool
  pub reminders_enabled : Bool
  pub defer_whatsapp_when_disabled : Bool
  pub template_name : AppointmentNotificationEventType → Option String
  pub trim : String → String
  pub zone_of : String → Zone
  pub shop : Place

pub data Channel : Type 0 where
  whatsapp email no_channel : Channel

-- A channel, "deferred" or "in_progress"; `threw` stands for an exception.
pub data CoreResult : Type 0 where
  went : Channel → CoreResult
  deferred in_progress threw : CoreResult

pub record Details : Type 0 where
  pub barber_name : String
  pub service_name : String
  pub location_name : String
  pub location_address : String
  pub location_time_zone : String

abbrev pub is_recurring : AppointmentNotificationEventType → Bool
is_recurring appointment_recurring_confirmation = true
is_recurring _ = false

abbrev pub is_cancellation : AppointmentNotificationEventType → Bool
is_cancellation appointment_cancelled = true
is_cancellation _ = false

-- The status that an appointment has if an event of the type is still due.
abbrev pub fits_status : AppointmentNotificationEventType → AppointmentStatus → Bool
fits_status type status =
    if is_cancellation type
    then status_eq status cancelled || status_eq status late_cancelled
    else is_booked status

unfoldable pub is_current_event : Option Appointment → DeliveryRow → Bool
is_current_event none row = false
is_current_event (some a) row =
    (a.notification_revision == row.event.event_revision)
    && (a.start_time == row.event.appointment_start_time)
    && fits_status row.event.event_type a.status

-- The id of the series is the same text, or both are null.
abbrev pub same_series : String → Option String → Bool
same_series id none = false
same_series id (some other) = str_eq id other

abbrev pub of_series :
    Option String → RecurringNotificationSnapshot → Option RecurringNotificationSnapshot
of_series series_id snapshot =
    if same_series snapshot.series_id series_id && leb 2 (length snapshot.occurrences)
    then some snapshot
    else none

abbrev pub recurring_by :
    Option String → Option RecurringNotificationSnapshot → Option RecurringNotificationSnapshot
recurring_by series_id none = none
recurring_by series_id (some snapshot) = of_series series_id snapshot

-- `schemaVersion` is left out: 1 is the only value of its type.
abbrev pub recurring_snapshot : DeliveryRow → Option RecurringNotificationSnapshot
recurring_snapshot row = recurring_by row.event.series_id row.event.payload_snapshot

abbrev is_at : ℕ → Option ℕ → Bool
is_at index none = false
is_at index (some other) = index == other

-- Each appointment is as it was saved, and there are as many.
unfoldable pub are_as_saved : List Appointment → List Occurrence → Bool
are_as_saved [] [] = true
are_as_saved (a ∷ rest) (saved ∷ others) =
    (a.id == saved.appointment_id)
    && is_at saved.occurrence_index a.series_occurrence_index
    && is_booked a.status
    && (a.start_time == saved.start_time)
    && are_as_saved rest others
are_as_saved _ _ = false

abbrev pub is_current_series :
    DeliveryRow → RecurringNotificationSnapshot → Option AppointmentSeries → Bool
is_current_series row snapshot none = false
is_current_series row snapshot (some series) =
    str_eq series.status "active"
    && (series.notification_revision == row.event.event_revision)
    && (series.occurrence_count == snapshot.snapshot.recurrence.occurrence_count)

abbrev pub is_current_found : DeliveryRow → RecurringNotificationSnapshot → SeriesFound → Bool
is_current_found row snapshot found =
    is_current_series row snapshot found.series
    && are_as_saved found.appointments snapshot.occurrences

abbrev pub current_by : DeliveryRow → RecurringNotificationSnapshot → Option String → Program Bool
current_by row snapshot none = pure false
current_by row snapshot (some id) =
    if str_eq id ""
    then pure false
    else ask (get_series id) >>= λ found. pure (is_current_found row snapshot found)

abbrev pub is_current_recurring_event : DeliveryRow → RecurringNotificationSnapshot → Program Bool
is_current_recurring_event row snapshot = current_by row snapshot row.event.series_id

-- The patch may hold the time of the call.
abbrev pub update_event : ℕ → (Instant → DeliveryPatch) → Program (Unit {0})
update_event id patch =
    ask clock >>= λ now. ask (outbox (update now id (patch now))) >>= λ row. pure tt

-- Accepted, or further.
abbrev pub is_accepted : WhatsappStatus → Bool
is_accepted accepted = true
is_accepted sent = true
is_accepted delivered = true
is_accepted read = true
is_accepted _ = false

abbrev pub is_accepted_now : WhatsappStatus → Bool
is_accepted_now accepted = true
is_accepted_now _ = false

abbrev pub is_pending : WhatsappStatus → Bool
is_pending pending = true
is_pending _ = false

-- There is a text, and more than blanks.
abbrev pub has_address : (String → String) → Option String → Bool
has_address trim none = false
has_address trim (some t) = not (str_eq (trim t) "")

module _ (deps : NotificationDependencies) where
  abbrev pub place_text : (Place → String) → Option Place → String
  place_text field none = field deps.shop
  place_text field (some place) = or_text (some (field place)) (field deps.shop)

  unfoldable pub details_of : Appointment → LookedUp → Details
  unfolding get_appointment_service_name
  details_of a found = record {
    barber_name = or_text found.barber_name "Barbeiro indisponível";
    service_name =
        get_appointment_service_name deps.trim a (λ id. found.service_name) "Serviço indisponível";
    location_name = place_text (λ p. p.name) found.location;
    location_address = place_text (λ p. p.address) found.location;
    location_time_zone = place_text (λ p. p.timezone) found.location;
  }

  -- Why a reminder is not sent.
  unfoldable pub reminder_error : DeliveryRow → Details → Instant → Option String
  unfolding is_appointment_reminder_delivery_window
  reminder_error row details now =
      if not deps.reminders_enabled
      then some "REMINDERS_DISABLED"
      else if is_appointment_reminder_delivery_window row.event.appointment_start_time
          row.event.available_at (deps.zone_of details.location_time_zone) now
      then none
      else some "REMINDER_WINDOW_EXPIRED"
