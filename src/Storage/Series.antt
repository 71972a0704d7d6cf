-- ===== src/Storage/Series.antt =====
-- Recurring appointments (server/storage.ts): `validateRecurringAppointmentSeriesRequest`,
-- `buildRecurringNotificationSnapshot` and `createRecurringAppointmentSeries` of `MemoryStorage`.
pub mod Requests
use barber_bookings.Common.{
  ℕ, String, ◌+◌, Bool, true, false, not, ◌&&◌, ◌||◌, List, [], ◌∷◌, ◌++◌, map, Option, none, some,
  ltb, ◌==◌, if◌then◌else◌, any, length, take, get_or, is_some, str_eq, opt_eq,
}
use barber_bookings.Schema.{Appointment, AppointmentSeries, Instant}
use barber_bookings.Schema.Enums.{booked, is_booked}
use barber_bookings.Schema.Events.{
  AppointmentNotificationEvent, NotificationSnapshot, RecurringNotificationSnapshot, Occurrence,
  appointment_recurring_confirmation, series_key,
}
use barber_bookings.Storage.State.{
  MemoryStorage, StorageError, Action, Run, finished, threw, after, ◌>>=◌, ◌>>◌, pure, modify,
  CreateRequest, push_event, too_few_occurrences, snapshot_mismatch, occurrences_mismatch,
  first_occurrence_mismatch, extras_not_allowed_for_recurring, duplicate_series,
}
use barber_bookings.Storage.Conflict.{assert_no_appointment_conflict}
use barber_bookings.Storage.Create.{
  new_appointment, no_compensation, not_empty, take_appointment_id, reminder_event,
}
use barber_bookings.Storage.Patch.{bool_eq, opt_str_eq}
use barber_bookings.Storage.Series.Requests.{
  SeriesRequest, RecurringRequest, validate_recurring_appointment_series_request,
}

abbrev pub occurrence_of : Appointment → Occurrence
occurrence_of a = record {
  appointment_id = a.id;
  occurrence_index = get_or a.series_occurrence_index 0;
  start_time = a.start_time;
}

unfoldable pub build_recurring_notification_snapshot :
    RecurringRequest → List Appointment → RecurringNotificationSnapshot
build_recurring_notification_snapshot request created = record {
  snapshot = request.notification_snapshot;
  series_id = request.series.id;
  occurrences = map occurrence_of created;
}

-- The row of the occurrence at an index.
unfoldable pub new_occurrence : Instant → ℕ → String → ℕ → CreateRequest → Appointment
new_occurrence now id series_id index r =
    record (new_appointment now id no_compensation
      (if is_some r.reminder_available_at then 1 else 0) r) {
        series_id = some series_id;
        series_occurrence_index = some index;
      }

abbrev pub push_row : Appointment → MemoryStorage → MemoryStorage
push_row a s = record s { appointments = s.appointments ++ a ∷ [] }

-- One round of the loop.
unfoldable pub insert_occurrence : Instant → String → ℕ → CreateRequest → Action Appointment
insert_occurrence now series_id index r = do
  id ← take_appointment_id
  let a = new_occurrence now id series_id index r
  assert_no_appointment_conflict a none
  modify (push_row a)
  modify (reminder_event now a r.reminder_available_at)
  pure a

unfoldable pub insert_occurrences :
    Instant → String → ℕ → List CreateRequest → Action (List Appointment)
insert_occurrences now series_id index [] = pure []
insert_occurrences now series_id index (r ∷ rs) = do
  a ← insert_occurrence now series_id index r
  created ← insert_occurrences now series_id (index + 1) rs
  pure (a ∷ created)

unfoldable pub new_series : Instant → SeriesRequest → AppointmentSeries
new_series now r = record {
  id = r.id;
  location_id = r.location_id;
  barber_id = r.barber_id;
  service_id = r.service_id;
  customer_name = r.customer_name;
  customer_email = r.customer_email;
  customer_phone = r.customer_phone;
  whatsapp_opt_in = r.whatsapp_opt_in;
  whatsapp_opt_in_at = r.whatsapp_opt_in_at;
  interval_weeks = r.interval_weeks;
  duration_months = r.duration_months;
  occurrence_count = r.occurrence_count;
  first_start_time = r.first_start_time;
  notification_revision = 1;
  status = "active";
  created_at = now;
  updated_at = now;
}

unfoldable pub series_event :
    Instant → RecurringRequest → List Appointment → ℕ → AppointmentNotificationEvent
series_event now request created id = record {
  id = id;
  appointment_id = none;
  series_id = some request.series.id;
  event_type = appointment_recurring_confirmation;
  event_revision = 1;
  event_key = series_key request.series.id 1;
  available_at = now;
  appointment_start_time = request.series.first_start_time;
  previous_start_time = none;
  new_start_time = none;
  payload_snapshot = some (build_recurring_notification_snapshot request created);
  created_at = now;
  updated_at = now;
}

pub record RecurringResult : Type 0 where
  pub series : AppointmentSeries
  pub appointments : List Appointment
  pub notification_event : AppointmentNotificationEvent

abbrev pub push_series : AppointmentSeries → MemoryStorage → MemoryStorage
push_series series s = record s { appointment_series = s.appointment_series ++ series ∷ [] }

-- What follows the loop.
abbrev pub finish_series : Instant → RecurringRequest → List Appointment → Action RecurringResult
finish_series now request created s =
    finished
      (record {
        series = new_series now request.series;
        appointments = created;
        notification_event = series_event now request created s.next_event;
      })
      (push_event (series_event now request created)
        (push_series (new_series now request.series) s))

-- The `catch`.
unfoldable pub roll_back_series : MemoryStorage → MemoryStorage → MemoryStorage
roll_back_series original s = record s {
  appointments = take (length original.appointments) s.appointments;
  appointment_notification_events =
      take (length original.appointment_notification_events) s.appointment_notification_events;
  next_appointment = original.next_appointment;
  next_event = original.next_event;
}

abbrev pub recover_series : {A : Type 0} → MemoryStorage → Run A → Run A
recover_series original (finished a s) = finished a s
recover_series original (threw e s) = threw e (roll_back_series original s)

unfoldable pub insert_series : Instant → RecurringRequest → Action RecurringResult
insert_series now request s = recover_series s (
    after (insert_occurrences now request.series.id 0 request.appointments s)
      (finish_series now request))

abbrev pub insert_unless : Bool → Instant → RecurringRequest → Action RecurringResult
insert_unless duplicate now request s =
    if duplicate then threw duplicate_series s else insert_series now request s

unfoldable pub create_recurring_appointment_series :
    Instant → RecurringRequest → Action RecurringResult
create_recurring_appointment_series now request s =
    elim (validate_recurring_appointment_series_request request) [
      | some e ↦ threw e s
      | none ↦
          insert_unless (any (λ series. str_eq series.id request.series.id) s.appointment_series)
            now request s
    ]
