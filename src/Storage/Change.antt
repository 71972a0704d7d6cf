-- ===== src/Storage/Change.antt =====
-- The methods of `MemoryStorage` that change a row (server/storage.ts): `updateAppointment`,
-- `rescheduleAppointment`, `cancelAppointment`, `updateAppointmentStatus` and
-- `updateAppointmentStatusIfCurrent`. `none` stands for a result that is `undefined`.
use barber_bookings.Common.{
  ℕ, ◌+◌, Bool, false, not, ◌&&◌, ◌||◌, Option, none, some, ◌==◌, if◌then◌else◌, find?, is_some,
  get_or,
}
use barber_bookings.Schema.{Appointment, Instant}
use barber_bookings.Schema.Enums.{
  AppointmentPaymentMethod, AppointmentStatus, booked, completed, cancelled, late_cancelled,
  is_booked, is_completed, status_eq,
}
use barber_bookings.Schema.Events.{
  AppointmentNotificationEvent, appointment_cancelled, appointment_rescheduled, appointment_key,
  rescheduled,
}
use barber_bookings.Schema.Events as Events
use barber_bookings.Storage.State.{
  MemoryStorage, Action, finished, ◌>>=◌, ◌>>◌, pure, gets, modify, has_id, replace_appointment,
  push_event, new_event, bump_series,
}
use barber_bookings.Storage.Conflict.{assert_no_appointment_conflict}
use barber_bookings.Storage.Create.{resolve_appointment_compensation_snapshot, reminder_event}
use barber_bookings.Storage.Patch.{Patch, no_patch, apply_patch}

-- `expectedStatus && status !== expectedStatus`
abbrev pub is_unexpected : Option AppointmentStatus → AppointmentStatus → Bool
is_unexpected none status = false
is_unexpected (some expected) status = not (status_eq status expected)

-- The snapshot that completing an appointment takes, unless it already has one.
abbrev pub with_compensation : MemoryStorage → Appointment → Appointment → Appointment
with_compensation s current candidate =
    if is_completed candidate.status
      && not (is_some current.compensation.compensation_model_snapshot)
    then record candidate {
      compensation =
          resolve_appointment_compensation_snapshot s candidate.barber_id candidate.location_id
            candidate.start_time;
    }
    else candidate

-- `this.appointments[index] = updated`
abbrev pub store_row : ℕ → Appointment → MemoryStorage → MemoryStorage
store_row id updated s = record s { appointments = replace_appointment id updated s.appointments }

-- The row with an id, or the method's result where there is none.
abbrev pub on_row : {A : Type 0} → ℕ → (Appointment → Action (Option A)) → Action (Option A)
on_row id k s = elim (find? (has_id id) s.appointments) [
  | none ↦ finished none s
  | some current ↦ k current s
]

abbrev pub write_row : Instant → Appointment → Appointment → Action (Unit {0})
write_row now current updated =
    modify (store_row current.id updated) >> modify (bump_series now current.series_id)

-- The check and the write that all of these methods end in.
unfoldable pub write_checked : Instant → Appointment → Appointment → Action (Unit {0})
write_checked now current updated =
    assert_no_appointment_conflict updated (some current.id) >>= λ _. write_row now current updated

abbrev pub finish : Appointment → Action (Option Appointment)
finish updated = pure (some updated)

abbrev pub update_row :
    Instant → Patch → Option AppointmentStatus → Appointment → Action (Option Appointment)
update_row now patch expected current s =
    if is_unexpected expected current.status
    then finished none s
    else let updated = with_compensation s current (apply_patch patch current) in
      (write_checked now current updated >> finish updated) s

unfoldable pub update_appointment :
    Instant → ℕ → Patch → Option AppointmentStatus → Action (Option Appointment)
update_appointment now id patch expected = on_row id (update_row now patch expected)

pub record ChangeResult : Type 0 where
  pub appointment : Appointment
  pub notification_event : Option AppointmentNotificationEvent

unfoldable pub rescheduled_event :
    Instant → Appointment → Appointment → ℕ → AppointmentNotificationEvent
rescheduled_event now current updated id =
    new_event id current.id appointment_rescheduled updated.notification_revision
      (appointment_key current.id rescheduled updated.notification_revision) now updated.start_time
      (some current.start_time) (some updated.start_time) now

abbrev pub moved : Instant → Appointment → Appointment
moved start_time current = record current {
  start_time = start_time;
  reschedule_revision = current.reschedule_revision + 1;
  notification_revision = current.notification_revision + 1;
}

-- The event of the move, and the reminder of the new day.
abbrev pub report_move :
    Instant → Appointment → Appointment → Option Instant → Action (Option ChangeResult)
report_move now current updated reminder_available_at = do
  event ← gets (λ t. rescheduled_event now current updated t.next_event)
  modify (push_event (rescheduled_event now current updated))
  modify (reminder_event now updated reminder_available_at)
  pure (some (record { appointment = updated; notification_event = some event }))

abbrev pub reschedule_row :
    Instant → ℕ → Instant → Option Instant → Appointment → Action (Option ChangeResult)
reschedule_row now expected_revision start_time reminder_available_at current s =
    if not (is_booked current.status) || not (current.reschedule_revision == expected_revision)
    then finished none s
    else let updated = moved start_time current in
      (write_checked now current updated >> report_move now current updated reminder_available_at) s

unfoldable pub reschedule_appointment :
    Instant → ℕ → ℕ → Instant → Option Instant → Action (Option ChangeResult)
reschedule_appointment now id expected_revision start_time reminder_available_at =
    on_row id (reschedule_row now expected_revision start_time reminder_available_at)

unfoldable pub cancelled_event :
    Instant → Appointment → Appointment → ℕ → AppointmentNotificationEvent
cancelled_event now current updated id =
    new_event id current.id appointment_cancelled updated.notification_revision
      (appointment_key current.id Events.KeyLabel.cancelled updated.notification_revision) now
      current.start_time (some current.start_time) none now

-- `status` is "late_cancelled" if `late`, and "cancelled" otherwise.
abbrev pub called_off : Instant → Bool → Appointment → Appointment
called_off now late current = record current {
  status = if late then late_cancelled else cancelled;
  cancelled_at = some now;
  payment_method = AppointmentPaymentMethod.pending;
  notification_revision = current.notification_revision + 1;
}

abbrev pub cancel_row : Instant → Bool → Appointment → Action (Option ChangeResult)
cancel_row now late current s =
    if not (is_booked current.status)
    then finished none s
    else let updated = called_off now late current in
      (do
        write_row now current updated
        event ← gets (λ t. cancelled_event now current updated t.next_event)
        modify (push_event (cancelled_event now current updated))
        pure (some (record { appointment = updated; notification_event = some event })))
        s

unfoldable pub cancel_appointment : Instant → ℕ → Bool → Action (Option ChangeResult)
cancel_appointment now id late = on_row id (cancel_row now late)

abbrev cancelled_at_of : Instant → AppointmentStatus → Option (Option Instant)
cancelled_at_of now cancelled = some (some now)
cancelled_at_of now late_cancelled = some (some now)
cancelled_at_of now booked = some none
cancelled_at_of now completed = some none
cancelled_at_of now _ = none

abbrev revision_of : Option Appointment → ℕ
revision_of none = 0
revision_of (some a) = a.notification_revision

-- The patch of a status change; `method` is only kept for a completed appointment.
unfoldable pub status_patch :
    Instant → ℕ → AppointmentStatus → Option AppointmentPaymentMethod → MemoryStorage → Patch
status_patch now id status method s = record no_patch {
  status = some status;
  payment_method = some (
      if is_completed status
      then get_or method AppointmentPaymentMethod.pending
      else AppointmentPaymentMethod.pending);
  notification_revision = some (revision_of (find? (has_id id) s.appointments) + 1);
  cancelled_at = cancelled_at_of now status;
}

unfoldable pub update_appointment_status :
    Instant → ℕ → AppointmentStatus → Option AppointmentPaymentMethod → Action (Option Appointment)
update_appointment_status now id status method s =
    update_appointment now id (status_patch now id status method s) none s

abbrev pub update_status_if_current :
    Instant
    → ℕ
    → AppointmentStatus
    → AppointmentStatus
    → Option AppointmentPaymentMethod
    → Appointment
    → Action (Option Appointment)
update_status_if_current now id current_status status method current s =
    if status_eq current.status current_status
    then update_appointment_status now id status method s
    else finished none s

unfoldable pub update_appointment_status_if_current :
    Instant
    → ℕ
    → AppointmentStatus
    → AppointmentStatus
    → Option AppointmentPaymentMethod
    → Action (Option Appointment)
update_appointment_status_if_current now id current_status status method =
    on_row id (update_status_if_current now id current_status status method)
