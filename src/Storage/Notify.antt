-- ===== src/Storage/Notify.antt =====
-- `updateAppointmentWithNotification` of `MemoryStorage` (server/storage.ts). The patch may come with
-- a new list of extras, and the change is reported by an event and by a reminder.
use barber_bookings.Common.{
  ℕ, ◌+◌, Bool, not, ◌&&◌, ◌||◌, List, ◌++◌, map, Option, none, some, leb, ◌==◌, if◌then◌else◌,
  filter, is_some,
}
use barber_bookings.Common.Sort.{sort_by}
use barber_bookings.Schema.{Appointment, AppointmentExtra, Instant}
use barber_bookings.Schema.Enums.{AppointmentStatus, is_booked}
use barber_bookings.Schema.Events.{
  AppointmentNotificationEvent, AppointmentNotificationEventType, KeyLabel, appointment_key,
  appointment_cancelled, appointment_rescheduled, appointment_updated,
}
use barber_bookings.Storage.State.{
  MemoryStorage, Action, finished, after, ◌>>=◌, ◌>>◌, pure, modify, throw_if, has_text,
  AppointmentExtraInput, ExtraSnapshot, extras_not_editable, push_event, new_event, bump_series,
}
use barber_bookings.Storage.Conflict.{assert_no_appointment_conflict}
use barber_bookings.Storage.Extras.{
  validate_appointment_extra_inputs, appointment_extras_selection_changed,
  resolve_appointment_extra_snapshots,
}
use barber_bookings.Storage.Create.{attach, reminder_event}
use barber_bookings.Storage.Patch.{Patch, Changes, get_appointment_update_changes}
use barber_bookings.Storage.Change.{
  ChangeResult, is_unexpected, on_row, store_row, with_compensation,
}

-- `currentExtras`: those of the appointment, by position.
abbrev pub current_extras : ℕ → MemoryStorage → List AppointmentExtra
current_extras id s =
    sort_by (λ x y. leb x.position y.position)
      (filter (λ x. x.appointment_id == id) s.appointment_extras)

abbrev pub resolve_replacement :
    Instant
    → Appointment
    → Appointment
    → List AppointmentExtraInput
    → List AppointmentExtra
    → Action (Option (List ExtraSnapshot))
resolve_replacement now current candidate extras existing = do
  throw_if
      (not (is_booked current.status)
        || not (is_booked candidate.status)
        || has_text current.series_id)
      extras_not_editable
  snapshots ← resolve_appointment_extra_snapshots now (some current.location_id) extras existing
  pure (some snapshots)

abbrev pub compare_extras :
    Instant
    → Appointment
    → Appointment
    → List AppointmentExtraInput
    → Action (Option (List ExtraSnapshot))
compare_extras now current candidate extras s =
    let existing = current_extras current.id s in
    if appointment_extras_selection_changed extras existing
    then resolve_replacement now current candidate extras existing s
    else finished none s

-- `replacementExtras`, or `none` unless `extrasChanged`.
unfoldable pub replacement_extras :
    Instant
    → Appointment
    → Appointment
    → Option (List AppointmentExtraInput)
    → Action (Option (List ExtraSnapshot))
replacement_extras now current candidate none = pure none
replacement_extras now current candidate (some extras) =
    validate_appointment_extra_inputs extras >> compare_extras now current candidate extras

-- `notificationContextChanged`
abbrev pub context_changed : Changes → Bool
context_changed c =
    c.start_changed || c.barber_changed || c.service_changed || c.service_name_changed
    || c.duration_changed || c.contact_changed || c.delivery_preference_changed || c.status_changed

-- `updated`
unfoldable pub updated_row : MemoryStorage → Changes → Appointment → Appointment
updated_row s changes current =
    if changes.any_changed
    then record (with_compensation s current changes.candidate) {
      notification_revision =
          if context_changed changes
          then current.notification_revision + 1
          else current.notification_revision;
    }
    else current

abbrev pub store_if : Bool → ℕ → Appointment → MemoryStorage → MemoryStorage
store_if b id updated s = if b then store_row id updated s else s

abbrev pub replace_extras : ℕ → Option (List ExtraSnapshot) → MemoryStorage → MemoryStorage
replace_extras id none s = s
replace_extras id (some snapshots) s = record s {
  appointment_extras =
      filter (λ x. not (x.appointment_id == id)) s.appointment_extras ++ map (attach id) snapshots;
}

abbrev pub event_label : AppointmentNotificationEventType → KeyLabel
event_label appointment_rescheduled = KeyLabel.rescheduled
event_label appointment_updated = KeyLabel.updated
event_label _ = KeyLabel.cancelled

abbrev pub previous_start : AppointmentNotificationEventType → Instant → Option Instant
previous_start appointment_rescheduled start = some start
previous_start appointment_cancelled start = some start
previous_start _ start = none

abbrev pub new_start : AppointmentNotificationEventType → Instant → Option Instant
new_start appointment_rescheduled start = some start
new_start _ start = none

unfoldable pub change_event :
    Instant
    → Appointment
    → Appointment
    → AppointmentNotificationEventType
    → ℕ
    → AppointmentNotificationEvent
change_event now current updated event_type id =
    new_event id current.id event_type updated.notification_revision
      (appointment_key current.id (event_label event_type) updated.notification_revision) now
      updated.start_time (previous_start event_type current.start_time)
      (new_start event_type updated.start_time) now

abbrev pub report_change :
    Instant
    → Bool
    → Appointment
    → Appointment
    → Option AppointmentNotificationEventType
    → Action (Option AppointmentNotificationEvent)
report_change now create current updated none s = finished none s
report_change now create current updated (some event_type) s =
    if create
    then finished (some (change_event now current updated event_type s.next_event))
        (push_event (change_event now current updated event_type) s)
    else finished none s

abbrev pub remind_if : Bool → Instant → Appointment → Option Instant → MemoryStorage → MemoryStorage
remind_if b now updated at s = if b then reminder_event now updated at s else s

-- What is written to the tables of appointments, extras and series.
abbrev pub change_rows :
    Instant
    → Changes
    → Appointment
    → Appointment
    → Option (List ExtraSnapshot)
    → MemoryStorage
    → MemoryStorage
change_rows now changes current updated replacement s =
    let t =
      replace_extras current.id replacement (store_if changes.any_changed current.id updated s) in
    if context_changed changes then bump_series now current.series_id t else t

-- The reminder of the changed appointment, and the result.
abbrev pub finish_change :
    Instant
    → Appointment
    → Changes
    → Appointment
    → Option Instant
    → Option AppointmentNotificationEvent
    → Action (Option ChangeResult)
finish_change now current changes updated reminder_available_at event = do
  modify (
      remind_if (context_changed changes && is_booked updated.status) now updated
        reminder_available_at)
  pure (some (record { appointment = updated; notification_event = event }))

unfoldable pub write_changes :
    Instant
    → Bool
    → Option Instant
    → Appointment
    → Changes
    → Option (List ExtraSnapshot)
    → Action (Option ChangeResult)
write_changes now create reminder_available_at current changes replacement s =
    let updated = updated_row s changes current in
    after
      (report_change now create current updated changes.notification_event_type
        (change_rows now changes current updated replacement s))
      (finish_change now current changes updated reminder_available_at)

abbrev pub check_candidate : Changes → Appointment → Action (Unit {0})
check_candidate changes current s =
    if changes.any_changed
    then assert_no_appointment_conflict changes.candidate (some current.id) s
    else finished tt s

abbrev pub apply_changes :
    Instant
    → Bool
    → Option Instant
    → Appointment
    → Changes
    → Option (List ExtraSnapshot)
    → Action (Option ChangeResult)
apply_changes now create reminder_available_at current changes replacement s =
    if not changes.any_changed && not (is_some replacement)
    then finished (some (record { appointment = current; notification_event = none })) s
    else (check_candidate changes current
          >> write_changes now create reminder_available_at current changes replacement)
        s

-- `safePatch`
abbrev pub without_revision : Patch → Patch
without_revision patch = record patch { notification_revision = none }

abbrev pub change_row :
    Instant
    → Patch
    → Bool
    → Option AppointmentStatus
    → Option (List AppointmentExtraInput)
    → Option Instant
    → Appointment
    → Action (Option ChangeResult)
change_row now patch create expected extras reminder_available_at current s =
    if is_unexpected expected current.status
    then finished none s
    else let changes = get_appointment_update_changes current (without_revision patch) in
      (replacement_extras now current changes.candidate extras
          >>= apply_changes now create reminder_available_at current changes)
        s

unfoldable pub update_appointment_with_notification :
    Instant
    → ℕ
    → Patch
    → Bool
    → Option AppointmentStatus
    → Option (List AppointmentExtraInput)
    → Option Instant
    → Action (Option ChangeResult)
update_appointment_with_notification now id patch create expected extras reminder_available_at =
    on_row id (change_row now patch create expected extras reminder_available_at)
