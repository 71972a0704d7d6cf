-- ===== src/Storage/Notifying.antt =====
-- About `updateAppointmentWithNotification` (server/storage.ts) and the invariant of the tables.
pub mod Compares
pub mod Runs
use barber_bookings.Common.{
  ℕ, ◌<◌, Bool, true, false, not, ◌&&◌, List, [], ◌∷◌, Option, none, some, ◌≡◌, ◌≢◌, refl, sym, ap,
  ◌∙◌, ◌⊎◌, arith, inl, inr, All, All-append, All-map, Bool-cases, filter, find?, is_some,
  if◌then◌else◌, ◌==◌,
}
use mathlib.Core.Bool.{false≢true}
use barber_bookings.Schema.{Appointment, AppointmentExtra, Instant}
use barber_bookings.Schema.Enums.{AppointmentStatus, is_booked, is_completed}
use barber_bookings.Schema.Events.{AppointmentNotificationEvent, AppointmentNotificationEventType}
use barber_bookings.Storage.State.{
  MemoryStorage, Action, Run, finished, threw, after, pure, has_id, AppointmentExtraInput,
  ExtraSnapshot, new_event, throw_if, appointment_conflict,
}
use barber_bookings.Storage.Conflict.{Compatible, assert_no_appointment_conflict}
use barber_bookings.Storage.Invariant.{IsConsistent, assert-cases, push_event-IsConsistent, EndsIn}
use barber_bookings.Storage.Creation.{All-attach}
use barber_bookings.Storage.Creation.Reading.{Reads, Reads-bind, resolve-Reads, validate-Reads}
use barber_bookings.Storage.Extras.{appointment_extras_selection_changed}
use barber_bookings.Storage.Patch.{Patch, Changes, get_appointment_update_changes, apply_patch}
use barber_bookings.Storage.Change.{is_unexpected}
use barber_bookings.Storage.Updating.{reminder_event-IsConsistent}
use barber_bookings.Storage.Updating.Rows.{
  Keeps, on_row-Keeps, find?-All, found_id, store_row-IsConsistent, bump_series-IsConsistent,
  other_id, with_compensation_id,
}
use barber_bookings.Storage.Notify.{
  replacement_extras, compare_extras, resolve_replacement, current_extras, updated_row, store_if,
  replace_extras, change_event, report_change, remind_if, change_rows, write_changes,
  check_candidate, apply_changes, change_row, finish_change, without_revision,
  update_appointment_with_notification, context_changed,
}
use barber_bookings.Storage.Notifying.Compares.{
  replacement_extras-Reads, replace_extras-IsConsistent,
}
use barber_bookings.Storage.Notifying.Runs.{
  Total, Total-bind, Keeps-of_Total, Keeps-of_Reads, Total-map, if-Keeps, if-IsConsistent,
  remind_if-IsConsistent, report_change-Total, updated_row-Compatible, updated_row_id,
}

module _ (now : Instant) (current : Appointment) (changes : Changes)
    (replacement : Option (List ExtraSnapshot)) (s : MemoryStorage)
    (found : find? (has_id current.id) s.appointments ≡ some current)
    (same : changes.candidate.id ≡ current.id) where
  -- No row but its own stands in the way of the changed one.
  abbrev IsFree : Type 0
  IsFree =
      changes.any_changed ≡ true
      → All (λ b. b.id ≢ current.id → Compatible changes.candidate b) s.appointments

  abbrev updated : Appointment
  updated = updated_row s changes current

  store_if-IsConsistent :
      IsFree → IsConsistent s → IsConsistent (store_if changes.any_changed current.id updated s)
  store_if-IsConsistent free c =
      if-IsConsistent changes.any_changed _ _
        (λ e.
          store_row-IsConsistent current.id current updated s found
            (updated_row_id s changes current same)
            (All-map (λ b f ne. updated_row-Compatible s changes current b e (f ne)) _ (free e)) c)
        c

  change_rows-IsConsistent :
      IsFree → IsConsistent s → IsConsistent (change_rows now changes current updated replacement s)
  change_rows-IsConsistent free c =
      if-IsConsistent (context_changed changes) _ _
        (λ e. bump_series-IsConsistent now current.series_id _ rows) rows
    where
      t : MemoryStorage
      t = store_if changes.any_changed current.id updated s

      counter :
          (b : Bool) (u : Appointment)
          → (store_if b current.id u s).next_appointment ≡ s.next_appointment
      counter true u = refl
      counter false u = refl

      owned : current.id < t.next_appointment
      owned =
          rw (counter changes.any_changed updated)
            (find?-All (λ a. a.id < s.next_appointment) _ s.appointments found c.fresh)

      rows : IsConsistent (replace_extras current.id replacement t)
      rows =
          replace_extras-IsConsistent current.id replacement t owned (store_if-IsConsistent free c)

  write_changes-Total :
      (create : Bool) (at : Option Instant)
      → IsFree
      → Total
          (λ t. IsConsistent s → IsConsistent t)
          (write_changes now create at current changes replacement s)
  unfolding write_changes
  write_changes-Total create at free =
      Total-bind (λ t. IsConsistent s → IsConsistent t) (λ t. IsConsistent s → IsConsistent t)
        (report rows) (finish_change now current changes updated at)
        (Total-map (λ t. IsConsistent rows → IsConsistent t) (λ t. IsConsistent s → IsConsistent t)
          (report rows) (λ t f c. f (change_rows-IsConsistent free c))
          (report_change-Total now create current updated changes.notification_event_type rows))
        (λ e t f c.
          remind_if-IsConsistent (context_changed changes && is_booked updated.status) now updated
            at t (f c))
    where
      rows : MemoryStorage
      rows = change_rows now changes current updated replacement s

      report : Action (Option AppointmentNotificationEvent)
      report = report_change now create current updated changes.notification_event_type

  -- The check refuses and changes nothing, or finds no row in the way.
  check_candidate-cases :
      (check_candidate changes current s ≡ threw appointment_conflict s)
      ⊎ ((check_candidate changes current s ≡ finished tt s) × IsFree)
  check_candidate-cases = elim (Bool-cases changes.any_changed) [
    | inr e ↦ inr (
      ap (λ b. if b then assert_candidate else finished tt s) e,
      λ f. absurd (false≢true (sym e ∙ f)),
    )
    | inl e ↦ elim (assert-cases changes.candidate (some current.id) s) [
      | inl refused ↦ inl (ap (λ b. if b then assert_candidate else finished tt s) e ∙ refused)
      | inr (passed, apart) ↦ inr (
        ap (λ b. if b then assert_candidate else finished tt s) e ∙ passed,
        λ _. All-map (λ b f ne. f (other_id current.id b.id ne)) _ apart,
      )
    ]
  ]
    where
      assert_candidate : Run (Unit {0})
      assert_candidate = assert_no_appointment_conflict changes.candidate (some current.id) s

  checked-Keeps :
      (create : Bool) (at : Option Instant)
      → Keeps s (
          after
            (check_candidate changes current s)
            (λ _. write_changes now create at current changes replacement))
  checked-Keeps create at = elim check_candidate-cases [
    | inl refused ↦ rw (refused, Keeps) refl
    | inr (passed, free) ↦
        rw (passed, Keeps)
          (Keeps-of_Total s (write_changes now create at current changes replacement s)
            (write_changes-Total create at free))
  ]

  apply_changes-Keeps :
      (create : Bool) (at : Option Instant)
      → Keeps s (apply_changes now create at current changes replacement s)
  apply_changes-Keeps create at =
      if-Keeps s (not changes.any_changed && not (is_some replacement)) _ _ (λ c. c)
        (checked-Keeps create at)

pub changes_id :
    (current : Appointment) (p : Patch)
    → (get_appointment_update_changes current p).candidate.id ≡ current.id
unfolding get_appointment_update_changes apply_patch
changes_id current p = refl

-- `updateAppointmentWithNotification` keeps the tables consistent: ids stay distinct, no barber is
-- double-booked, every extra belongs to an appointment id that was given out, and events have ids of
-- their own. If it throws, for a conflict or for the extras, the storage is what it was.
pub update_appointment_with_notification-Keeps :
    (now : Instant) (id : ℕ) (p : Patch) (create : Bool) (expected : Option AppointmentStatus)
    (extras : Option (List AppointmentExtraInput)) (at : Option Instant) (s : MemoryStorage)
    → Keeps s (update_appointment_with_notification now id p create expected extras at s)
unfolding update_appointment_with_notification
update_appointment_with_notification-Keeps now id p create expected extras at s =
    on_row-Keeps id (change_row now p create expected extras at) s (λ current found.
      if-Keeps s (is_unexpected expected current.status) _ _ (λ c. c)
        (Keeps-of_Reads s (replacement_extras now current (changes_of current).candidate extras s)
          (apply_changes now create at current (changes_of current))
          (replacement_extras-Reads now current (changes_of current).candidate extras s)
          (λ replacement.
            apply_changes-Keeps now current (changes_of current) replacement s
              (ap (λ k. find? (has_id k) s.appointments) (found_id id s.appointments current found)
                ∙ found)
              (changes_id current (without_revision p)) create at)))
  where
    changes_of : Appointment → Changes
    changes_of current = get_appointment_update_changes current (without_revision p)
