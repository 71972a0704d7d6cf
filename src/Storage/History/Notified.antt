-- ===== src/Storage/History/Notified.antt =====
-- `updateAppointmentWithNotification` (server/storage.ts) leaves true of a row what its patch leaves
-- true.
use barber_bookings.Common.{
  ℕ, Bool, true, false, not, ◌&&◌, List, Option, none, some, ◌≡◌, refl, sym, ◌∙◌, inl, inr,
  Bool-cases, find?, is_some, if◌then◌else◌,
}
use barber_bookings.Schema.{Appointment, Instant}
use barber_bookings.Schema.Enums.{AppointmentStatus, is_booked}
use barber_bookings.Schema.Events.{AppointmentNotificationEventType}
use barber_bookings.Storage.State.{
  MemoryStorage, finished, has_id, bump_series, AppointmentExtraInput, ExtraSnapshot,
}
use barber_bookings.Storage.Invariant.{EndsIn, EndsIn-bind, EndsIn-map, assert-cases}
use barber_bookings.Storage.Conflict.{assert_no_appointment_conflict}
use barber_bookings.Storage.Creation.Rows.{reminder_event-appointments}
use barber_bookings.Storage.Patch.{Changes, Patch, apply_patch, get_appointment_update_changes}
use barber_bookings.Storage.Change.{is_unexpected}
use barber_bookings.Storage.Notify.{
  apply_changes, change_row, change_rows, check_candidate, context_changed, finish_change,
  remind_if, replace_extras, replacement_extras, report_change, store_if,
  update_appointment_with_notification, updated_row, without_revision, write_changes,
}
use barber_bookings.Storage.Notifying.{changes_id}
use barber_bookings.Storage.Notifying.Compares.{replacement_extras-Reads}
use barber_bookings.Storage.Notifying.Runs.{updated_row_id}
use barber_bookings.Storage.History.{
  Holds, Holds-same, Holds-store, Lasts, Permits, bump_series-appointments, on_row-Holds,
  with_compensation-Lasts,
}
use barber_bookings.Storage.History.Steps.{if-EndsIn}

replace_extras-appointments :
    (k : ℕ) (replacement : Option (List ExtraSnapshot)) (s : MemoryStorage)
    → (replace_extras k replacement s).appointments ≡ s.appointments
replace_extras-appointments k none s = refl
replace_extras-appointments k (some snapshots) s = refl

report_change-appointments :
    (now : Instant) (create : Bool) (current updated : Appointment)
    (kind : Option AppointmentNotificationEventType) (s : MemoryStorage)
    → EndsIn
        (λ t. t.appointments ≡ s.appointments)
        (report_change now create current updated kind s)
report_change-appointments now create current updated none s = refl
report_change-appointments now true current updated (some kind) s = refl
report_change-appointments now false current updated (some kind) s = refl

remind_if-appointments :
    (b : Bool) (now : Instant) (a : Appointment) (at : Option Instant) (s : MemoryStorage)
    → (remind_if b now a at s).appointments ≡ s.appointments
remind_if-appointments true now a at s = reminder_event-appointments now a at s
remind_if-appointments false now a at s = refl

check_candidate-Reads :
    (changes : Changes) (current : Appointment) (s : MemoryStorage)
    → EndsIn (λ t. t ≡ s) (check_candidate changes current s)
check_candidate-Reads changes current s = by_case changes.any_changed
  where
    checked :
        EndsIn (λ t. t ≡ s) (assert_no_appointment_conflict changes.candidate (some current.id) s)
    checked = elim (assert-cases changes.candidate (some current.id) s) [
      | inl refused ↦ rw (refused, EndsIn) refl
      | inr (passed, apart) ↦ rw (passed, EndsIn) refl
    ]

    by_case :
        (b : Bool)
        → EndsIn
            (λ t. t ≡ s)
            (if b
              then assert_no_appointment_conflict changes.candidate (some current.id) s
              else finished tt s)
    by_case true = checked
    by_case false = refl

changes_candidate :
    (current : Appointment) (p : Patch)
    → (get_appointment_update_changes current p).candidate ≡ apply_patch p current
unfolding get_appointment_update_changes
changes_candidate current p = refl

module _ (id : ℕ) (P : Appointment → Type 0) (lasts : Lasts P) where
  updated_row-Lasts :
      (s : MemoryStorage) (changes : Changes) (current : Appointment)
      → P current
      → P changes.candidate
      → P (updated_row s changes current)
  unfolding updated_row
  updated_row-Lasts s changes current p q = elim (Bool-cases changes.any_changed) [
    | inr same ↦ rw same p
    | inl changed ↦
        rw changed
          (lasts.revise _ _ (with_compensation-Lasts id P lasts s current changes.candidate q))
  ]

  module _ (now : Instant) (current : Appointment) (changes : Changes)
      (replacement : Option (List ExtraSnapshot)) (s : MemoryStorage) (h : Holds id P s)
      (found : find? (has_id current.id) s.appointments ≡ some current)
      (same : changes.candidate.id ≡ current.id)
      (keep : current.id ≡ id → P current → P changes.candidate) where
    store_if-Holds :
        (b : Bool) → Holds id P (store_if b current.id (updated_row s changes current) s)
    store_if-Holds false = h
    store_if-Holds true =
        Holds-store id P current (updated_row s changes current) s found
          (updated_row_id s changes current same)
          (λ own held. updated_row-Lasts s changes current held (keep own held)) h

    change_rows-Holds :
        Holds id P (change_rows now changes current (updated_row s changes current) replacement s)
    change_rows-Holds =
        Holds-same id P stored.appointments _
          (bumped (context_changed changes)
            ∙ replace_extras-appointments current.id replacement stored)
          (store_if-Holds changes.any_changed)
      where
        stored : MemoryStorage
        stored = store_if changes.any_changed current.id (updated_row s changes current) s

        t : MemoryStorage
        t = replace_extras current.id replacement stored

        bumped :
            (b : Bool)
            → (if b then bump_series now current.series_id t else t).appointments ≡ t.appointments
        bumped true = bump_series-appointments now current.series_id t
        bumped false = refl

    write_changes-Holds :
        (create : Bool) (at : Option Instant)
        → EndsIn (Holds id P) (write_changes now create at current changes replacement s)
    unfolding write_changes
    write_changes-Holds create at =
        EndsIn-bind (report_change now create current updated changes.notification_event_type rows)
          (finish_change now current changes updated at)
          (EndsIn-map
            (report_change now create current updated changes.notification_event_type rows)
            (λ t e. Holds-same id P rows.appointments t.appointments e change_rows-Holds)
            (report_change-appointments now create current updated changes.notification_event_type
              rows))
          (λ t w. w)
          (λ event t w.
            Holds-same id P t.appointments _
              (remind_if-appointments (context_changed changes && is_booked updated.status) now
                updated at t)
              w)
      where
        updated : Appointment
        updated = updated_row s changes current

        rows : MemoryStorage
        rows = change_rows now changes current updated replacement s

    apply_changes-Holds :
        (create : Bool) (at : Option Instant)
        → EndsIn (Holds id P) (apply_changes now create at current changes replacement s)
    apply_changes-Holds create at =
        if-EndsIn (Holds id P) (not changes.any_changed && not (is_some replacement)) _ _ (λ e. h)
          (λ e.
            EndsIn-bind (check_candidate changes current s)
              (λ _. write_changes now create at current changes replacement)
              (check_candidate-Reads changes current s) (λ t q. rw q h)
              (λ _ t q. rw q (write_changes-Holds create at)))

  pub update_appointment_with_notification-Holds :
      (now : Instant) (k : ℕ) (p : Patch) (create : Bool) (expected : Option AppointmentStatus)
      (extras : Option (List AppointmentExtraInput)) (at : Option Instant) (s : MemoryStorage)
      → Permits id P k (without_revision p)
      → Holds id P s
      → EndsIn
          (Holds id P)
          (update_appointment_with_notification now k p create expected extras at s)
  unfolding update_appointment_with_notification
  update_appointment_with_notification-Holds now k p create expected extras at s permits h =
      on_row-Holds id P k (change_row now p create expected extras at) s h (λ current same found.
        if-EndsIn (Holds id P) (is_unexpected expected current.status) _ _ (λ e. h)
          (λ e.
            EndsIn-bind (replacement_extras now current (changes_of current).candidate extras s)
              (apply_changes now create at current (changes_of current))
              (replacement_extras-Reads now current (changes_of current).candidate extras s)
              (λ t q. rw q h)
              (λ replacement t q. rw q (
                apply_changes-Holds now current (changes_of current) replacement s h found
                  (changes_id current (without_revision p))
                  (λ own held. candidate current (permits (sym same ∙ own) current held)) create
                  at))))
    where
      changes_of : Appointment → Changes
      changes_of current = get_appointment_update_changes current (without_revision p)

      candidate :
          (current : Appointment)
          → P (apply_patch (without_revision p) current)
          → P (changes_of current).candidate
      candidate current q = rw (changes_candidate current (without_revision p)) q
