-- ===== src/Storage/Updating.antt =====
-- About the methods of Storage/Change (server/storage.ts) and the invariant of the tables.
pub mod Rows
use barber_bookings.Common.{
  ℕ, String, Bool, true, false, not, ◌||◌, List, [], ◌∷◌, Option, none, some, ◌≡◌, ◌≢◌, refl, sym,
  ap, ◌∙◌, ◌⊎◌, ◌==◌, arith, inl, inr, All, All-map, Bool-cases, Option-cases, find?, ==_iff,
  if◌then◌else◌,
}
use barber_bookings.Common.Sort.{In-find?}
use barber_bookings.Schema.{Appointment, Instant}
use barber_bookings.Schema.Enums.{
  booked, cancelled, late_cancelled, AppointmentStatus, AppointmentPaymentMethod, is_booked,
  status_eq,
}
use barber_bookings.Storage.State.{
  MemoryStorage, Action, Run, finished, threw, ◌>>◌, after, has_id, new_event, bump_series,
  has_text, appointment_conflict,
}
use barber_bookings.Storage.Conflict.{Compatible, assert_no_appointment_conflict}
use barber_bookings.Storage.Table.{All-replace, Pairwise-replace}
use barber_bookings.Storage.Invariant.{IsConsistent, assert-cases, push_event-IsConsistent, All-of}
use barber_bookings.Storage.Create.{reminder_event}
use barber_bookings.Storage.Creation.{reminder_event-Adds}
use barber_bookings.Storage.Patch.{Patch, apply_patch}
use barber_bookings.Storage.Change.{
  is_unexpected, with_compensation, store_row, on_row, write_checked, update_appointment,
  rescheduled_event, moved, reschedule_appointment, cancelled_event, called_off, cancel_appointment,
  update_appointment_status, update_appointment_status_if_current, status_patch, update_row,
  reschedule_row, cancel_row, update_status_if_current, write_row, report_move, finish,
}
use barber_bookings.Storage.Updating.Rows.{
  Keeps, written-IsConsistent, on_row-Keeps, checked-Keeps, with_compensation_id, apply_patch_id,
}

-- `updateAppointment` keeps the tables consistent: ids stay distinct and no barber is double-booked.
-- If it throws, the storage is what it was.
pub update_appointment-Keeps :
    (now : Instant) (id : ℕ) (p : Patch) (expected : Option AppointmentStatus) (s : MemoryStorage)
    → Keeps s (update_appointment now id p expected s)
unfolding update_appointment
update_appointment-Keeps now id p expected s =
    on_row-Keeps id (update_row now p expected) s (λ current found.
      elim (Bool-cases (is_unexpected expected current.status)) [
        | inl stale ↦ rw (stale, Keeps) (λ c. c)
        | inr fine ↦
            rw (fine, Keeps)
              (checked-Keeps now id current (with_compensation s current (apply_patch p current))
                (finish (with_compensation s current (apply_patch p current))) s found
                (with_compensation_id s current (apply_patch p current) ∙ apply_patch_id p current)
                (λ kept. kept))
      ])

pub reminder_event-IsConsistent :
    (now : Instant) (a : Appointment) (at : Option Instant) (s : MemoryStorage)
    → IsConsistent s
    → IsConsistent (reminder_event now a at s)
reminder_event-IsConsistent now a at s = (reminder_event-Adds now a at s).1

-- `rescheduleAppointment` keeps the tables consistent, and changes nothing if it throws.
pub reschedule_appointment-Keeps :
    (now : Instant) (id revision : ℕ) (start : Instant) (at : Option Instant) (s : MemoryStorage)
    → Keeps s (reschedule_appointment now id revision start at s)
unfolding reschedule_appointment rescheduled_event new_event
reschedule_appointment-Keeps now id revision start at s =
    on_row-Keeps id (reschedule_row now revision start at) s (λ current found.
      elim (Bool-cases
        (not (is_booked current.status) || not (current.reschedule_revision == revision))) [
          | inl stale ↦ rw (stale, Keeps) (λ c. c)
          | inr fine ↦
              rw (fine, Keeps)
                (checked-Keeps now id current (moved start current)
                  (report_move now current (moved start current) at) s found refl
                  (λ kept c. reminder_event-IsConsistent now (moved start current) at _ (
                    push_event-IsConsistent (rescheduled_event now current (moved start current)) _
                      (λ n. refl) (kept c))))
        ])

late_or_cancelled : (late : Bool) → (if late then late_cancelled else cancelled) ≢ booked
late_or_cancelled true e = ground arith
late_or_cancelled false e = ground arith

-- `cancelAppointment` keeps the tables consistent.
pub cancel_appointment-Keeps :
    (now : Instant) (id : ℕ) (late : Bool) (s : MemoryStorage)
    → Keeps s (cancel_appointment now id late s)
unfolding cancel_appointment cancelled_event new_event
cancel_appointment-Keeps now id late s = on_row-Keeps id (cancel_row now late) s (λ current found.
    elim (Bool-cases (is_booked current.status)) [
      | inr over ↦ rw (over, Keeps) (λ c. c)
      | inl open_row ↦
          rw (open_row, Keeps)
            (λ c.
              push_event-IsConsistent (cancelled_event now current (called_off now late current)) _
                (λ n. refl)
                (written-IsConsistent now id current (called_off now late current) s found refl
                  (All-of (λ b ne p. absurd (late_or_cancelled late p)) s.appointments) c))
    ])

-- `updateAppointmentStatus` keeps the tables consistent, and changes nothing if it throws.
pub update_appointment_status-Keeps :
    (now : Instant) (id : ℕ) (status : AppointmentStatus) (method : Option AppointmentPaymentMethod)
    (s : MemoryStorage)
    → Keeps s (update_appointment_status now id status method s)
unfolding update_appointment_status
update_appointment_status-Keeps now id status method s =
    update_appointment-Keeps now id (status_patch now id status method s) none s

pub update_appointment_status_if_current-Keeps :
    (now : Instant) (id : ℕ) (from to : AppointmentStatus)
    (method : Option AppointmentPaymentMethod) (s : MemoryStorage)
    → Keeps s (update_appointment_status_if_current now id from to method s)
unfolding update_appointment_status_if_current
update_appointment_status_if_current-Keeps now id from to method s =
    on_row-Keeps id (update_status_if_current now id from to method) s (λ current found.
      elim (Bool-cases (status_eq current.status from)) [
        | inr stale ↦ rw (stale, Keeps) (λ c. c)
        | inl fine ↦ rw (fine, Keeps) (update_appointment_status-Keeps now id to method s)
      ])
