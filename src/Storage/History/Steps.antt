-- ===== src/Storage/History/Steps.antt =====
-- Calls of the storage (server/storage.ts), but `updateAppointmentWithNotification`, leave true of a
-- row what the methods and their patches leave true.
use barber_bookings.Common.{
  ℕ, Bool, true, false, not, List, map, Option, none, ◌≡◌, refl, sym, ◌∙◌, any, if◌then◌else◌, ◌||◌,
  ◌==◌,
}
use barber_bookings.Schema.{Appointment, Instant}
use barber_bookings.Schema.Enums.{AppointmentPaymentMethod, AppointmentStatus, is_booked, status_eq}
use barber_bookings.Storage.State.{
  MemoryStorage, Run, finished, threw, CreateRequest, service_has_future_appointments,
}
use barber_bookings.Storage.Invariant.{EndsIn}
use barber_bookings.Storage.Create.{create_appointments}
use barber_bookings.Storage.Creation.{Commits, create_appointments-Commits}
use barber_bookings.Storage.Creation.Rows.{Returns, reminder_event-appointments}
use barber_bookings.Storage.Patch.{Patch, apply_patch}
use barber_bookings.Storage.Change.{
  called_off, cancel_appointment, cancel_row, finish, is_unexpected, moved, report_move,
  reschedule_appointment, reschedule_row, status_patch, update_appointment,
  update_appointment_status, update_appointment_status_if_current, update_row,
  update_status_if_current, with_compensation,
}
use barber_bookings.Storage.Recurring.{create_recurring_appointment_series-Keeps}
use barber_bookings.Storage.Recurring.Rows.{Inserted, create_recurring_appointment_series-Inserted}
use barber_bookings.Storage.Series.{RecurringResult, create_recurring_appointment_series}
use barber_bookings.Storage.Series.Requests.{RecurringRequest}
use barber_bookings.Storage.Service.{delete_service, detach, is_upcoming}
use barber_bookings.Storage.Updating.Rows.{Keeps, apply_patch_id, with_compensation_id, written}
use barber_bookings.Storage.History.{
  Holds, Holds-detach, Holds-of_Prefix, Holds-same, Holds-written, Lasts, Permits, checked-Holds,
  on_row-Holds, with_compensation-Lasts,
}

pub if-EndsIn :
    {A : Type 0} (Q : MemoryStorage → Type 0) (b : Bool) (m n : Run A)
    → (b ≡ true → EndsIn Q m)
    → (b ≡ false → EndsIn Q n)
    → EndsIn Q (if b then m else n)
if-EndsIn Q true m n f g = f refl
if-EndsIn Q false m n f g = g refl

module _ (id : ℕ) (P : Appointment → Type 0) (lasts : Lasts P) where
  pub update_appointment-Holds :
      (now : Instant) (k : ℕ) (p : Patch) (expected : Option AppointmentStatus) (s : MemoryStorage)
      → Permits id P k p
      → Holds id P s
      → EndsIn (Holds id P) (update_appointment now k p expected s)
  unfolding update_appointment
  update_appointment-Holds now k p expected s permits h =
      on_row-Holds id P k (update_row now p expected) s h (λ current same found.
        if-EndsIn (Holds id P) (is_unexpected expected current.status) _ _ (λ e. h)
          (λ e.
            checked-Holds id P now current (with_compensation s current (apply_patch p current))
              (finish (with_compensation s current (apply_patch p current))) s h found
              (with_compensation_id s current (apply_patch p current) ∙ apply_patch_id p current)
              (λ own held.
                with_compensation-Lasts id P lasts s current (apply_patch p current)
                  (permits (sym same ∙ own) current held))
              (λ w. w)))

  pub reschedule_appointment-Holds :
      (now : Instant) (k revision : ℕ) (start : Instant) (at : Option Instant) (s : MemoryStorage)
      → Holds id P s
      → EndsIn (Holds id P) (reschedule_appointment now k revision start at s)
  unfolding reschedule_appointment
  reschedule_appointment-Holds now k revision start at s h =
      on_row-Holds id P k (reschedule_row now revision start at) s h (λ current same found.
        if-EndsIn (Holds id P)
          (not (is_booked current.status) || not (current.reschedule_revision == revision)) _ _
          (λ e. h)
          (λ e.
            checked-Holds id P now current (moved start current)
              (report_move now current (moved start current) at) s h found refl
              (λ own held. lasts.move start current held)
              (λ w.
                Holds-same id P (written now current (moved start current) s).appointments _
                  (reminder_event-appointments now (moved start current) at _) w)))

  pub cancel_appointment-Holds :
      (now : Instant) (k : ℕ) (late : Bool) (s : MemoryStorage)
      → Holds id P s
      → EndsIn (Holds id P) (cancel_appointment now k late s)
  unfolding cancel_appointment
  cancel_appointment-Holds now k late s h =
      on_row-Holds id P k (cancel_row now late) s h (λ current same found.
        if-EndsIn (Holds id P) (not (is_booked current.status)) _ _ (λ e. h)
          (λ e.
            Holds-same id P (written now current (called_off now late current) s).appointments _
              refl
              (Holds-written id P now current (called_off now late current) s found refl
                (λ own held. lasts.call_off now late current held) h)))

  pub update_appointment_status-Holds :
      (now : Instant) (k : ℕ) (status : AppointmentStatus)
      (method : Option AppointmentPaymentMethod) (s : MemoryStorage)
      → Permits id P k (status_patch now k status method s)
      → Holds id P s
      → EndsIn (Holds id P) (update_appointment_status now k status method s)
  unfolding update_appointment_status
  update_appointment_status-Holds now k status method s permits h =
      update_appointment-Holds now k (status_patch now k status method s) none s permits h

  pub update_appointment_status_if_current-Holds :
      (now : Instant) (k : ℕ) (from to : AppointmentStatus)
      (method : Option AppointmentPaymentMethod) (s : MemoryStorage)
      → Permits id P k (status_patch now k to method s)
      → Holds id P s
      → EndsIn (Holds id P) (update_appointment_status_if_current now k from to method s)
  unfolding update_appointment_status_if_current
  update_appointment_status_if_current-Holds now k from to method s permits h =
      on_row-Holds id P k (update_status_if_current now k from to method) s h (λ current same found.
        if-EndsIn (Holds id P) (status_eq current.status from) _ _
          (λ e. update_appointment_status-Holds now k to method s permits h) (λ e. h))

  pub create_appointments-Holds :
      (now : Instant) (rs : List CreateRequest) (s : MemoryStorage)
      → Holds id P s
      → EndsIn (Holds id P) (create_appointments now rs s)
  create_appointments-Holds now rs s h =
      by_run (create_appointments now rs s) (create_appointments-Commits now rs s)
    where
      by_run : (m : Run (List Appointment)) → Commits s m → EndsIn (Holds id P) m
      by_run (finished created t) (grown, _) = Holds-of_Prefix id P s t grown.appointments h
      by_run (threw e t) k = rw k h

  pub create_recurring_appointment_series-Holds :
      (now : Instant) (request : RecurringRequest) (s : MemoryStorage)
      → Holds id P s
      → EndsIn (Holds id P) (create_recurring_appointment_series now request s)
  create_recurring_appointment_series-Holds now request s h =
      by_run (create_recurring_appointment_series now request s)
        (create_recurring_appointment_series-Inserted now request s)
        (create_recurring_appointment_series-Keeps now request s)
    where
      by_run :
          (m : Run RecurringResult)
          → Returns (Inserted s request) m
          → Keeps s m
          → EndsIn (Holds id P) m
      by_run (finished r t) i _ = Holds-of_Prefix id P s t (r.appointments, i.rows) h
      by_run (threw e t) _ k = rw k h

  pub delete_service-Holds :
      (now : Instant) (service : ℕ) (s : MemoryStorage)
      → Holds id P s
      → EndsIn (Holds id P) (delete_service now service s)
  unfolding delete_service
  delete_service-Holds now service s h =
      if-EndsIn (Holds id P) (any (is_upcoming now service) s.appointments)
        (threw service_has_future_appointments s)
        (finished tt (record s { appointments = map (detach service) s.appointments })) (λ e. h)
        (λ e. Holds-detach id P service s lasts h)
