-- ===== src/Storage/Safety.antt =====
-- About the methods of `MemoryStorage` (server/storage.ts), on the paths that return and on those
-- that throw.
use barber_bookings.Common.{ℕ, Bool, List, ◌++◌, Option, ◌≡◌}
use barber_bookings.Schema.{Appointment, Instant}
use barber_bookings.Schema.Enums.{AppointmentStatus}
use barber_bookings.Storage.State.{
  AppointmentExtraInput, CreateRequest, MemoryStorage, Run, finished, threw,
}
use barber_bookings.Storage.Invariant.{Grown, IsConsistent}
use barber_bookings.Storage.Create.{create_appointments}
use barber_bookings.Storage.Creation.{Commits, create_appointments-Commits}
use barber_bookings.Storage.Creation.Rows.{AnswersEach, Returns, create_appointments-Pushes}
use barber_bookings.Storage.Patch.{Patch}
use barber_bookings.Storage.Change.{reschedule_appointment, update_appointment}
use barber_bookings.Storage.Updating.{reschedule_appointment-Keeps, update_appointment-Keeps}
use barber_bookings.Storage.Updating.Rows.{Keeps}
use barber_bookings.Storage.Notify.{update_appointment_with_notification}
use barber_bookings.Storage.Notifying.{update_appointment_with_notification-Keeps}
use barber_bookings.Storage.Series.{RecurringResult, create_recurring_appointment_series}
use barber_bookings.Storage.Series.Requests.{RecurringRequest}
use barber_bookings.Storage.Recurring.{create_recurring_appointment_series-Keeps}
use barber_bookings.Storage.Recurring.Rows.{Inserted, create_recurring_appointment_series-Inserted}
use barber_bookings.Storage.Service.{delete_service, delete_service-Keeps}

-- A call that returns leaves consistent tables, and one that throws leaves the tables as they were.
abbrev pub IsSafe : {A : Type 0} → MemoryStorage → Run A → Type 0
IsSafe s (finished a t) = IsConsistent t
IsSafe s (threw e t) = t ≡ s

-- A call that returns pushed one row for each request, in order, and returns these rows; other tables
-- only grow at their ends, and all are consistent. One that throws leaves the tables as they were.
abbrev pub Creates : MemoryStorage → List CreateRequest → Run (List Appointment) → Type 0
Creates s rs (finished created t) =
    (t.appointments ≡ s.appointments ++ created)
    × AnswersEach rs created
    × Grown s t
    × IsConsistent t
Creates s rs (threw e t) = t ≡ s

-- A call that returns inserted the whole series into tables that are consistent, and one that throws
-- leaves the tables as they were.
abbrev pub CreatesSeries : MemoryStorage → RecurringRequest → Run RecurringResult → Type 0
CreatesSeries s request (finished r t) = Inserted s request r t × IsConsistent t
CreatesSeries s request (threw e t) = t ≡ s

IsSafe-of_Keeps :
    {A : Type 0} (s : MemoryStorage) (m : Run A) → Keeps s m → IsConsistent s → IsSafe s m
IsSafe-of_Keeps s (finished a t) k c = k c
IsSafe-of_Keeps s (threw e t) k c = k

Creates-of_Commits :
    (s : MemoryStorage) (rs : List CreateRequest) (m : Run (List Appointment))
    → Commits s m
    → Returns (λ created t. (t.appointments ≡ s.appointments ++ created) × AnswersEach rs created) m
    → IsConsistent s
    → Creates s rs m
Creates-of_Commits s rs (finished created t) (g, f) (rows, each) c = (rows, each, g, f c)
Creates-of_Commits s rs (threw e t) k _ c = k

CreatesSeries-of_Keeps :
    (s : MemoryStorage) (request : RecurringRequest) (m : Run RecurringResult)
    → Keeps s m
    → Returns (Inserted s request) m
    → IsConsistent s
    → CreatesSeries s request m
CreatesSeries-of_Keeps s request (finished r t) k inserted c = (inserted, k c)
CreatesSeries-of_Keeps s request (threw e t) k _ c = k

-- Creating appointments is all or nothing, on a consistent storage. If the call returns, it pushed one
-- row for each request, in order, at the end of the table of appointments, and returns these rows; a
-- row has the location, barber, service, start, duration, customer's name and phone, status and token
-- of its request. The tables of extras and events only grew at their ends, and the storage is
-- consistent: ids are distinct, and no two booked appointments of a barber overlap. If it throws, for
-- any of the requests, the storage is exactly what it was.
pub create_appointments-Creates :
    (now : Instant) (rs : List CreateRequest) (s : MemoryStorage)
    → IsConsistent s
    → Creates s rs (create_appointments now rs s)
create_appointments-Creates now rs s =
    Creates-of_Commits s rs (create_appointments now rs s) (create_appointments-Commits now rs s)
      (create_appointments-Pushes now rs s)

-- Creating a recurring series on a consistent storage is all or nothing. If it returns, it pushed one
-- row for each occurrence, in order, under the id of the series and the index of the occurrence, and
-- returns these rows; it pushed the series and, after the reminders, the event of the result; extras
-- are as they were; no occurrence double-books its barber and the storage is consistent. If it throws,
-- for an invalid request, a known series id or a conflict of any occurrence, the storage is what it
-- was.
pub create_recurring_appointment_series-CreatesSeries :
    (now : Instant) (request : RecurringRequest) (s : MemoryStorage)
    → IsConsistent s
    → CreatesSeries s request (create_recurring_appointment_series now request s)
create_recurring_appointment_series-CreatesSeries now request s =
    CreatesSeries-of_Keeps s request (create_recurring_appointment_series now request s)
      (create_recurring_appointment_series-Keeps now request s)
      (create_recurring_appointment_series-Inserted now request s)

-- `updateAppointmentWithNotification` on a consistent storage leaves it consistent if it returns, with
-- or without a change, and leaves it as it was if it throws, for a conflict or for the extras.
pub update_appointment_with_notification-IsSafe :
    (now : Instant) (id : ℕ) (p : Patch) (create : Bool) (expected : Option AppointmentStatus)
    (extras : Option (List AppointmentExtraInput)) (at : Option Instant) (s : MemoryStorage)
    → IsConsistent s
    → IsSafe s (update_appointment_with_notification now id p create expected extras at s)
update_appointment_with_notification-IsSafe now id p create expected extras at s =
    IsSafe-of_Keeps s (update_appointment_with_notification now id p create expected extras at s)
      (update_appointment_with_notification-Keeps now id p create expected extras at s)

-- `rescheduleAppointment` on a consistent storage leaves it consistent if it returns, moved or not,
-- and leaves it as it was if the new time conflicts.
pub reschedule_appointment-IsSafe :
    (now : Instant) (id revision : ℕ) (start : Instant) (at : Option Instant) (s : MemoryStorage)
    → IsConsistent s
    → IsSafe s (reschedule_appointment now id revision start at s)
reschedule_appointment-IsSafe now id revision start at s =
    IsSafe-of_Keeps s (reschedule_appointment now id revision start at s)
      (reschedule_appointment-Keeps now id revision start at s)

-- `updateAppointment` on a consistent storage leaves it consistent if it returns, for any patch and
-- expected status, and leaves it as it was if the patched row conflicts.
pub update_appointment-IsSafe :
    (now : Instant) (id : ℕ) (p : Patch) (expected : Option AppointmentStatus) (s : MemoryStorage)
    → IsConsistent s
    → IsSafe s (update_appointment now id p expected s)
update_appointment-IsSafe now id p expected s =
    IsSafe-of_Keeps s (update_appointment now id p expected s)
      (update_appointment-Keeps now id p expected s)

-- `deleteService` on a consistent storage takes the service from every row and leaves it consistent,
-- and leaves it as it was if a coming booked appointment has the service.
pub delete_service-IsSafe :
    (now : Instant) (id : ℕ) (s : MemoryStorage)
    → IsConsistent s
    → IsSafe s (delete_service now id s)
delete_service-IsSafe now id s =
    IsSafe-of_Keeps s (delete_service now id s) (delete_service-Keeps now id s)
