-- ===== src/Storage/Lock/Cancelled.antt =====
-- About `cancelAppointment` (server/storage.ts), called again on one row after any other calls, and a
-- reschedule of a cancelled row.
use barber_bookings.Common.{
  ℕ, Bool, true, false, not, ◌||◌, List, Option, none, some, ◌≡◌, refl, ap, inl, inr, All, All-map,
  Bool-cases, if◌then◌else◌, ◌==◌,
}
use barber_bookings.Schema.{Appointment, Instant}
use barber_bookings.Schema.Enums.{AppointmentStatus, cancelled, is_booked, late_cancelled}
use barber_bookings.Storage.State.{MemoryStorage, finished}
use barber_bookings.Storage.Patch.{Patch, apply_patch}
use barber_bookings.Storage.Calls.{
  Call, cancel, configure, create, create_series, remove_service, reschedule, set_status,
  set_status_if, update, update_notified,
}
use barber_bookings.Storage.Change.{
  ChangeResult, cancel_appointment, cancel_row, called_off, reschedule_appointment, reschedule_row,
  status_patch,
}
use barber_bookings.Storage.Service.{detach_if}
use barber_bookings.Storage.History.{Holds, Lasts}
use barber_bookings.Storage.History.Runs.{Respects, perform_all, perform_all-Holds}
use barber_bookings.Storage.Lock.{
  Leaves, if_true, not_booked, on_row-Leaves, on_row-none, written-found,
}

ended : (b : Bool) → is_booked (if b then late_cancelled else cancelled) ≡ false
ended true = refl
ended false = refl

cancel_appointment-Leaves :
    (now : Instant) (id : ℕ) (late : Bool) (s : MemoryStorage)
    → Leaves id (λ a. is_booked a.status ≡ false) (cancel_appointment now id late s)
unfolding cancel_appointment
cancel_appointment-Leaves now id late s =
    on_row-Leaves id _ (cancel_row now late) s (λ current found.
      elim (Bool-cases (is_booked current.status)) [
        | inr over ↦ rw (over, Leaves) tt
        | inl open_row ↦
            rw (open_row, Leaves)
              (
                called_off now late current,
                (
                  written-found now id current (called_off now late current) s found refl,
                  ended late,
                ),
              )
      ])

-- A call that patches the row with the id, or sets its status, does not reopen it.
abbrev pub KeepsClosed : ℕ → Call → Type 0
KeepsClosed id (update k p expected) = k ≡ id → p.status ≡ none
KeepsClosed id (update_notified k p notify expected extras at) = k ≡ id → p.status ≡ none
KeepsClosed id (set_status k status method) = k ≡ id → is_booked status ≡ false
KeepsClosed id (set_status_if k from to method) = k ≡ id → is_booked to ≡ false
KeepsClosed id _ = Unit

abbrev IsClosed : Appointment → Type 0
IsClosed a = is_booked a.status ≡ false

IsClosed-Lasts : Lasts IsClosed
IsClosed-Lasts = record {
  move = λ start a h. h;
  call_off = λ now late a h. ended late;
  detach = detached;
  compensate = λ c a h. h;
  revise = λ m a h. h;
}
  where
    detached : (b : Bool) (a : Appointment) → IsClosed a → IsClosed (detach_if b a)
    detached true a h = h
    detached false a h = h

patch-IsClosed :
    (p : Patch) (a : Appointment) → p.status ≡ none → IsClosed a → IsClosed (apply_patch p a)
unfolding apply_patch
patch-IsClosed p a e h = rw e h

status_patch-IsClosed :
    (now : Instant) (k : ℕ) (status : AppointmentStatus) (method : Option _) (s : MemoryStorage)
    (a : Appointment)
    → is_booked status ≡ false
    → IsClosed (apply_patch (status_patch now k status method s) a)
unfolding apply_patch status_patch
status_patch-IsClosed now k status method s a e = e

KeepsClosed-Respects : (id : ℕ) (c : Call) → KeepsClosed id c → Respects id IsClosed c
KeepsClosed-Respects id (update k p expected) q = λ own a h. patch-IsClosed p a (q own) h
KeepsClosed-Respects id (update_notified k p notify expected extras at) q =
    λ own a h. patch-IsClosed _ a (q own) h
KeepsClosed-Respects id (set_status k status method) q =
    λ now s own a h. status_patch-IsClosed now k status method s a (q own)
KeepsClosed-Respects id (set_status_if k from to method) q =
    λ now s own a h. status_patch-IsClosed now k to method s a (q own)
KeepsClosed-Respects id (create rs) q = tt
KeepsClosed-Respects id (create_series r) q = tt
KeepsClosed-Respects id (reschedule k revision start at) q = tt
KeepsClosed-Respects id (cancel k late) q = tt
KeepsClosed-Respects id (remove_service k) q = tt
KeepsClosed-Respects id (configure definitions rules) q = tt

closed_row :
    (later : Instant) (id : ℕ) (late : Bool) (revision : ℕ) (start : Instant) (at : Option Instant)
    (u : MemoryStorage)
    → Holds id IsClosed u
    → (cancel_appointment later id late u ≡ finished none u)
      × (reschedule_appointment later id revision start at u ≡ finished none u)
unfolding cancel_appointment reschedule_appointment
closed_row later id late revision start at u (a, (found, over)) = (
  on_row-none id (cancel_row later late) u a found
      (if_true (not (is_booked a.status)) _ _ (ap not over)),
  on_row-none id (reschedule_row later revision start at) u a found (
      if_true (not (is_booked a.status) || not (a.reschedule_revision == revision)) _ _
        (not_booked (is_booked a.status) _ over)),
)

-- A cancelled appointment stays closed unless it is reopened. Once a cancellation went through, and
-- after any further calls of the storage, whether they return or throw, of which none patches the
-- status of that row or sets it to booked, neither another cancellation of it nor a reschedule, with
-- any revision, returns or changes anything.
pub cancel_appointment-IsFinal :
    (now : Instant) (id : ℕ) (late : Bool) (s : MemoryStorage) (r : ChangeResult)
    (t : MemoryStorage)
    → cancel_appointment now id late s ≡ finished (some r) t
    → (calls : List (Instant × Call)) → All (λ x. KeepsClosed id x.1) calls
    → (later : Instant) (again_late : Bool) (revision : ℕ) (start : Instant) (at : Option Instant)
    → (cancel_appointment later id again_late (perform_all calls t)
        ≡ finished none (perform_all calls t))
      × (reschedule_appointment later id revision start at (perform_all calls t)
          ≡ finished none (perform_all calls t))
cancel_appointment-IsFinal now id late s r t e calls keep later again_late revision start at =
    closed_row later id again_late revision start at (perform_all calls t) (
      perform_all-Holds id IsClosed IsClosed-Lasts calls t
        (All-map (λ x q. KeepsClosed-Respects id x.1 q) calls keep)
        (rw (e, Leaves) at (cancel_appointment-Leaves now id late s)))
