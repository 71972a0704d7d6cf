-- ===== src/Storage/Lock.antt =====
-- About `rescheduleAppointment` (server/storage.ts), called again on one row after any other calls.
pub mod Cancelled
use barber_bookings.Common.{
  ℕ, ◌+◌, ◌≤◌, Bool, true, false, not, ◌||◌, List, Option, none, some, ◌≡◌, ◌≢◌, refl, ap, ◌∙◌, inl,
  inr, arith, All, All-map, Bool-cases, Option-cases, find?, get_or, if◌then◌else◌, ◌==◌,
}
use mathlib.Core.Bool.{false≢true}
use barber_bookings.Schema.{Appointment, Instant}
use barber_bookings.Schema.Enums.{AppointmentStatus, cancelled, is_booked, late_cancelled}
use barber_bookings.Storage.State.{
  MemoryStorage, Action, Run, finished, threw, after, has_id, replace_appointment,
}
use barber_bookings.Storage.Patch.{Patch, apply_patch}
use barber_bookings.Storage.Calls.{
  Call, cancel, configure, create, create_series, remove_service, reschedule, set_status,
  set_status_if, update, update_notified,
}
use barber_bookings.Storage.Change.{
  ChangeResult, cancel_appointment, cancel_row, called_off, moved, on_row, report_move,
  reschedule_appointment, reschedule_row, status_patch, store_row, write_checked,
}
use barber_bookings.Storage.Creation.Rows.{reminder_event-appointments}
use barber_bookings.Storage.Service.{detach_if}
use barber_bookings.Storage.Updating.Rows.{written, write_checked-cases, found_id}
use barber_bookings.Storage.History.{Holds, Lasts, bump_series-appointments, find-replace}
use barber_bookings.Storage.History.Runs.{Respects, perform_all, perform_all-Holds}

-- If a call changed a row, the row that the id finds afterwards has `P`.
abbrev pub Leaves : ℕ → (Appointment → Type 0) → Run (Option ChangeResult) → Type 0
Leaves id P (finished none t) = Unit
Leaves id P (finished (some r) t) =
    (a : Appointment) × ((find? (has_id id) t.appointments ≡ some a) × P a)
Leaves id P (threw e t) = Unit

pub on_row-Leaves :
    (id : ℕ) (P : Appointment → Type 0) (k : Appointment → Action (Option ChangeResult))
    (s : MemoryStorage)
    → ((current : Appointment)
        → find? (has_id id) s.appointments ≡ some current
        → Leaves id P (k current s))
    → Leaves id P (on_row id k s)
on_row-Leaves id P k s h = elim (Option-cases (find? (has_id id) s.appointments)) [
  | inl missing ↦ rw (missing, Leaves) tt
  | inr (current, found) ↦ rw (found, Leaves) (h current found)
]

-- The row that a write puts in its place.
pub written-found :
    (now : Instant) (id : ℕ) (current u : Appointment) (s : MemoryStorage)
    → find? (has_id id) s.appointments ≡ some current
    → u.id ≡ current.id
    → find? (has_id id) (written now current u s).appointments ≡ some u
written-found now id current u s found e =
    ap (find? (has_id id))
      (bump_series-appointments now current.series_id (store_row current.id u s))
    ∙ ap (λ k. find? (has_id id) (replace_appointment k u s.appointments)) same
    ∙ find-replace id u current s.appointments (e ∙ same) found
  where
    same : current.id ≡ id
    same = found_id id s.appointments current found

same_revision : (b : Bool) (m n : ℕ) → (not b || not (m == n)) ≡ false → m ≡ n
same_revision b m n h = ground arith

stale_revision : (b : Bool) (m n : ℕ) → n + 1 ≤ m → (not b || not (m == n)) ≡ true
stale_revision b m n h = ground arith

reschedule_appointment-Leaves :
    (now : Instant) (id revision : ℕ) (start : Instant) (at : Option Instant) (s : MemoryStorage)
    → Leaves id
        (λ a. a.reschedule_revision ≡ revision + 1)
        (reschedule_appointment now id revision start at s)
unfolding reschedule_appointment
reschedule_appointment-Leaves now id revision start at s =
    on_row-Leaves id _ (reschedule_row now revision start at) s (λ current found.
      elim (Bool-cases
        (not (is_booked current.status) || not (current.reschedule_revision == revision))) [
          | inl stale ↦ rw (stale, Leaves) tt
          | inr fine ↦
              rw (fine, Leaves)
                (changed current found (same_revision (is_booked current.status) _ _ fine))
        ])
  where
    changed :
        (current : Appointment)
        → find? (has_id id) s.appointments ≡ some current
        → current.reschedule_revision ≡ revision
        → Leaves id
            (λ a. a.reschedule_revision ≡ revision + 1)
            (after
              (write_checked now current (moved start current) s)
              (λ _. report_move now current (moved start current) at))
    changed current found e = elim (write_checked-cases now current (moved start current) s) [
      | inl refused ↦ rw (refused, Leaves) tt
      | inr (passed, apart) ↦
          rw (passed, Leaves)
            (
              moved start current,
              (
                ap (find? (has_id id)) (reminder_event-appointments now (moved start current) at _)
                    ∙ written-found now id current (moved start current) s found refl,
                omega (arith, e),
              ),
            )
    ]

-- A call that no row passes changes nothing.
pub on_row-none :
    (id : ℕ) (k : Appointment → Action (Option ChangeResult)) (t : MemoryStorage) (a : Appointment)
    → find? (has_id id) t.appointments ≡ some a
    → k a t ≡ finished none t
    → on_row id k t ≡ finished none t
on_row-none id k t a found e = rw (found, on_row) e

pub if_true : {A : Type 0} (b : Bool) (x y : A) → b ≡ true → (if b then x else y) ≡ x
if_true true x y e = refl
if_true false x y e = absurd (false≢true e)

pub not_booked : (b c : Bool) → b ≡ false → (not b || c) ≡ true
not_booked b c e = ground arith

-- A call that patches the row with the id does not set its reschedule revision.
abbrev pub KeepsRevision : ℕ → Call → Type 0
KeepsRevision id (update k p expected) = k ≡ id → p.reschedule_revision ≡ none
KeepsRevision id (update_notified k p notify expected extras at) =
    k ≡ id → p.reschedule_revision ≡ none
KeepsRevision id _ = Unit

-- The revision is past `n`.
abbrev IsPast : ℕ → Appointment → Type 0
IsPast n a = n + 1 ≤ a.reschedule_revision

IsPast-Lasts : (n : ℕ) → Lasts (IsPast n)
IsPast-Lasts n = record {
  move = λ start a h. omega arith;
  call_off = λ now late a h. h;
  detach = detached;
  compensate = λ c a h. h;
  revise = λ m a h. h;
}
  where
    detached : (b : Bool) (a : Appointment) → IsPast n a → IsPast n (detach_if b a)
    detached true a h = h
    detached false a h = h

patch-IsPast :
    (n : ℕ) (p : Patch) (a : Appointment)
    → p.reschedule_revision ≡ none
    → IsPast n a
    → IsPast n (apply_patch p a)
unfolding apply_patch
patch-IsPast n p a e h = rw e h

status_patch-revision :
    (now : Instant) (k : ℕ) (status : AppointmentStatus) (method : Option _) (s : MemoryStorage)
    → (status_patch now k status method s).reschedule_revision ≡ none
unfolding status_patch
status_patch-revision now k status method s = refl

KeepsRevision-Respects : (id n : ℕ) (c : Call) → KeepsRevision id c → Respects id (IsPast n) c
KeepsRevision-Respects id n (update k p expected) q = λ own a h. patch-IsPast n p a (q own) h
KeepsRevision-Respects id n (update_notified k p notify expected extras at) q =
    λ own a h. patch-IsPast n _ a (q own) h
KeepsRevision-Respects id n (set_status k status method) q =
    λ now s own a h. patch-IsPast n _ a (status_patch-revision now k status method s) h
KeepsRevision-Respects id n (set_status_if k from to method) q =
    λ now s own a h. patch-IsPast n _ a (status_patch-revision now k to method s) h
KeepsRevision-Respects id n (create rs) q = tt
KeepsRevision-Respects id n (create_series r) q = tt
KeepsRevision-Respects id n (reschedule k revision start at) q = tt
KeepsRevision-Respects id n (cancel k late) q = tt
KeepsRevision-Respects id n (remove_service k) q = tt
KeepsRevision-Respects id n (configure definitions rules) q = tt

reschedule_past :
    (later : Instant) (id revision : ℕ) (start : Instant) (at : Option Instant) (u : MemoryStorage)
    → Holds id (IsPast revision) u
    → reschedule_appointment later id revision start at u ≡ finished none u
unfolding reschedule_appointment
reschedule_past later id revision start at u (a, (found, past)) =
    on_row-none id (reschedule_row later revision start at) u a found (
      if_true (not (is_booked a.status) || not (a.reschedule_revision == revision)) _ _
        (stale_revision (is_booked a.status) a.reschedule_revision revision past))

-- The revision is a lock. Once a reschedule of an appointment went through, and after any further calls
-- of the storage, whether they return or throw, of which no patch sets the reschedule revision of that
-- row, a reschedule that read the same revision returns nothing and changes nothing, at whatever time
-- and for whatever time it is. So of calls that read one revision at most one goes through.
pub reschedule_appointment-IsLocked :
    (now : Instant) (id revision : ℕ) (start : Instant) (at : Option Instant) (s : MemoryStorage)
    (r : ChangeResult) (t : MemoryStorage)
    → reschedule_appointment now id revision start at s ≡ finished (some r) t
    → (calls : List (Instant × Call)) → All (λ x. KeepsRevision id x.1) calls
    → (later : Instant) (other_start : Instant) (other_at : Option Instant)
    → reschedule_appointment later id revision other_start other_at (perform_all calls t)
      ≡ finished none (perform_all calls t)
reschedule_appointment-IsLocked now id revision start at s r t e calls keep later other_start
      other_at =
    reschedule_past later id revision other_start other_at (perform_all calls t) (
      perform_all-Holds id (IsPast revision) (IsPast-Lasts revision) calls t
        (All-map (λ x q. KeepsRevision-Respects id revision x.1 q) calls keep)
        (past (rw (e, Leaves) at (reschedule_appointment-Leaves now id revision start at s))))
  where
    past :
        Leaves id (λ a. a.reschedule_revision ≡ revision + 1) (finished (some r) t)
        → Holds id (IsPast revision) t
    past (a, (found, moved_on)) = (a, (found, omega arith))
