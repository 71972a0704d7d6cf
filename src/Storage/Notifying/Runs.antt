-- ===== src/Storage/Notifying/Runs.antt =====
-- The runs of `updateAppointmentWithNotification` (server/storage.ts) after its check, and the row it stores.
use barber_bookings.Common.{
  Bool, true, false, not, ◌&&◌, Option, none, some, ◌≡◌, refl, arith, is_some, if◌then◌else◌,
}
use barber_bookings.Schema.{Appointment, Instant}
use barber_bookings.Schema.Enums.{is_completed}
use barber_bookings.Schema.Events.{AppointmentNotificationEventType}
use barber_bookings.Storage.State.{MemoryStorage, Action, Run, finished, threw, after, new_event}
use barber_bookings.Storage.Conflict.{Compatible}
use barber_bookings.Storage.Invariant.{IsConsistent, push_event-IsConsistent, EndsIn}
use barber_bookings.Storage.Patch.{Changes}
use barber_bookings.Storage.Updating.{reminder_event-IsConsistent}
use barber_bookings.Storage.Updating.Rows.{Keeps, with_compensation_id}
use barber_bookings.Storage.Notify.{updated_row, change_event, report_change, remind_if}

-- A run that returns, in a state with `P`.
abbrev pub Total : {A : Type 0} → (MemoryStorage → Type 0) → Run A → Type 0
Total P (finished a s) = P s
Total P (threw e s) = ⊥

pub Total-bind :
    {A B : Type 0} (P Q : MemoryStorage → Type 0) (m : Run A) (k : A → Action B)
    → Total P m
    → ((a : A) (t : MemoryStorage) → P t → Total Q (k a t))
    → Total Q (after m k)
Total-bind P Q (finished a t) k p next = next a t p
Total-bind P Q (threw e t) k p next = absurd p

pub Keeps-of_Total :
    {A : Type 0} (s : MemoryStorage) (m : Run A)
    → Total (λ t. IsConsistent s → IsConsistent t) m
    → Keeps s m
Keeps-of_Total s (finished a t) h = h
Keeps-of_Total s (threw e t) h = absurd h

pub Keeps-of_Reads :
    {A B : Type 0} (s : MemoryStorage) (m : Run A) (k : A → Action B)
    → EndsIn (λ t. t ≡ s) m
    → ((a : A) → Keeps s (k a s))
    → Keeps s (after m k)
Keeps-of_Reads s (finished a t) k e next = rw e (next a)
Keeps-of_Reads s (threw x t) k e next = e

pub Total-map :
    {A : Type 0} (P Q : MemoryStorage → Type 0) (m : Run A)
    → ((t : MemoryStorage) → P t → Q t)
    → Total P m
    → Total Q m
Total-map P Q (finished a t) f p = f t p
Total-map P Q (threw e t) f p = p

pub if-Keeps :
    {A : Type 0} (s : MemoryStorage) (b : Bool) (m n : Run A)
    → Keeps s m
    → Keeps s n
    → Keeps s (if b then m else n)
if-Keeps s true m n p q = p
if-Keeps s false m n p q = q

pub if-IsConsistent :
    (b : Bool) (t u : MemoryStorage)
    → (b ≡ true → IsConsistent t)
    → IsConsistent u
    → IsConsistent (if b then t else u)
if-IsConsistent true t u f c = f refl
if-IsConsistent false t u f c = c

pub remind_if-IsConsistent :
    (b : Bool) (now : Instant) (a : Appointment) (at : Option Instant) (s : MemoryStorage)
    → IsConsistent s
    → IsConsistent (remind_if b now a at s)
remind_if-IsConsistent true now a at s c = reminder_event-IsConsistent now a at s c
remind_if-IsConsistent false now a at s c = c

pub report_change-Total :
    (now : Instant) (create : Bool) (current updated : Appointment)
    (kind : Option AppointmentNotificationEventType) (s : MemoryStorage)
    → Total (λ t. IsConsistent s → IsConsistent t) (report_change now create current updated kind s)
unfolding change_event new_event
report_change-Total now create current updated none s = λ c. c
report_change-Total now true current updated (some kind) s =
    push_event-IsConsistent (change_event now current updated kind) s (λ n. refl)
report_change-Total now false current updated (some kind) s = λ c. c

if-Compatible :
    (t : Bool) (x y b : Appointment)
    → Compatible x b
    → Compatible y b
    → Compatible (if t then x else y) b
if-Compatible true x y b h k = h
if-Compatible false x y b h k = k

-- The check is on the candidate; its row has the same times, barber and status.
pub updated_row-Compatible :
    (s : MemoryStorage) (changes : Changes) (current b : Appointment)
    → changes.any_changed ≡ true
    → Compatible changes.candidate b
    → Compatible (updated_row s changes current) b
unfolding updated_row
updated_row-Compatible s changes current b e h =
    rw (e, Compatible)
      (if-Compatible
        (is_completed changes.candidate.status
          && not (is_some current.compensation.compensation_model_snapshot))
        _ _ b h h)

pub updated_row_id :
    (s : MemoryStorage) (changes : Changes) (current : Appointment)
    → changes.candidate.id ≡ current.id
    → (updated_row s changes current).id ≡ current.id
unfolding updated_row
updated_row_id s changes current e =
    ground (arith, with_compensation_id s current changes.candidate)
