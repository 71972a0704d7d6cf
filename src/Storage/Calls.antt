-- ===== src/Storage/Calls.antt =====
-- Any sequence of calls of the storage's methods, from an empty storage on.
use barber_bookings.Common.{ℕ, ◌≤◌, Bool, List, [], ◌∷◌, Option, ◌≡◌, ◌≢◌, refl, ◌⊎◌, inl, inr, All}
use barber_bookings.Common.Sort.{In}
use barber_bookings.Schema.{Appointment, BarberCompensationRule, ExtraDefinition, Instant}
use barber_bookings.Schema.Enums.{AppointmentPaymentMethod, AppointmentStatus, booked}
use barber_bookings.Storage.State.{
  MemoryStorage, Run, finished, threw, CreateRequest, AppointmentExtraInput,
}
use barber_bookings.Storage.Conflict.{end_of, Separate}
use barber_bookings.Storage.Table.{Pairwise, Separate-symm}
use barber_bookings.Storage.Invariant.{IsConsistent}
use barber_bookings.Storage.Create.{create_appointments}
use barber_bookings.Storage.Creation.{Commits, create_appointments-Commits}
use barber_bookings.Storage.Patch.{Patch}
use barber_bookings.Storage.Change.{
  update_appointment, reschedule_appointment, cancel_appointment, update_appointment_status,
  update_appointment_status_if_current,
}
use barber_bookings.Storage.Updating.{
  update_appointment-Keeps, reschedule_appointment-Keeps, cancel_appointment-Keeps,
  update_appointment_status-Keeps, update_appointment_status_if_current-Keeps,
}
use barber_bookings.Storage.Updating.Rows.{Keeps}
use barber_bookings.Storage.Notify.{update_appointment_with_notification}
use barber_bookings.Storage.Notifying.{update_appointment_with_notification-Keeps}
use barber_bookings.Storage.Series.{create_recurring_appointment_series}
use barber_bookings.Storage.Series.Requests.{RecurringRequest}
use barber_bookings.Storage.Recurring.{create_recurring_appointment_series-Keeps}
use barber_bookings.Storage.Service.{delete_service}
use barber_bookings.Storage.Service.{delete_service-Keeps}

-- A storage as the constructor makes it, but for definitions of extras and compensation rules.
abbrev pub empty_storage : List ExtraDefinition → List BarberCompensationRule → MemoryStorage
empty_storage definitions rules = record {
  extra_definitions = definitions;
  appointment_extras = [];
  appointments = [];
  appointment_series = [];
  barber_compensation_rules = rules;
  appointment_notification_events = [];
  next_appointment = 1;
  next_event = 1;
}

-- The calls that write the tables of appointments, extras and series or add events, with their
-- arguments. `configure` stands for those that only write definitions of extras and rules.
pub data Call : Type 0 where
  create : List CreateRequest → Call
  create_series : RecurringRequest → Call
  update : ℕ → Patch → Option AppointmentStatus → Call
  update_notified :
      ℕ
      → Patch
      → Bool
      → Option AppointmentStatus
      → Option (List AppointmentExtraInput)
      → Option Instant
      → Call
  reschedule : ℕ → ℕ → Instant → Option Instant → Call
  cancel : ℕ → Bool → Call
  set_status : ℕ → AppointmentStatus → Option AppointmentPaymentMethod → Call
  set_status_if : ℕ → AppointmentStatus → AppointmentStatus → Option AppointmentPaymentMethod → Call
  remove_service : ℕ → Call
  configure : List ExtraDefinition → List BarberCompensationRule → Call

abbrev pub end_state : {A : Type 0} → Run A → MemoryStorage
end_state (finished a s) = s
end_state (threw e s) = s

-- The storage after a call, made at the instant `now`; a throw of the call is caught by the caller.
unfoldable pub perform : Instant → Call → MemoryStorage → MemoryStorage
perform now (create rs) s = end_state (create_appointments now rs s)
perform now (create_series r) s = end_state (create_recurring_appointment_series now r s)
perform now (update id p expected) s = end_state (update_appointment now id p expected s)
perform now (update_notified id p notify expected extras at) s =
    end_state (update_appointment_with_notification now id p notify expected extras at s)
perform now (reschedule id revision start at) s =
    end_state (reschedule_appointment now id revision start at s)
perform now (cancel id late) s = end_state (cancel_appointment now id late s)
perform now (set_status id status method) s =
    end_state (update_appointment_status now id status method s)
perform now (set_status_if id from to method) s =
    end_state (update_appointment_status_if_current now id from to method s)
perform now (remove_service id) s = end_state (delete_service now id s)
perform now (configure definitions rules) s = record s {
  extra_definitions = definitions;
  barber_compensation_rules = rules;
}

-- The storages that calls lead to, in any order and at any times.
pub data Reachable : MemoryStorage → Type 0 where
  opened :
      (definitions : List ExtraDefinition) (rules : List BarberCompensationRule)
      → Reachable (empty_storage definitions rules)
  called :
      (now : Instant) (c : Call) (s : MemoryStorage) → Reachable s → Reachable (perform now c s)

end_of_Keeps :
    {A : Type 0} (s : MemoryStorage) (m : Run A)
    → Keeps s m
    → IsConsistent s
    → IsConsistent (end_state m)
end_of_Keeps s (finished a t) k c = k c
end_of_Keeps s (threw e t) k c = rw k c

Keeps-of_Commits : {A : Type 0} (s : MemoryStorage) (m : Run A) → Commits s m → Keeps s m
Keeps-of_Commits s (finished a t) h = h.1
Keeps-of_Commits s (threw e t) h = h

perform-IsConsistent :
    (now : Instant) (c : Call) (s : MemoryStorage) → IsConsistent s → IsConsistent (perform now c s)
unfolding perform
perform-IsConsistent now (create rs) s =
    end_of_Keeps s _ (Keeps-of_Commits s _ (create_appointments-Commits now rs s))
perform-IsConsistent now (create_series r) s =
    end_of_Keeps s _ (create_recurring_appointment_series-Keeps now r s)
perform-IsConsistent now (update id p expected) s =
    end_of_Keeps s _ (update_appointment-Keeps now id p expected s)
perform-IsConsistent now (update_notified id p notify expected extras at) s =
    end_of_Keeps s _
      (update_appointment_with_notification-Keeps now id p notify expected extras at s)
perform-IsConsistent now (reschedule id revision start at) s =
    end_of_Keeps s _ (reschedule_appointment-Keeps now id revision start at s)
perform-IsConsistent now (cancel id late) s =
    end_of_Keeps s _ (cancel_appointment-Keeps now id late s)
perform-IsConsistent now (set_status id status method) s =
    end_of_Keeps s _ (update_appointment_status-Keeps now id status method s)
perform-IsConsistent now (set_status_if id from to method) s =
    end_of_Keeps s _ (update_appointment_status_if_current-Keeps now id from to method s)
perform-IsConsistent now (remove_service id) s = end_of_Keeps s _ (delete_service-Keeps now id s)
perform-IsConsistent now (configure definitions rules) s = λ c. record {
  fresh = c.fresh;
  separate = c.separate;
  extras_owned = c.extras_owned;
  events_fresh = c.events_fresh;
  events_distinct = c.events_distinct;
}

pub Reachable-IsConsistent : (s : MemoryStorage) → Reachable s → IsConsistent s
Reachable-IsConsistent _ (opened definitions rules) = record {
  fresh = tt;
  separate = tt;
  extras_owned = tt;
  events_fresh = tt;
  events_distinct = tt;
}
Reachable-IsConsistent _ (called now c s r) =
    perform-IsConsistent now c s (Reachable-IsConsistent s r)

All-In : {A : Type 0} (P : A → Type 0) (xs : List A) (a : A) → All P xs → In a xs → P a
All-In P [] a h i = absurd i
All-In P (x ∷ xs) a h (inl e) = rw e h.0
All-In P (x ∷ xs) a h (inr k) = All-In P xs a h.1 k

-- Two rows with different ids stand in some order, and are separate either way.
Separate-rows :
    (xs : List Appointment) (a b : Appointment)
    → Pairwise Separate xs
    → In a xs
    → In b xs
    → a.id ≢ b.id
    → Separate a b
Separate-rows [] a b h i j ne = absurd i
Separate-rows (x ∷ xs) a b h (inl p) (inl q) ne = absurd (ne (rw (p, q) refl))
Separate-rows (x ∷ xs) a b h (inl p) (inr j) ne = rw p (All-In (Separate x) xs b h.0 j)
Separate-rows (x ∷ xs) a b h (inr i) (inl q) ne =
    Separate-symm b a (rw q (All-In (Separate x) xs a h.0 i))
Separate-rows (x ∷ xs) a b h (inr i) (inr j) ne = Separate-rows xs a b h.1 i j ne

-- No barber is ever double-booked. After any sequence of calls on an empty storage, with any
-- arguments and whether they return or throw, two different rows that are both booked with the same
-- barber do not overlap: one ends before the other starts or when it starts.
pub never_double_booked :
    (s : MemoryStorage) (a b : Appointment)
    → Reachable s
    → In a s.appointments
    → In b s.appointments
    → a.id ≢ b.id
    → a.status ≡ booked
    → b.status ≡ booked
    → a.barber_id ≡ b.barber_id
    → (end_of a ≤ b.start_time) ⊎ (end_of b ≤ a.start_time)
never_double_booked s a b r i j ne p q same =
    (Separate-rows s.appointments a b (Reachable-IsConsistent s r).separate i j ne).1 p q same
