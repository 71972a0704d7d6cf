-- ===== src/Storage/Creation.antt =====
-- About `createAppointments` (server/storage.ts): what a round adds, and what the `catch` takes back.
pub mod Reading
pub mod Rows
use barber_bookings.Common.{
  ℕ, ◌+◌, ◌<◌, Bool, true, false, List, [], ◌∷◌, map, Option, none, some, ◌≡◌, refl, ◌∙◌, inl, inr,
  arith, All, All-append, All-map, All-zip, Bool-cases, if◌then◌else◌, is_some, ◌||◌, ◌&&◌,
}
use barber_bookings.Schema.{Appointment, AppointmentExtra, CompensationSnapshot, Instant}
use barber_bookings.Schema.Events.{AppointmentNotificationEvent}
use barber_bookings.Storage.State.{
  MemoryStorage, Action, Run, finished, threw, ◌>>=◌, CreateRequest, ExtraSnapshot,
  AppointmentExtraInput, push_event, new_event, has_text,
}
use barber_bookings.Storage.Conflict.{Compatible, Separate}
use barber_bookings.Storage.Extras.{
  resolve_appointment_extra_snapshots, resolve_at, resolve_from, resolve_one, resolve_new,
  from_definition, validate_appointment_extra_inputs,
}
use barber_bookings.Storage.Table.{Pairwise-push, Prefix-refl, take_of_Prefix, Separate-symm}
use barber_bookings.Storage.Invariant.{
  IsConsistent, Grown, Grown-refl, Grown-trans, EndsIn, EndsIn-bind, EndsIn-map, assert-cases,
  push_event-IsConsistent,
}
use barber_bookings.Storage.Create.{
  create_one, insert_row, not_empty, create_loop, create_appointments, roll_back, recover,
  new_appointment, add_rows, attach, confirmation_event, reminder_event,
}
use barber_bookings.Storage.Creation.Reading.{
  resolve-Reads, Adds, Adds-refl, Adds-trans, push_event-Adds,
}

confirmation_event-Adds :
    (now : Instant) (a : Appointment) (b : Bool) (s : MemoryStorage)
    → Adds s (confirmation_event now a b s)
unfolding new_event
confirmation_event-Adds now a true s = push_event-Adds _ s (λ n. refl)
confirmation_event-Adds now a false s = Adds-refl s

pub reminder_event-Adds :
    (now : Instant) (a : Appointment) (at : Option Instant) (s : MemoryStorage)
    → Adds s (reminder_event now a at s)
unfolding new_event
reminder_event-Adds now a (some at) s = push_event-Adds _ s (λ n. refl)
reminder_event-Adds now a none s = Adds-refl s

pub All-attach :
    (id n : ℕ) (xs : List ExtraSnapshot)
    → id < n
    → All (λ x. x.appointment_id < n) (map (attach id) xs)
All-attach id n [] h = tt
All-attach id n (x ∷ xs) h = (h, All-attach id n xs h)

-- The state once `nextIds.appointment++` has run.
abbrev pub with_next_id : MemoryStorage → MemoryStorage
with_next_id s = record s { next_appointment = s.next_appointment + 1 }

pub with_next_id-Adds : (s : MemoryStorage) → Adds s (with_next_id s)
with_next_id-Adds s = (grown, kept)
  where
    grown : Grown s (with_next_id s)
    grown = record {
      appointments = Prefix-refl _;
      extras = Prefix-refl _;
      events = Prefix-refl _;
      definitions = refl;
      series = refl;
      rules = refl;
    }

    kept : IsConsistent s → IsConsistent (with_next_id s)
    kept c = record {
      fresh = All-map (λ x h. omega arith) _ c.fresh;
      separate = c.separate;
      extras_owned = All-map (λ x h. omega arith) _ c.extras_owned;
      events_fresh = c.events_fresh;
      events_distinct = c.events_distinct;
    }

-- A row under the next id that is compatible with all others joins the table.
add_rows-Adds :
    (a : Appointment) (snapshots : List ExtraSnapshot) (s : MemoryStorage)
    → a.id ≡ s.next_appointment
    → All (λ b. Compatible a b) s.appointments
    → Adds s (add_rows a snapshots (with_next_id s))
add_rows-Adds a snapshots s e apart = (grown, kept)
  where
    grown : Grown s (add_rows a snapshots (with_next_id s))
    grown = record {
      appointments = (a ∷ [], refl);
      extras = (map (attach a.id) snapshots, refl);
      events = Prefix-refl _;
      definitions = refl;
      series = refl;
      rules = refl;
    }

    separate_from : (c : IsConsistent s) → All (λ b. Separate b a) s.appointments
    separate_from c =
        All-zip (λ b lt compatible. Separate-symm a b ((λ same. omega arith), compatible))
          s.appointments c.fresh apart

    kept : IsConsistent s → IsConsistent (add_rows a snapshots (with_next_id s))
    kept c = record {
      fresh =
          All-append _ s.appointments (a ∷ []) (All-map (λ x h. omega arith) _ c.fresh)
            (omega arith, tt);
      separate = Pairwise-push Separate s.appointments a c.separate (separate_from c);
      extras_owned =
          All-append _ s.appointment_extras _ (All-map (λ x h. omega arith) _ c.extras_owned)
            (All-attach a.id _ snapshots (omega arith));
      events_fresh = c.events_fresh;
      events_distinct = c.events_distinct;
    }

pub new_appointment_id :
    (now : Instant) (id : ℕ) (c : CompensationSnapshot) (revision : ℕ) (r : CreateRequest)
    → (new_appointment now id c revision r).id ≡ id
unfolding new_appointment
new_appointment_id now id c revision r = refl

insert_row-Adds :
    (now : Instant) (r : CreateRequest) (compensation : CompensationSnapshot)
    (snapshots : List ExtraSnapshot) (s : MemoryStorage)
    → EndsIn (Adds s) (insert_row now r compensation snapshots s)
unfolding insert_row
insert_row-Adds now r compensation snapshots s = elim (assert-cases a none (with_next_id s)) [
  | inl refused ↦ rw (refused, EndsIn) (with_next_id-Adds s)
  | inr (passed, apart) ↦ rw (passed, EndsIn) (with_events (All-map (λ b f. f refl) _ apart))
]
  where
    a : Appointment
    a =
        new_appointment now s.next_appointment compensation
          (if r.notify_confirmation || is_some r.reminder_available_at then 1 else 0) r

    t : MemoryStorage
    t = add_rows a snapshots (with_next_id s)

    u : MemoryStorage
    u = confirmation_event now a r.notify_confirmation t

    with_events :
        All (λ b. Compatible a b) s.appointments
        → Adds s (reminder_event now a r.reminder_available_at u)
    with_events apart =
        Adds-trans s t _ (add_rows-Adds a snapshots s (new_appointment_id _ _ _ _ r) apart) (
          Adds-trans t u _ (confirmation_event-Adds now a r.notify_confirmation t)
            (reminder_event-Adds now a r.reminder_available_at u))

create_one-Adds :
    (now : Instant) (r : CreateRequest) (s : MemoryStorage) → EndsIn (Adds s) (create_one now r s)
unfolding create_one
create_one-Adds now r s = elim (Bool-cases (has_text r.series_id && not_empty r.extras)) [
  | inl refused ↦ rw (refused, EndsIn) (Adds-refl s)
  | inr open_row ↦
      rw (open_row, EndsIn)
        (EndsIn-bind (resolve_appointment_extra_snapshots now r.location_id r.extras [] s) _
          (resolve-Reads now r.location_id r.extras [] s) (λ t e. rw e (Adds-refl s))
          (λ snapshots t e. rw e (insert_row-Adds now r _ snapshots s)))
]

create_loop-Adds :
    (now : Instant) (rs : List CreateRequest) (s : MemoryStorage)
    → EndsIn (Adds s) (create_loop now rs s)
unfolding create_loop
create_loop-Adds now [] s = Adds-refl s
create_loop-Adds now (r ∷ rs) s =
    EndsIn-bind (create_one now r s) _ (create_one-Adds now r s) (λ t h. h)
      (λ a t h.
        EndsIn-bind (create_loop now rs t) _
          (EndsIn-map (create_loop now rs t) (λ u k. Adds-trans s t u h k)
            (create_loop-Adds now rs t))
          (λ u k. k) (λ created u k. k))

-- Taking back what was added gives the storage that there was.
roll_back_of_Grown : (s t : MemoryStorage) → Grown s t → roll_back s t ≡ s
unfolding roll_back
roll_back_of_Grown s t g = λ i. record {
  extra_definitions = g.definitions i;
  appointment_extras = take_of_Prefix _ _ g.extras i;
  appointments = take_of_Prefix _ _ g.appointments i;
  appointment_series = g.series i;
  barber_compensation_rules = g.rules i;
  appointment_notification_events = take_of_Prefix _ _ g.events i;
  next_appointment = s.next_appointment;
  next_event = s.next_event;
}

-- What `create_appointments` promises: new rows on success, and no change at all on a throw.
abbrev pub Commits : {A : Type 0} → MemoryStorage → Run A → Type 0
Commits s (finished a t) = Grown s t × (IsConsistent s → IsConsistent t)
Commits s (threw e t) = t ≡ s

recover-Commits :
    {A : Type 0} (s : MemoryStorage) (m : Run A) → EndsIn (Adds s) m → Commits s (recover s m)
recover-Commits s (finished a t) h = h
recover-Commits s (threw e t) h = roll_back_of_Grown s t h.0

-- Creating appointments is all or nothing. If the call returns, the storage is the old one with rows
-- pushed at the ends of the tables of appointments, extras and events, and it is consistent if the
-- old one was: ids are distinct and no two booked appointments of a barber overlap. If any of the
-- requests makes the call throw, the storage is exactly what it was.
pub create_appointments-Commits :
    (now : Instant) (rs : List CreateRequest) (s : MemoryStorage)
    → Commits s (create_appointments now rs s)
unfolding create_appointments
create_appointments-Commits now [] s = Adds-refl s
create_appointments-Commits now (r ∷ rs) s =
    recover-Commits s (create_loop now (r ∷ rs) s) (create_loop-Adds now (r ∷ rs) s)
