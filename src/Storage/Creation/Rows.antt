-- ===== src/Storage/Creation/Rows.antt =====
-- The rows that `createAppointments` (server/storage.ts) inserts and returns.
use barber_bookings.Common.{
  ℕ, ◌+◌, Bool, true, false, List, [], ◌∷◌, ◌++◌, Option, none, some, ◌≡◌, refl, sym, ap, ◌∙◌, inl,
  inr, Bool-cases, if◌then◌else◌, is_some, get_or, ◌||◌, ◌&&◌,
}
use mathlib.Core.List.{append-nil, append_assoc}
use barber_bookings.Schema.{Appointment, CompensationSnapshot, Instant}
use barber_bookings.Schema.Enums.{booked}
use barber_bookings.Storage.State.{
  MemoryStorage, Action, Run, finished, threw, after, CreateRequest, ExtraSnapshot, has_text,
}
use barber_bookings.Storage.Invariant.{EndsIn, assert-cases}
use barber_bookings.Storage.Create.{
  create_one, insert_row, not_empty, create_loop, create_appointments, recover, new_appointment,
  add_rows, confirmation_event, reminder_event,
}
use barber_bookings.Storage.Extras.{resolve_appointment_extra_snapshots}
use barber_bookings.Storage.Creation.{with_next_id}
use barber_bookings.Storage.Creation.Reading.{resolve-Reads}

-- A call that returns has the result and the state that `Q` asks for.
abbrev pub Returns : {A : Type 0} → (A → MemoryStorage → Type 0) → Run A → Type 0
Returns Q (finished a t) = Q a t
Returns Q (threw e t) = Unit

pub Returns-bind :
    {A B : Type 0} (P : A → MemoryStorage → Type 0) (Q : B → MemoryStorage → Type 0) (m : Run A)
    (k : A → Action B)
    → Returns P m
    → ((a : A) (t : MemoryStorage) → P a t → Returns Q (k a t))
    → Returns Q (after m k)
Returns-bind P Q (finished a t) k p next = next a t p
Returns-bind P Q (threw e t) k p next = tt

pub Returns-of_EndsIn :
    {A : Type 0} (P : MemoryStorage → Type 0) (m : Run A) → EndsIn P m → Returns (λ _ t. P t) m
Returns-of_EndsIn P (finished a t) h = h
Returns-of_EndsIn P (threw e t) h = tt

-- The row is the one that the request asks for.
pub record Fulfils (r : CreateRequest) (a : Appointment) : Type 0 where
  pub location_id : a.location_id ≡ get_or r.location_id 1
  pub barber_id : a.barber_id ≡ r.barber_id
  pub service_id : a.service_id ≡ r.service_id
  pub start_time : a.start_time ≡ r.start_time
  pub duration_minutes : a.duration_minutes ≡ r.duration_minutes
  pub customer_name : a.customer_name ≡ r.customer_name
  pub customer_phone : a.customer_phone ≡ r.customer_phone
  pub status : a.status ≡ get_or r.status booked
  pub cancel_token : a.cancel_token ≡ r.cancel_token

-- One row for each request, in order; `R` relates the index, the request and the row.
abbrev pub Answers :
    (ℕ → CreateRequest → Appointment → Type 0) → ℕ → List CreateRequest → List Appointment → Type 0
Answers R n [] [] = Unit
Answers R n [] (a ∷ rest) = ⊥
Answers R n (r ∷ rs) [] = ⊥
Answers R n (r ∷ rs) (a ∷ rest) = R n r a × Answers R (n + 1) rs rest

abbrev pub AnswersEach : List CreateRequest → List Appointment → Type 0
AnswersEach = Answers (λ _ r a. Fulfils r a) 0

pub new_appointment-Fulfils :
    (now : Instant) (id : ℕ) (c : CompensationSnapshot) (revision : ℕ) (r : CreateRequest)
    → Fulfils r (new_appointment now id c revision r)
unfolding new_appointment
new_appointment-Fulfils now id c revision r = record {
  location_id = refl;
  barber_id = refl;
  service_id = refl;
  start_time = refl;
  duration_minutes = refl;
  customer_name = refl;
  customer_phone = refl;
  status = refl;
  cancel_token = refl;
}

pub reminder_event-appointments :
    (now : Instant) (a : Appointment) (at : Option Instant) (s : MemoryStorage)
    → (reminder_event now a at s).appointments ≡ s.appointments
reminder_event-appointments now a none s = refl
reminder_event-appointments now a (some t) s = refl

confirmation_event-appointments :
    (now : Instant) (a : Appointment) (b : Bool) (s : MemoryStorage)
    → (confirmation_event now a b s).appointments ≡ s.appointments
confirmation_event-appointments now a true s = refl
confirmation_event-appointments now a false s = refl

-- The row was pushed, and `R` holds of it.
abbrev pub Pushes : MemoryStorage → (Appointment → Type 0) → Appointment → MemoryStorage → Type 0
Pushes s R a t = (t.appointments ≡ s.appointments ++ a ∷ []) × R a

abbrev pub PushesAll :
    MemoryStorage → (List Appointment → Type 0) → List Appointment → MemoryStorage → Type 0
PushesAll s R created t = (t.appointments ≡ s.appointments ++ created) × R created

insert_row-Pushes :
    (now : Instant) (r : CreateRequest) (compensation : CompensationSnapshot)
    (snapshots : List ExtraSnapshot) (s : MemoryStorage)
    → Returns (Pushes s (Fulfils r)) (insert_row now r compensation snapshots s)
unfolding insert_row
insert_row-Pushes now r compensation snapshots s = elim (assert-cases a none (with_next_id s)) [
  | inl refused ↦ rw (refused, Returns) tt
  | inr (passed, apart) ↦
      rw (passed, Returns)
        (
          reminder_event-appointments now a r.reminder_available_at
                (confirmation_event now a r.notify_confirmation t)
              ∙ confirmation_event-appointments now a r.notify_confirmation t,
          new_appointment-Fulfils now _ compensation _ r,
        )
]
  where
    a : Appointment
    a =
        new_appointment now s.next_appointment compensation
          (if r.notify_confirmation || is_some r.reminder_available_at then 1 else 0) r

    t : MemoryStorage
    t = add_rows a snapshots (with_next_id s)

create_one-Pushes :
    (now : Instant) (r : CreateRequest) (s : MemoryStorage)
    → Returns (Pushes s (Fulfils r)) (create_one now r s)
unfolding create_one
create_one-Pushes now r s = elim (Bool-cases (has_text r.series_id && not_empty r.extras)) [
  | inl refused ↦ rw (refused, Returns) tt
  | inr open_row ↦
      rw (open_row, Returns)
        (Returns-bind (λ _ t. t ≡ s) (Pushes s (Fulfils r))
          (resolve_appointment_extra_snapshots now r.location_id r.extras [] s) _
          (Returns-of_EndsIn (λ t. t ≡ s) _ (resolve-Reads now r.location_id r.extras [] s))
          (λ snapshots t e. rw e (insert_row-Pushes now r _ snapshots s)))
]

-- A row and then the others, pushed at the end of a table.
pub push_all :
    (s t u : MemoryStorage) (a : Appointment) (created : List Appointment)
    → t.appointments ≡ s.appointments ++ a ∷ []
    → u.appointments ≡ t.appointments ++ created
    → u.appointments ≡ s.appointments ++ a ∷ created
push_all s t u a created p q =
    q ∙ ap (λ xs. xs ++ created) p ∙ append_assoc s.appointments (a ∷ []) created

create_loop-Pushes :
    (now : Instant) (rs : List CreateRequest) (n : ℕ) (s : MemoryStorage)
    → Returns (PushesAll s (Answers (λ _ r a. Fulfils r a) n rs)) (create_loop now rs s)
unfolding create_loop
create_loop-Pushes now [] n s = (sym (append-nil s.appointments), tt)
create_loop-Pushes now (r ∷ rs) n s =
    Returns-bind (Pushes s (Fulfils r)) _ (create_one now r s) _ (create_one-Pushes now r s)
      (λ a t (p, f).
        Returns-bind (PushesAll t (Answers (λ _ r a. Fulfils r a) (n + 1) rs)) _
          (create_loop now rs t) _ (create_loop-Pushes now rs (n + 1) t)
          (λ created u (q, g). (push_all s t u a created p q, (f, g))))

recover-Returns :
    {A : Type 0} (Q : A → MemoryStorage → Type 0) (s : MemoryStorage) (m : Run A)
    → Returns Q m
    → Returns Q (recover s m)
recover-Returns Q s (finished a t) h = h
recover-Returns Q s (threw e t) h = tt

-- If `createAppointments` returns, it pushed one row for each request, in order, and returns them.
pub create_appointments-Pushes :
    (now : Instant) (rs : List CreateRequest) (s : MemoryStorage)
    → Returns
        (λ created t. (t.appointments ≡ s.appointments ++ created) × AnswersEach rs created)
        (create_appointments now rs s)
unfolding create_appointments
create_appointments-Pushes now [] s = (sym (append-nil s.appointments), tt)
create_appointments-Pushes now (r ∷ rs) s =
    recover-Returns _ s (create_loop now (r ∷ rs) s) (create_loop-Pushes now (r ∷ rs) 0 s)
