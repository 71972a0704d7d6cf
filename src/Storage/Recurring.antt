-- ===== src/Storage/Recurring.antt =====
-- About `createRecurringAppointmentSeries` (server/storage.ts) and the invariant of the tables.
pub mod Rows
use barber_bookings.Common.{
  ℕ, String, ◌+◌, Bool, true, false, List, [], ◌∷◌, Option, none, some, ◌≡◌, refl, ◌∙◌, arith, inl,
  inr, All, All-append, All-map, All-zip, Option-cases,
}
use barber_bookings.Schema.{Appointment, Instant}
use barber_bookings.Storage.State.{
  MemoryStorage, Run, finished, threw, after, CreateRequest, push_event,
}
use barber_bookings.Storage.Conflict.{Compatible, Separate}
use barber_bookings.Storage.Table.{Pairwise-push, Prefix-refl, take_of_Prefix, Separate-symm}
use barber_bookings.Storage.Invariant.{
  IsConsistent, Grown, EndsIn, EndsIn-bind, EndsIn-map, assert-cases, push_event-IsConsistent,
}
use barber_bookings.Storage.Create.{reminder_event, new_appointment}
use barber_bookings.Storage.Creation.Reading.{Adds, Adds-refl, Adds-trans}
use barber_bookings.Storage.Creation.{with_next_id, with_next_id-Adds, reminder_event-Adds}
use barber_bookings.Storage.Updating.Rows.{Keeps}
use barber_bookings.Storage.Series.{
  insert_occurrence, insert_occurrences, new_occurrence, push_row, roll_back_series, recover_series,
  insert_series, insert_unless, create_recurring_appointment_series, finish_series, series_event,
  push_series, new_series,
}
use barber_bookings.Storage.Series.Requests.{
  RecurringRequest, validate_recurring_appointment_series_request,
}

-- Rows are added, and no extras.
abbrev pub AddsRows : MemoryStorage → MemoryStorage → Type 0
AddsRows s t = Adds s t × (t.appointment_extras ≡ s.appointment_extras)

AddsRows-trans : (s t u : MemoryStorage) → AddsRows s t → AddsRows t u → AddsRows s u
AddsRows-trans s t u (f, p) (g, q) = (Adds-trans s t u f g, q ∙ p)

new_occurrence_id :
    (now : Instant) (id : ℕ) (series_id : String) (index : ℕ) (r : CreateRequest)
    → (new_occurrence now id series_id index r).id ≡ id
unfolding new_occurrence new_appointment
new_occurrence_id now id series_id index r = refl

push_row-Adds :
    (a : Appointment) (s : MemoryStorage)
    → a.id ≡ s.next_appointment
    → All (λ b. Compatible a b) s.appointments
    → Adds s (push_row a (with_next_id s))
push_row-Adds a s e apart = (grown, kept)
  where
    grown : Grown s (push_row a (with_next_id s))
    grown = record {
      appointments = (a ∷ [], refl);
      extras = Prefix-refl _;
      events = Prefix-refl _;
      definitions = refl;
      series = refl;
      rules = refl;
    }

    kept : IsConsistent s → IsConsistent (push_row a (with_next_id s))
    kept c = record {
      fresh =
          All-append _ s.appointments (a ∷ []) (All-map (λ x h. omega arith) _ c.fresh)
            (omega arith, tt);
      separate = Pairwise-push Separate s.appointments a c.separate (
          All-zip (λ b lt compatible. Separate-symm a b ((λ same. omega arith), compatible))
            s.appointments c.fresh apart);
      extras_owned = All-map (λ x h. omega arith) _ c.extras_owned;
      events_fresh = c.events_fresh;
      events_distinct = c.events_distinct;
    }

reminder_extras :
    (now : Instant) (a : Appointment) (at : Option Instant) (s : MemoryStorage)
    → (reminder_event now a at s).appointment_extras ≡ s.appointment_extras
reminder_extras now a none s = refl
reminder_extras now a (some t) s = refl

insert_occurrence-Adds :
    (now : Instant) (series_id : String) (index : ℕ) (r : CreateRequest) (s : MemoryStorage)
    → EndsIn (AddsRows s) (insert_occurrence now series_id index r s)
unfolding insert_occurrence
insert_occurrence-Adds now series_id index r s = elim (assert-cases a none (with_next_id s)) [
  | inl refused ↦ rw (refused, EndsIn) (with_next_id-Adds s, refl)
  | inr (passed, apart) ↦
      rw (passed, EndsIn)
        (
          Adds-trans s (push_row a (with_next_id s)) _
              (push_row-Adds a s (new_occurrence_id now _ series_id index r)
                (All-map (λ b f. f refl) _ apart))
              (reminder_event-Adds now a r.reminder_available_at _),
          reminder_extras now a r.reminder_available_at _,
        )
]
  where
    a : Appointment
    a = new_occurrence now s.next_appointment series_id index r

pub insert_occurrences-Adds :
    (now : Instant) (series_id : String) (index : ℕ) (rs : List CreateRequest) (s : MemoryStorage)
    → EndsIn (AddsRows s) (insert_occurrences now series_id index rs s)
unfolding insert_occurrences
insert_occurrences-Adds now series_id index [] s = (Adds-refl s, refl)
insert_occurrences-Adds now series_id index (r ∷ rs) s =
    EndsIn-bind (insert_occurrence now series_id index r s) _
      (insert_occurrence-Adds now series_id index r s) (λ t h. h)
      (λ a t h.
        EndsIn-bind (insert_occurrences now series_id (index + 1) rs t) _
          (EndsIn-map (insert_occurrences now series_id (index + 1) rs t)
            (λ u k. AddsRows-trans s t u h k)
            (insert_occurrences-Adds now series_id (index + 1) rs t))
          (λ u k. k) (λ created u k. k))

roll_back_series_of_Adds : (s t : MemoryStorage) → AddsRows s t → roll_back_series s t ≡ s
unfolding roll_back_series
roll_back_series_of_Adds s t ((g, _), e) = λ i. record {
  extra_definitions = g.definitions i;
  appointment_extras = e i;
  appointments = take_of_Prefix _ _ g.appointments i;
  appointment_series = g.series i;
  barber_compensation_rules = g.rules i;
  appointment_notification_events = take_of_Prefix _ _ g.events i;
  next_appointment = s.next_appointment;
  next_event = s.next_event;
}

finish_series-IsConsistent :
    (now : Instant) (request : RecurringRequest) (created : List Appointment) (s : MemoryStorage)
    → IsConsistent s
    → IsConsistent (
        push_event
          (series_event now request created)
          (push_series (new_series now request.series) s))
unfolding series_event
finish_series-IsConsistent now request created s c =
    push_event-IsConsistent (series_event now request created)
      (push_series (new_series now request.series) s) (λ n. refl)
      (record {
        fresh = c.fresh;
        separate = c.separate;
        extras_owned = c.extras_owned;
        events_fresh = c.events_fresh;
        events_distinct = c.events_distinct;
      })

recover_series-Keeps :
    (now : Instant) (request : RecurringRequest) (s : MemoryStorage) (m : Run (List Appointment))
    → EndsIn (AddsRows s) m
    → Keeps s (recover_series s (after m (finish_series now request)))
recover_series-Keeps now request s (finished created t) h =
    λ c. finish_series-IsConsistent now request created t (h.0.1 c)
recover_series-Keeps now request s (threw e t) h = roll_back_series_of_Adds s t h

insert_unless-Keeps :
    (b : Bool) (now : Instant) (request : RecurringRequest) (s : MemoryStorage)
    → Keeps s (insert_unless b now request s)
unfolding insert_series
insert_unless-Keeps true now request s = refl
insert_unless-Keeps false now request s =
    recover_series-Keeps now request s _
      (insert_occurrences-Adds now request.series.id 0 request.appointments s)

-- `createRecurringAppointmentSeries` is all or nothing: if it returns, the tables are consistent if
-- they were before (no barber is double-booked by any occurrence), and if it throws, for an invalid
-- request, a known series id or a conflict of any occurrence, the storage is what it was.
pub create_recurring_appointment_series-Keeps :
    (now : Instant) (request : RecurringRequest) (s : MemoryStorage)
    → Keeps s (create_recurring_appointment_series now request s)
unfolding create_recurring_appointment_series
create_recurring_appointment_series-Keeps now request s =
    elim (Option-cases (validate_recurring_appointment_series_request request)) [
      | inr (e, bad) ↦ rw (bad, Keeps) refl
      | inl fine ↦ rw (fine, Keeps) (insert_unless-Keeps _ now request s)
    ]
