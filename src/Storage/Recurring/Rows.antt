-- ===== src/Storage/Recurring/Rows.antt =====
-- The rows that `createRecurringAppointmentSeries` (server/storage.ts) inserts and returns.
use barber_bookings.Common.{
  ℕ, String, ◌+◌, Bool, true, false, List, [], ◌∷◌, ◌++◌, none, some, ◌≡◌, refl, sym, ap, inl, inr,
  if◌then◌else◌, is_some, Option-cases,
}
use mathlib.Core.List.{append-nil}
use barber_bookings.Schema.{Appointment, Instant}
use barber_bookings.Schema.Events.{AppointmentNotificationEvent}
use barber_bookings.Storage.State.{MemoryStorage, Run, finished, threw, after, CreateRequest}
use barber_bookings.Storage.Invariant.{EndsIn, assert-cases}
use barber_bookings.Storage.Create.{no_compensation}
use barber_bookings.Storage.Creation.{with_next_id}
use barber_bookings.Storage.Creation.Rows.{
  Answers, Fulfils, Pushes, PushesAll, Returns, Returns-bind, new_appointment-Fulfils, push_all,
  reminder_event-appointments,
}
use barber_bookings.Storage.Recurring.{AddsRows, insert_occurrences-Adds}
use barber_bookings.Storage.Series.{
  RecurringResult, create_recurring_appointment_series, finish_series, insert_occurrence,
  insert_occurrences, insert_series, insert_unless, new_occurrence, new_series, push_row,
  recover_series, series_event,
}
use barber_bookings.Storage.Series.Requests.{
  RecurringRequest, validate_recurring_appointment_series_request,
}

-- The row that the request asks for, as the occurrence at an index of a series.
pub record IsOccurrence (series_id : String) (index : ℕ) (r : CreateRequest) (a : Appointment)
    : Type 0 where
  pub fulfils : Fulfils r a
  pub of_series : a.series_id ≡ some series_id
  pub at_index : a.series_occurrence_index ≡ some index

new_occurrence-Fulfils :
    (now : Instant) (id : ℕ) (series_id : String) (index : ℕ) (r : CreateRequest)
    → Fulfils r (new_occurrence now id series_id index r)
unfolding new_occurrence
new_occurrence-Fulfils now id series_id index r =
    let f =
      new_appointment-Fulfils now id no_compensation
        (if is_some r.reminder_available_at then 1 else 0) r in
    record {
      location_id = f.location_id;
      barber_id = f.barber_id;
      service_id = f.service_id;
      start_time = f.start_time;
      duration_minutes = f.duration_minutes;
      customer_name = f.customer_name;
      customer_phone = f.customer_phone;
      status = f.status;
      cancel_token = f.cancel_token;
    }

new_occurrence-IsOccurrence :
    (now : Instant) (id : ℕ) (series_id : String) (index : ℕ) (r : CreateRequest)
    → IsOccurrence series_id index r (new_occurrence now id series_id index r)
unfolding new_occurrence
new_occurrence-IsOccurrence now id series_id index r = record {
  fulfils = new_occurrence-Fulfils now id series_id index r;
  of_series = refl;
  at_index = refl;
}

insert_occurrence-Pushes :
    (now : Instant) (series_id : String) (index : ℕ) (r : CreateRequest) (s : MemoryStorage)
    → Returns
        (Pushes s (IsOccurrence series_id index r))
        (insert_occurrence now series_id index r s)
unfolding insert_occurrence
insert_occurrence-Pushes now series_id index r s = elim (assert-cases a none (with_next_id s)) [
  | inl refused ↦ rw (refused, Returns) tt
  | inr (passed, apart) ↦
      rw (passed, Returns)
        (
          reminder_event-appointments now a r.reminder_available_at (push_row a (with_next_id s)),
          new_occurrence-IsOccurrence now _ series_id index r,
        )
]
  where
    a : Appointment
    a = new_occurrence now s.next_appointment series_id index r

-- The loop of a series pushes one row for each occurrence, in order, and returns them.
pub insert_occurrences-Pushes :
    (now : Instant) (series_id : String) (index : ℕ) (rs : List CreateRequest) (s : MemoryStorage)
    → Returns
        (λ created t.
          (t.appointments ≡ s.appointments ++ created)
          × Answers (IsOccurrence series_id) index rs created)
        (insert_occurrences now series_id index rs s)
unfolding insert_occurrences
insert_occurrences-Pushes now series_id index [] s = (sym (append-nil s.appointments), tt)
insert_occurrences-Pushes now series_id index (r ∷ rs) s =
    Returns-bind (Pushes s (IsOccurrence series_id index r)) _
      (insert_occurrence now series_id index r s) _
      (insert_occurrence-Pushes now series_id index r s)
      (λ a t (p, f).
        Returns-bind (PushesAll t (Answers (IsOccurrence series_id) (index + 1) rs)) _
          (insert_occurrences now series_id (index + 1) rs t) _
          (insert_occurrences-Pushes now series_id (index + 1) rs t)
          (λ created u (q, g). (push_all s t u a created p q, (f, g))))

-- The whole series is in the tables: the rows of the result were pushed, one for each occurrence and in
-- order, with the series and, after the reminders, its event; extras stay as they are.
pub record Inserted (s : MemoryStorage) (request : RecurringRequest) (r : RecurringResult)
    (t : MemoryStorage) : Type 0 where
  pub rows : t.appointments ≡ s.appointments ++ r.appointments
  pub occurrences : Answers (IsOccurrence request.series.id) 0 request.appointments r.appointments
  pub series : t.appointment_series ≡ s.appointment_series ++ r.series ∷ []
  pub series_id : r.series.id ≡ request.series.id
  pub extras : t.appointment_extras ≡ s.appointment_extras
  pub reminders : List AppointmentNotificationEvent
  pub events :
      t.appointment_notification_events
      ≡ (s.appointment_notification_events ++ reminders) ++ r.notification_event ∷ []

recover_series-Inserted :
    (now : Instant) (request : RecurringRequest) (s : MemoryStorage) (m : Run (List Appointment))
    → EndsIn (AddsRows s) m
    → Returns (PushesAll s (Answers (IsOccurrence request.series.id) 0 request.appointments)) m
    → Returns (Inserted s request) (recover_series s (after m (finish_series now request)))
unfolding new_series
recover_series-Inserted now request s (threw e t) h k = tt
recover_series-Inserted now request s (finished created t) ((grown, _), extras) (rows, each) =
    record {
      rows = rows;
      occurrences = each;
      series = ap (λ xs. xs ++ new_series now request.series ∷ []) grown.series;
      series_id = refl;
      extras = extras;
      reminders = grown.events.0;
      events = ap (λ xs. xs ++ series_event now request created t.next_event ∷ []) grown.events.1;
    }

insert_unless-Inserted :
    (b : Bool) (now : Instant) (request : RecurringRequest) (s : MemoryStorage)
    → Returns (Inserted s request) (insert_unless b now request s)
unfolding insert_series
insert_unless-Inserted true now request s = tt
insert_unless-Inserted false now request s =
    recover_series-Inserted now request s _
      (insert_occurrences-Adds now request.series.id 0 request.appointments s)
      (insert_occurrences-Pushes now request.series.id 0 request.appointments s)

pub create_recurring_appointment_series-Inserted :
    (now : Instant) (request : RecurringRequest) (s : MemoryStorage)
    → Returns (Inserted s request) (create_recurring_appointment_series now request s)
unfolding create_recurring_appointment_series
create_recurring_appointment_series-Inserted now request s =
    elim (Option-cases (validate_recurring_appointment_series_request request)) [
      | inr (e, bad) ↦ rw (bad, Returns) tt
      | inl fine ↦ rw (fine, Returns) (insert_unless-Inserted _ now request s)
    ]
