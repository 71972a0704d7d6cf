-- ===== src/Storage/Invariant.antt =====
-- The invariant of the appointment tables, and the vocabulary for what a method call does to them.
use barber_bookings.Common.{
  ℕ, ◌<◌, false, List, [], ◌∷◌, Option, ◌≡◌, ◌≢◌, refl, ◌∙◌, ◌⊎◌, inl, inr, arith, All, All-append,
  All-map, Option-cases, Bool-cases, find?,
}
use barber_bookings.Schema.{Appointment}
use barber_bookings.Schema.Events.{AppointmentNotificationEvent}
use barber_bookings.Schema.Enums.{booked, is_booked}
use barber_bookings.Storage.State.{
  MemoryStorage, Action, Run, finished, threw, after, appointment_conflict, push_event,
}
use barber_bookings.Storage.Conflict.{
  Compatible, Separate, conflicts_with, assert_no_appointment_conflict, is_ignored, find?-none,
  Compatible-of_no_conflict,
}
use barber_bookings.Storage.Table.{Pairwise, Pairwise-push, Prefix, Prefix-refl, Prefix-trans}

-- No two rows share an id or double-book a barber, and every id is below its counter.
pub record IsConsistent (s : MemoryStorage) : Type 0 where
  pub fresh : All (λ a. a.id < s.next_appointment) s.appointments
  pub separate : Pairwise Separate s.appointments
  pub extras_owned : All (λ x. x.appointment_id < s.next_appointment) s.appointment_extras
  pub events_fresh : All (λ e. e.id < s.next_event) s.appointment_notification_events
  pub events_distinct : Pairwise (λ e f. e.id ≢ f.id) s.appointment_notification_events

-- `t` is `s` with rows pushed at the ends of the tables and the counters moved.
pub record Grown (s t : MemoryStorage) : Type 0 where
  pub appointments : Prefix s.appointments t.appointments
  pub extras : Prefix s.appointment_extras t.appointment_extras
  pub events : Prefix s.appointment_notification_events t.appointment_notification_events
  pub definitions : t.extra_definitions ≡ s.extra_definitions
  pub series : t.appointment_series ≡ s.appointment_series
  pub rules : t.barber_compensation_rules ≡ s.barber_compensation_rules

pub Grown-refl : (s : MemoryStorage) → Grown s s
Grown-refl s = record {
  appointments = Prefix-refl _;
  extras = Prefix-refl _;
  events = Prefix-refl _;
  definitions = refl;
  series = refl;
  rules = refl;
}

pub Grown-trans : (s t u : MemoryStorage) → Grown s t → Grown t u → Grown s u
Grown-trans s t u g h = record {
  appointments = Prefix-trans _ _ _ g.appointments h.appointments;
  extras = Prefix-trans _ _ _ g.extras h.extras;
  events = Prefix-trans _ _ _ g.events h.events;
  definitions = h.definitions ∙ g.definitions;
  series = h.series ∙ g.series;
  rules = h.rules ∙ g.rules;
}

-- The state in which a call ends, by return or by throw.
abbrev pub EndsIn : {A : Type 0} → (MemoryStorage → Type 0) → Run A → Type 0
EndsIn P (finished a s) = P s
EndsIn P (threw e s) = P s

pub EndsIn-bind :
    {A B : Type 0} {P Q : MemoryStorage → Type 0} (m : Run A) (k : A → Action B)
    → EndsIn P m
    → ((t : MemoryStorage) → P t → Q t)
    → ((a : A) (t : MemoryStorage) → P t → EndsIn Q (k a t))
    → EndsIn Q (after m k)
EndsIn-bind (finished a t) k p weaken next = next a t p
EndsIn-bind (threw e t) k p weaken next = weaken t p

pub EndsIn-map :
    {A : Type 0} {P Q : MemoryStorage → Type 0} (m : Run A)
    → ((t : MemoryStorage) → P t → Q t)
    → EndsIn P m
    → EndsIn Q m
EndsIn-map (finished a t) f p = f t p
EndsIn-map (threw e t) f p = f t p

pub All-of : {A : Type 0} {P : A → Type 0} → ((x : A) → P x) → (xs : List A) → All P xs
All-of f [] = tt
All-of f (x ∷ xs) = (f x, All-of f xs)

unprotected : (c : Appointment) → c.status ≡ booked → is_booked c.status ≡ false → ⊥
unprotected c p h = ground arith

-- The check either refuses and changes nothing, or lets through an appointment that is compatible
-- with every row but the ignored one.
pub assert-cases :
    (c : Appointment) (ignore_id : Option ℕ) (s : MemoryStorage)
    → (assert_no_appointment_conflict c ignore_id s ≡ threw appointment_conflict s)
      ⊎ ((assert_no_appointment_conflict c ignore_id s ≡ finished tt s)
          × All (λ b. is_ignored ignore_id b.id ≡ false → Compatible c b) s.appointments)
unfolding assert_no_appointment_conflict
assert-cases c ignore_id s = elim (Bool-cases (is_booked c.status)) [
  | inr open_slot ↦
      inr (rw open_slot refl, All-of (λ b _ p. absurd (unprotected c p open_slot)) s.appointments)
  | inl taken ↦ elim (Option-cases (find? (conflicts_with c ignore_id) s.appointments)) [
    | inr (b, e) ↦ inl (rw taken (rw e refl))
    | inl e ↦ inr (
      rw taken (rw e refl),
      All-map (λ b h k. Compatible-of_no_conflict c ignore_id b h k) s.appointments
          (find?-none (conflicts_with c ignore_id) s.appointments e),
    )
  ]
]

-- One more event under the next id.
pub push_event-IsConsistent :
    (make : ℕ → AppointmentNotificationEvent) (s : MemoryStorage)
    → ((n : ℕ) → (make n).id ≡ n)
    → IsConsistent s
    → IsConsistent (push_event make s)
push_event-IsConsistent make s e c = record {
  fresh = c.fresh;
  separate = c.separate;
  extras_owned = c.extras_owned;
  events_fresh =
      All-append _ s.appointment_notification_events (make s.next_event ∷ [])
        (All-map (λ x h. omega arith) _ c.events_fresh) (omega (arith, e s.next_event), tt);
  events_distinct =
      Pairwise-push _ s.appointment_notification_events (make s.next_event) c.events_distinct
        (All-map (λ x h q. omega (arith, e s.next_event)) _ c.events_fresh);
}
