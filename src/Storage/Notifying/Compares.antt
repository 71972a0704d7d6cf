-- ===== src/Storage/Notifying/Compares.antt =====
-- How `updateAppointmentWithNotification` (server/storage.ts) compares the extras and rows.
use barber_bookings.Common.{
  ℕ, ◌<◌, Bool, true, false, not, List, [], ◌∷◌, Option, none, some, refl, inl, inr, All,
  All-append, Bool-cases, filter, if◌then◌else◌, ◌==◌,
}
use barber_bookings.Schema.{Appointment, AppointmentExtra, Instant}
use barber_bookings.Storage.State.{
  MemoryStorage, Action, pure, AppointmentExtraInput, ExtraSnapshot, throw_if,
}
use barber_bookings.Storage.Invariant.{IsConsistent}
use barber_bookings.Storage.Creation.{All-attach}
use barber_bookings.Storage.Creation.Reading.{Reads, Reads-bind, resolve-Reads, validate-Reads}
use barber_bookings.Storage.Extras.{appointment_extras_selection_changed}
use barber_bookings.Storage.Notify.{
  replacement_extras, compare_extras, resolve_replacement, current_extras, replace_extras,
}

throw_if-Reads : (b : Bool) (e : _) → Reads (throw_if b e)
throw_if-Reads true e s = refl
throw_if-Reads false e s = refl

if-Reads :
    {A : Type 0} (b : Bool) (m n : Action A)
    → Reads m
    → Reads n
    → Reads (λ s. if b then m s else n s)
if-Reads true m n p q = p
if-Reads false m n p q = q

module _ (now : Instant) (current candidate : Appointment) where
  resolve_replacement-Reads :
      (extras : List AppointmentExtraInput) (existing : List AppointmentExtra)
      → Reads (resolve_replacement now current candidate extras existing)
  resolve_replacement-Reads extras existing = Reads-bind _ _ (throw_if-Reads _ _) (λ _.
      Reads-bind _ _ (resolve-Reads now (some current.location_id) extras existing)
        (λ snapshots s. refl))

  compare_extras-Reads :
      (extras : List AppointmentExtraInput) → Reads (compare_extras now current candidate extras)
  compare_extras-Reads extras s =
      if-Reads (appointment_extras_selection_changed extras (current_extras current.id s)) _
        (pure none) (resolve_replacement-Reads extras (current_extras current.id s)) (λ t. refl) s

  pub replacement_extras-Reads :
      (extras : Option (List AppointmentExtraInput))
      → Reads (replacement_extras now current candidate extras)
  unfolding replacement_extras
  replacement_extras-Reads none = λ s. refl
  replacement_extras-Reads (some extras) =
      Reads-bind _ _ (validate-Reads extras) (λ _. compare_extras-Reads extras)

All-filter_of :
    {A : Type 0} (P : A → Type 0) (p : A → Bool) (xs : List A) → All P xs → All P (filter p xs)
All-filter_of P p [] h = tt
All-filter_of P p (x ∷ xs) h = elim (Bool-cases (p x)) [
  | inl e ↦ rw e (h.0, All-filter_of P p xs h.1)
  | inr e ↦ rw e (All-filter_of P p xs h.1)
]

pub replace_extras-IsConsistent :
    (id : ℕ) (replacement : Option (List ExtraSnapshot)) (s : MemoryStorage)
    → id < s.next_appointment
    → IsConsistent s
    → IsConsistent (replace_extras id replacement s)
replace_extras-IsConsistent id none s lt c = c
replace_extras-IsConsistent id (some snapshots) s lt c = record {
  fresh = c.fresh;
  separate = c.separate;
  extras_owned =
      All-append _ (filter (λ x. not (x.appointment_id == id)) s.appointment_extras) _
        (All-filter_of _ _ s.appointment_extras c.extras_owned)
        (All-attach id s.next_appointment snapshots lt);
  events_fresh = c.events_fresh;
  events_distinct = c.events_distinct;
}
