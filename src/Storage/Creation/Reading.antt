-- ===== src/Storage/Creation/Reading.antt =====
-- Calls of the storage (server/storage.ts) that only read, and rows that a call adds.
use barber_bookings.Common.{ℕ, ◌+◌, List, [], ◌∷◌, Option, none, some, ◌≡◌, refl, ◌∙◌, arith}
use barber_bookings.Schema.{AppointmentExtra, Instant}
use barber_bookings.Schema.Events.{AppointmentNotificationEvent}
use barber_bookings.Storage.State.{MemoryStorage, Action, ◌>>=◌, AppointmentExtraInput, push_event}
use barber_bookings.Storage.Extras.{
  resolve_appointment_extra_snapshots, resolve_at, resolve_from, resolve_one, resolve_new,
  from_definition, validate_appointment_extra_inputs,
}
use barber_bookings.Storage.Table.{Prefix-refl}
use barber_bookings.Storage.Invariant.{
  IsConsistent, Grown, Grown-refl, Grown-trans, EndsIn, EndsIn-bind, EndsIn-map,
  push_event-IsConsistent,
}

-- The state is the one that the call began with.
abbrev pub Reads : {A : Type 0} → Action A → Type 0
Reads m = (s : MemoryStorage) → EndsIn (λ t. t ≡ s) (m s)

pub Reads-bind :
    {A B : Type 0} (m : Action A) (k : A → Action B)
    → Reads m
    → ((a : A) → Reads (k a))
    → Reads (m >>= k)
Reads-bind m k p q s =
    EndsIn-bind (m s) k (p s) (λ t e. e) (λ a t e. EndsIn-map (k a t) (λ u f. f ∙ e) (q a t))

module _ (now : Instant) (location_id : ℕ) (existing : List AppointmentExtra) where
  resolve_new-Reads :
      (position : ℕ) (x : AppointmentExtraInput) → Reads (resolve_new now location_id position x)
  unfolding resolve_new from_definition
  resolve_new-Reads position x s = ground arith

  resolve_one-Reads :
      (position : ℕ) (x : AppointmentExtraInput)
      → Reads (resolve_one now location_id existing position x)
  unfolding resolve_one
  resolve_one-Reads position x s = ground (arith, resolve_new-Reads position x s)

  resolve_from-Reads :
      (position : ℕ) (xs : List AppointmentExtraInput)
      → Reads (resolve_from now location_id existing position xs)
  unfolding resolve_from
  resolve_from-Reads position [] = λ s. refl
  resolve_from-Reads position (x ∷ xs) =
      Reads-bind _ _ (resolve_one-Reads position x)
        (λ snapshot. Reads-bind _ _ (resolve_from-Reads (position + 1) xs) (λ rest s. refl))

pub validate-Reads :
    (xs : List AppointmentExtraInput) → Reads (validate_appointment_extra_inputs xs)
unfolding validate_appointment_extra_inputs
validate-Reads xs s = ground arith

resolve_at-Reads :
    (now : Instant) (location_id : Option ℕ) (existing : List AppointmentExtra)
    (xs : List AppointmentExtraInput)
    → Reads (resolve_at now location_id existing xs)
resolve_at-Reads now location_id existing [] s = refl
resolve_at-Reads now none existing (x ∷ xs) s = refl
resolve_at-Reads now (some l) existing (x ∷ xs) s =
    ground (arith, resolve_from-Reads now l existing 0 (x ∷ xs) s)

pub resolve-Reads :
    (now : Instant) (location_id : Option ℕ) (xs : List AppointmentExtraInput)
    (existing : List AppointmentExtra)
    → Reads (resolve_appointment_extra_snapshots now location_id xs existing)
unfolding resolve_appointment_extra_snapshots
resolve-Reads now location_id xs existing =
    Reads-bind _ _ (validate-Reads xs) (λ _. resolve_at-Reads now location_id existing xs)

-- What a call that only adds rows keeps.
abbrev pub Adds : MemoryStorage → MemoryStorage → Type 0
Adds s t = Grown s t × (IsConsistent s → IsConsistent t)

pub Adds-refl : (s : MemoryStorage) → Adds s s
Adds-refl s = (Grown-refl s, λ c. c)

pub Adds-trans : (s t u : MemoryStorage) → Adds s t → Adds t u → Adds s u
Adds-trans s t u (g, f) (h, k) = (Grown-trans s t u g h, λ c. k (f c))

pub push_event-Adds :
    (make : ℕ → AppointmentNotificationEvent) (s : MemoryStorage)
    → ((n : ℕ) → (make n).id ≡ n)
    → Adds s (push_event make s)
push_event-Adds make s e = (grown, push_event-IsConsistent make s e)
  where
    grown : Grown s (push_event make s)
    grown = record {
      appointments = Prefix-refl _;
      extras = Prefix-refl _;
      events = (make s.next_event ∷ [], refl);
      definitions = refl;
      series = refl;
      rules = refl;
    }
