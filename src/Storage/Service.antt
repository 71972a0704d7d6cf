-- ===== src/Storage/Service.antt =====
-- `deleteService` of `MemoryStorage` (server/storage.ts), as far as it concerns the appointments.
use barber_bookings.Common.{
  ℕ, ◌<◌, Bool, true, false, ◌&&◌, List, [], ◌∷◌, map, none, some, refl, leb, opt_eq, if◌then◌else◌,
  any, All, Bool-cases, inl, inr,
}
use barber_bookings.Schema.{Appointment, Instant}
use barber_bookings.Storage.State.{
  MemoryStorage, Action, finished, threw, service_has_future_appointments,
}
use barber_bookings.Storage.Conflict.{should_protect_appointment, Separate}
use barber_bookings.Storage.Table.{Pairwise}
use barber_bookings.Storage.Updating.Rows.{Keeps}

abbrev pub detach_if : Bool → Appointment → Appointment
detach_if true a = record a { service_id = none }
detach_if false a = a

-- `appointment.serviceId === id ? { ...appointment, serviceId: null } : appointment`
abbrev pub detach : ℕ → Appointment → Appointment
detach id a = detach_if (opt_eq a.service_id (some id)) a

abbrev pub is_upcoming : Instant → ℕ → Appointment → Bool
is_upcoming now id a =
    opt_eq a.service_id (some id) && should_protect_appointment a.status && leb now a.start_time

unfoldable pub delete_service : Instant → ℕ → Action (Unit {0})
delete_service now id s =
    if any (is_upcoming now id) s.appointments
    then threw service_has_future_appointments s
    else finished tt (record s { appointments = map (detach id) s.appointments })

All-map_rows :
    {A : Type 0} (P Q : A → Type 0) (f : A → A) (xs : List A)
    → ((x : A) → P x → Q (f x))
    → All P xs
    → All Q (map f xs)
All-map_rows P Q f [] g h = tt
All-map_rows P Q f (x ∷ xs) g h = (g x h.0, All-map_rows P Q f xs g h.1)

Pairwise-map :
    {A : Type 0} (R : A → A → Type 0) (f : A → A) (xs : List A)
    → ((x y : A) → R x y → R (f x) (f y))
    → Pairwise R xs
    → Pairwise R (map f xs)
Pairwise-map R f [] g h = tt
Pairwise-map R f (x ∷ xs) g h =
    (All-map_rows (R x) (R (f x)) f xs (g x) h.0, Pairwise-map R f xs g h.1)

detach-Separate :
    (p q : Bool) (a b : Appointment) → Separate a b → Separate (detach_if p a) (detach_if q b)
detach-Separate true true a b h = h
detach-Separate true false a b h = h
detach-Separate false true a b h = h
detach-Separate false false a b h = h

detach-below : (p : Bool) (n : ℕ) (a : Appointment) → a.id < n → (detach_if p a).id < n
detach-below true n a h = h
detach-below false n a h = h

-- `deleteService` keeps the appointments consistent, and changes nothing if it throws.
pub delete_service-Keeps :
    (now : Instant) (id : ℕ) (s : MemoryStorage) → Keeps s (delete_service now id s)
unfolding delete_service
delete_service-Keeps now id s = elim (Bool-cases (any (is_upcoming now id) s.appointments)) [
  | inl used ↦ rw (used, Keeps) refl
  | inr free ↦
      rw (free, Keeps)
        (λ c. record {
          fresh =
              All-map_rows _ _ (detach id) s.appointments
                (λ a h. detach-below (opt_eq a.service_id (some id)) s.next_appointment a h)
                c.fresh;
          separate =
              Pairwise-map Separate (detach id) s.appointments
                (λ a b h.
                  detach-Separate (opt_eq a.service_id (some id)) (opt_eq b.service_id (some id)) a
                    b h)
                c.separate;
          extras_owned = c.extras_owned;
          events_fresh = c.events_fresh;
          events_distinct = c.events_distinct;
        })
]
