-- ===== src/Availability/Ordered.antt =====
-- About the `Set` of start minutes, its order, and the `Map` of slots in `getAvailableTimeSlots`
-- (client/src/lib/availability.ts).
use barber_bookings.Common.{
  ℕ, ◌+◌, ◌*◌, ◌/◌, ◌%◌, ◌<◌, true, false, List, [], ◌∷◌, ◌++◌, Option, none, some, map, ◌≡◌, ◌≢◌,
  inl, inr, refl, sym, ap, ◌∙◌, arith, leb, has, Bool-cases, All, All-map, All-append,
}
use barber_bookings.Common.Member.{In}
use barber_bookings.Common.Sort.{sort_by}
use barber_bookings.Common.Sort.Ascending.{IsAscending, IsDistinct, sort_by-IsAscending}
use barber_bookings.Common.Steps.{steps}
use barber_bookings.Booking.{BookingSlotIntervalMinutes, first_clock_aligned_minute, minutes}
use barber_bookings.Calendar.{CalendarDate}
use barber_bookings.Availability.{
  BarberOption, ServiceOption, MinutePeriod, TimeSlot, time_to_minutes,
}
use barber_bookings.Availability.Slots.{
  Day, clock_time, collect_slots, same_time, set_add, set_slot, slots_of_day, time_slot,
  add_barbers, add_periods, add_starts, AvailabilityInput, PublicAppointment, day_of, slots_for,
  get_available_time_slots,
}

pub has_of_In : (n : ℕ) (xs : List ℕ) → In n xs → has n xs ≡ true
has_of_In n [] h = absurd h
has_of_In n (x ∷ xs) (inl e) = ground (arith, e)
has_of_In n (x ∷ xs) (inr h) = ground (arith, has_of_In n xs h)

pub In-of_has : (n : ℕ) (xs : List ℕ) → has n xs ≡ true → In n xs
In-of_has n [] h = ground arith
In-of_has n (x ∷ xs) h = ground (arith, In-of_has n xs)

append-IsDistinct :
    (xs : List ℕ) (n : ℕ) → IsDistinct xs → has n xs ≡ false → IsDistinct (xs ++ n ∷ [])
append-IsDistinct [] n h f = (tt, tt)
append-IsDistinct (x ∷ xs) n h f = (
  All-append (λ y. x ≢ y) xs (n ∷ []) h.0 (ground arith, tt),
  append-IsDistinct xs n h.1 (ground arith),
)

set_add-IsDistinct : (n : ℕ) (set : List ℕ) → IsDistinct set → IsDistinct (set_add n set)
unfolding set_add
set_add-IsDistinct n set h = elim (Bool-cases (has n set)) [
  | inl t ↦ rw t h
  | inr f ↦ rw f (append-IsDistinct set n h f)
]

clock_time_differs : (m n : ℕ) → m < n → same_time (clock_time m) (clock_time n) ≡ false
clock_time_differs m n lt = ground arith

-- A slot of a time that no slot has is added at the end.
set_slot_fresh :
    (slot : TimeSlot) (slots : List TimeSlot)
    → All (λ s. same_time s.time slot.time ≡ false) slots
    → set_slot slot slots ≡ slots ++ slot ∷ []
unfolding set_slot
set_slot_fresh slot [] h = refl
set_slot_fresh slot (s ∷ rest) h = rw h.0 (ap (λ t. s ∷ t) (set_slot_fresh slot rest h.1))

append-nil : {A : Type 0} (xs : List A) → xs ++ [] ≡ xs
append-nil [] = refl
append-nil (x ∷ xs) = ap (λ t. x ∷ t) (append-nil xs)

append_assoc :
    {A : Type 0} (xs : List A) (y : A) (zs : List A) → (xs ++ y ∷ []) ++ zs ≡ xs ++ y ∷ zs
append_assoc [] y zs = refl
append_assoc (x ∷ xs) y zs = ap (λ t. x ∷ t) (append_assoc xs y zs)

-- The time of a slot is none of the minutes.
IsFresh : List ℕ → TimeSlot → Type 0
IsFresh ms s = All (λ m. same_time s.time (clock_time m) ≡ false) ms

time_slot-IsFresh :
    (day : Day) (m : ℕ) (ms : List ℕ) → All (λ n. m < n) ms → IsFresh ms (time_slot day m)
unfolding IsFresh time_slot
time_slot-IsFresh day m ms h = All-map (clock_time_differs m) ms h

-- The slots of ascending minutes, in their order, after those of other times.
collect_slots-map :
    (day : Day) (ms : List ℕ) (slots : List TimeSlot)
    → IsAscending ms
    → All (IsFresh ms) slots
    → collect_slots day ms slots ≡ slots ++ map (time_slot day) ms
unfolding collect_slots IsFresh
collect_slots-map day [] slots h f = sym (append-nil slots)
collect_slots-map day (m ∷ ms) slots h f =
    let fresh =
      set_slot_fresh (time_slot day m) slots
        (All-map (λ s (k : IsFresh (m ∷ ms) s). k.0) slots f) in
    rw fresh (
      collect_slots-map day ms (slots ++ time_slot day m ∷ []) h.1 (
        All-append (IsFresh ms) slots (time_slot day m ∷ [])
          (All-map (λ s (k : IsFresh (m ∷ ms) s). k.1) slots f)
          (time_slot-IsFresh day m ms h.0, tt))
      ∙ append_assoc slots (time_slot day m) (map (time_slot day) ms))

add_starts-IsDistinct :
    (duration end : ℕ) (ms set : List ℕ)
    → IsDistinct set
    → IsDistinct (add_starts duration end ms set)
unfolding add_starts
add_starts-IsDistinct duration end [] set h = h
add_starts-IsDistinct duration end (m ∷ ms) set h = elim (Bool-cases (leb (m + duration) end)) [
  | inl t ↦
      rw t (add_starts-IsDistinct duration end ms (set_add m set) (set_add-IsDistinct m set h))
  | inr f ↦ rw f (add_starts-IsDistinct duration end ms set h)
]

add_periods-IsDistinct :
    (interval : BookingSlotIntervalMinutes) (duration : ℕ) (ps : List MinutePeriod) (set : List ℕ)
    → IsDistinct set
    → IsDistinct (add_periods interval duration ps set)
unfolding add_periods
add_periods-IsDistinct interval duration [] set h = h
add_periods-IsDistinct interval duration (p ∷ ps) set h =
    add_periods-IsDistinct interval duration ps _ (
      add_starts-IsDistinct duration p.end
        (steps p.end (minutes interval) (first_clock_aligned_minute p.start interval) p.end) set h)

pub add_barbers-IsDistinct :
    (periods : BarberOption → List MinutePeriod) (interval : BookingSlotIntervalMinutes)
    (duration : ℕ) (bs : List BarberOption) (set : List ℕ)
    → IsDistinct set
    → IsDistinct (add_barbers periods interval duration bs set)
unfolding add_barbers
add_barbers-IsDistinct periods interval duration [] set h = h
add_barbers-IsDistinct periods interval duration (b ∷ bs) set h =
    add_barbers-IsDistinct periods interval duration bs _
      (add_periods-IsDistinct interval duration (periods b) set h)

-- The sorted start minutes of a day.
abbrev pub start_minutes : Day → BookingSlotIntervalMinutes → List ℕ
start_minutes day interval =
    sort_by leb (add_barbers day.periods interval day.duration day.eligible [])

pub start_minutes-IsAscending :
    (day : Day) (interval : BookingSlotIntervalMinutes) → IsAscending (start_minutes day interval)
start_minutes-IsAscending day interval =
    sort_by-IsAscending _
      (add_barbers-IsDistinct day.periods interval day.duration day.eligible [] tt)

-- One slot per start minute.
pub slots_of_day-map :
    (day : Day) (interval : BookingSlotIntervalMinutes)
    → slots_of_day day interval ≡ map (time_slot day) (start_minutes day interval)
unfolding slots_of_day
slots_of_day-map day interval =
    collect_slots-map day (start_minutes day interval) [] (start_minutes-IsAscending day interval)
      tt

abbrev pub IsEarlierFirst : List TimeSlot → Type 0
IsEarlierFirst [] = Unit
IsEarlierFirst (s ∷ slots) =
    All (λ t. time_to_minutes s.time < time_to_minutes t.time) slots × IsEarlierFirst slots

All-map_list :
    {A B : Type 0} (P : B → Type 0) (f : A → B) (xs : List A)
    → All (λ x. P (f x)) xs
    → All P (map f xs)
All-map_list P f [] h = tt
All-map_list P f (x ∷ xs) h = (h.0, All-map_list P f xs h.1)

map-IsEarlierFirst :
    (day : Day) (ms : List ℕ) → IsAscending ms → IsEarlierFirst (map (time_slot day) ms)
unfolding time_slot
map-IsEarlierFirst day [] h = tt
map-IsEarlierFirst day (m ∷ ms) h = (
  All-map_list (λ t. m / 60 * 60 + m % 60 < time_to_minutes t.time) (time_slot day) ms
      (All-map (λ n (k : m < n). omega (arith, k)) ms h.0),
  map-IsEarlierFirst day ms h.1,
)

pub slots_of_day-IsEarlierFirst :
    (day : Day) (interval : BookingSlotIntervalMinutes) → IsEarlierFirst (slots_of_day day interval)
slots_of_day-IsEarlierFirst day interval =
    rw (slots_of_day-map day interval)
      (map-IsEarlierFirst day _ (start_minutes-IsAscending day interval))

slots_for-IsEarlierFirst :
    (input : AvailabilityInput) (service : Option ServiceOption)
    (appointments : Option (List PublicAppointment)) (date : Option CalendarDate)
    → IsEarlierFirst (slots_for input service appointments date)
unfolding slots_for
slots_for-IsEarlierFirst input none appointments date = tt
slots_for-IsEarlierFirst input (some service) none date = tt
slots_for-IsEarlierFirst input (some service) (some appointments) none = tt
slots_for-IsEarlierFirst input (some service) (some appointments) (some date) =
    slots_of_day-IsEarlierFirst (day_of input service appointments date) input.slot_interval_minutes

-- Whatever the rows, the barbers and the interval, the slots come in ascending order of their times,
-- and so no time twice.
pub get_available_time_slots-IsEarlierFirst :
    (input : AvailabilityInput) (date : Option CalendarDate)
    → IsEarlierFirst (get_available_time_slots input date)
unfolding get_available_time_slots
get_available_time_slots-IsEarlierFirst input date =
    slots_for-IsEarlierFirst input input.selected_service input.existing_appointments date
