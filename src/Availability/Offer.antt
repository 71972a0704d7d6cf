-- ===== src/Availability/Offer.antt =====
-- About the slots of `getAvailableTimeSlots` (client/src/lib/availability.ts).
use barber_bookings.Common.{
  ℕ, ◌%◌, ◌≤◌, Bool, true, false, not, ◌&&◌, List, [], ◌∷◌, map, any, filter, has, ◌≡◌, ◌↔◌, inl,
  inr, refl, sym, ap, ◌∙◌, arith, Bool-cases, and-eq-true,
}
use barber_bookings.Common.Member.{In, In-any, any_of_In, In-filter, In-filter_of}
use barber_bookings.Booking.{BookingSlotIntervalMinutes, minutes}
use barber_bookings.Availability.{
  BarberOption, ClockTime, MinutePeriod, TimeSlot, has_appointment_interval_conflict,
}
use barber_bookings.Availability.Slots.{
  Day, clock_time, fits, id_of, is_available_barber, is_busy, is_past, slots_of_day, time_slot,
}
use barber_bookings.Availability.Ordered.{In-of_has, has_of_In, slots_of_day-map, start_minutes}
use barber_bookings.Availability.Periods.{Fits}
use barber_bookings.Availability.Starts.{StartsWithSome, start_minutes-IsExact}

-- An eligible barber who can take the service at the minute: a period holds it, and none of the
-- appointments overlaps it.
abbrev pub CanTake : Day → ℕ → BarberOption → Type 0
CanTake day m b =
    In b day.eligible × Fits day.duration m (day.periods b) × (is_busy day m b ≡ false)

-- A bookable minute: aligned, not past, and free with some eligible barber.
abbrev pub IsBookable : Day → BookingSlotIntervalMinutes → ℕ → Type 0
IsBookable day interval m =
    (m % minutes interval ≡ 0) × (is_past day m ≡ false) × ((b : BarberOption) × CanTake day m b)

abbrev busy_ids : Day → ℕ → List ℕ
busy_ids day m = map id_of (filter (is_busy day m) day.eligible)

In-map : {A B : Type 0} (f : A → B) (x : A) (xs : List A) → In x xs → In (f x) (map f xs)
In-map f x [] i = absurd i
In-map f x (y ∷ ys) (inl e) = inl (ap f e)
In-map f x (y ∷ ys) (inr i) = inr (In-map f x ys i)

In-of_map :
    {A B : Type 0} (f : A → B) (y : B) (xs : List A)
    → In y (map f xs)
    → (x : A) × In x xs × (y ≡ f x)
In-of_map f y [] i = absurd i
In-of_map f y (x ∷ xs) (inl e) = (x, inl refl, e)
In-of_map f y (x ∷ xs) (inr i) = let (z, j, e) = In-of_map f y xs i in (z, inr j, e)

-- Whether a barber is busy depends on the id only.
busy_by_id :
    (day : Day) (m : ℕ) (b c : BarberOption)
    → b.id ≡ c.id
    → is_busy day m c ≡ true
    → is_busy day m b ≡ true
busy_by_id day m b c e h =
    ap
      (λ i.
        has_appointment_interval_conflict day.appointments i (day.slot_date_time m) day.duration)
      e
    ∙ h

has-busy_ids :
    (day : Day) (m : ℕ) (b : BarberOption)
    → In b day.eligible
    → has b.id (busy_ids day m) ≡ is_busy day m b
has-busy_ids day m b i = elim (Bool-cases (is_busy day m b)) [
  | inl t ↦
      has_of_In b.id (busy_ids day m)
        (In-map id_of b _ (In-filter_of (is_busy day m) b day.eligible i t))
      ∙ sym t
  | inr f ↦ elim (Bool-cases (has b.id (busy_ids day m))) [
    | inr g ↦ g ∙ sym f
    | inl t ↦
        let (c, j, e) = In-of_map id_of b.id _ (In-of_has b.id (busy_ids day m) t) in
        let (k, busy) = In-filter (is_busy day m) c day.eligible j in
        let both : true ≡ false = sym (busy_by_id day m b c e busy) ∙ f in absurd (ground arith)
  ]
]

Fits-of_any :
    (duration m : ℕ) (ps : List MinutePeriod) → any (fits duration m) ps ≡ true → Fits duration m ps
Fits-of_any duration m ps h =
    let (p, i, e) = In-any (fits duration m) ps h in (p, i, ground arith, ground arith)

any_of_Fits :
    (duration m : ℕ) (ps : List MinutePeriod) → Fits duration m ps → any (fits duration m) ps ≡ true
any_of_Fits duration m ps (p, i, a, b) = any_of_In (fits duration m) p ps i (ground arith)

-- The slot of a minute is available just when the minute is not past and some eligible barber can take
-- the service.
time_slot-IsExact :
    (day : Day) (m : ℕ)
    → (time_slot day m).available ≡ true
      ↔ (is_past day m ≡ false) × ((b : BarberOption) × CanTake day m b)
unfolding time_slot
time_slot-IsExact day m = (
  (λ h.
      let both =
        and-eq-true (not (is_past day m))
          (any (is_available_barber day m (busy_ids day m)) day.eligible) h in
      let (b, i, e) = In-any (is_available_barber day m (busy_ids day m)) day.eligible both.1 in
      let two =
        and-eq-true (any (fits day.duration m) (day.periods b)) (not (has b.id (busy_ids day m)))
          e in
      (
        is_false _ both.0,
        (
          b,
          (
            i,
            Fits-of_any day.duration m (day.periods b) two.0,
            sym (has-busy_ids day m b i) ∙ is_false _ two.1,
          ),
        ),
      )),
  λ (p, (b, (i, f, e))). and_true (not (is_past day m)) _ (rw p refl) (
      any_of_In (is_available_barber day m (busy_ids day m)) b day.eligible i (
        and_true _ _ (any_of_Fits day.duration m (day.periods b) f)
          (rw (has-busy_ids day m b i ∙ e) refl))),
)
  where
    is_false : (t : Bool) → not t ≡ true → t ≡ false
    is_false t h = ground arith

    and_true : (s t : Bool) → s ≡ true → t ≡ true → (s && t) ≡ true
    and_true s t h k = ground arith

clock_time-injective : (m n : ℕ) → clock_time m ≡ clock_time n → m ≡ n
clock_time-injective m n e = omega (arith, ap ClockTime.hours e, ap ClockTime.mins e)

abbrev pub free_slot : ℕ → TimeSlot
free_slot m = record { time = clock_time m; available = true }

same_slot : (day : Day) (m : ℕ) → (time_slot day m).available ≡ true → free_slot m ≡ time_slot day m
unfolding time_slot
same_slot day m e = ap (λ t. record { time = clock_time m; available = t }) (sym e)

time_slot_time : (day : Day) (m : ℕ) → (time_slot day m).time ≡ clock_time m
unfolding time_slot
time_slot_time day m = refl

StartsWithSome-of_CanTake :
    (day : Day) (interval : BookingSlotIntervalMinutes) (m : ℕ)
    → 1 ≤ day.duration
    → IsBookable day interval m
    → StartsWithSome day.periods interval day.duration m day.eligible
StartsWithSome-of_CanTake day interval m one (e, p, (b, (i, (q, j, low, high), free))) =
    (b, i, (q, j, ((low, e, omega (arith, one, high)), high)))

pub slots_of_day-IsExact :
    (day : Day) (interval : BookingSlotIntervalMinutes) (m : ℕ)
    → 1 ≤ day.duration
    → In (free_slot m) (slots_of_day day interval) ↔ IsBookable day interval m
slots_of_day-IsExact day interval m one = (
  (λ i.
      let (n, j, e) =
        In-of_map (time_slot day) (free_slot m) (start_minutes day interval)
          (rw (slots_of_day-map day interval) at i) in
      let same : m ≡ n = clock_time-injective m n (ap TimeSlot.time e ∙ time_slot_time day n) in
      let bookable = (time_slot-IsExact day n).0 (sym (ap TimeSlot.available e)) in
      let (b, k, (p, l, (aligned, fit))) = (start_minutes-IsExact day interval n).0 j in
      rw same (aligned.1, bookable.0, bookable.1)),
  λ h.
      let (e, p, taker) = h in
      let j =
        (start_minutes-IsExact day interval m).1 (StartsWithSome-of_CanTake day interval m one h) in
      rw (slots_of_day-map day interval, same_slot day m ((time_slot-IsExact day m).1 (p, taker)))
        (In-map (time_slot day) m (start_minutes day interval) j),
)
