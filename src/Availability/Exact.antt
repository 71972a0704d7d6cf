-- ===== src/Availability/Exact.antt =====
-- About `getAvailableTimeSlots` (client/src/lib/availability.ts), in terms of its arguments.
use barber_bookings.Common.{
  ℕ, ◌+◌, ◌*◌, ◌%◌, ◌≤◌, Bool, true, false, ◌&&◌, List, [], ◌∷◌, Option, none, some, map, any, ◌≡◌,
  ◌≢◌, ◌↔◌, ◌⊎◌, inl, inr, refl, sym, ap, ◌∙◌, arith, leb, ltb, ◌==◌, Bool-cases, if◌then◌else◌,
  All,
}
use barber_bookings.Common.Member.{In, In-filter, In-filter_of}
use barber_bookings.Booking.{minutes}
use barber_bookings.Calendar.{CalendarDate}
use barber_bookings.Schema.{Instant}
use barber_bookings.Availability.{
  BarberOption, ServiceOption, appointment_minutes, has_appointment_interval_conflict,
  interval_conflicts, overlaps,
}
use barber_bookings.Availability.Slots.{
  AvailabilityInput, PublicAppointment, as_availability, day_of, get_available_time_slots,
  has_barber_id, is_busy, performs, periods_on, same_date, slot_instant, slots_for, slots_of_day,
  target_barbers, today_of,
}
use barber_bookings.Availability.Offer.{IsBookable, free_slot, slots_of_day-IsExact}
use barber_bookings.Availability.Periods.{Fits}

-- The customer's choice of a barber admits `b`; 0 stands for any barber.
abbrev pub IsSelected : Option ℕ → BarberOption → Type 0
IsSelected none b = ⊥
IsSelected (some id) b = (id ≡ 0) ⊎ (b.id ≡ id)

In-target_barbers :
    (id : Option ℕ) (bs : List BarberOption) (b : BarberOption)
    → In b (target_barbers id bs) ↔ In b bs × IsSelected id b
unfolding target_barbers
In-target_barbers none bs b = ((λ i. absurd i), λ k. absurd k.1)
In-target_barbers (some id) bs b = elim (Bool-cases (id == 0)) [
  | inl t ↦ rw t ((λ i. (i, inl (ground arith))), λ k. k.0)
  | inr f ↦ rw f (
    (λ i. let (j, e) = In-filter (has_barber_id id) b bs i in (j, inr (ground arith))),
    λ (i, k). In-filter_of (has_barber_id id) b bs i (is_it k f),
  )
]
  where
    is_it : (id ≡ 0) ⊎ (b.id ≡ id) → (id == 0) ≡ false → (b.id == id) ≡ true
    is_it (inl e) f = absurd (ground arith)
    is_it (inr e) f = ground arith

-- A barber on the page, of the customer's choice, who does the service.
abbrev pub IsEligible : AvailabilityInput → ServiceOption → BarberOption → Type 0
IsEligible input service b =
    In b input.visible_barbers × IsSelected input.selected_barber_id b × (performs service b ≡ true)

In-eligible :
    (input : AvailabilityInput) (service : ServiceOption) (appointments : List PublicAppointment)
    (date : CalendarDate) (b : BarberOption)
    → In b (day_of input service appointments date).eligible ↔ IsEligible input service b
unfolding day_of
In-eligible input service appointments date b =
    let targets = In-target_barbers input.selected_barber_id input.visible_barbers b in
    (
      (λ i.
          let (j, e) = In-filter (performs service) b _ i in
          let both = targets.0 j in (both.0, both.1, e)),
      λ (i, s, e). In-filter_of (performs service) b _ (targets.1 (i, s)) e,
    )

-- The length of an appointment, 30 minutes if none is stored.
abbrev pub minutes_of : PublicAppointment → ℕ
minutes_of a = if ltb 0 a.duration then a.duration else 30

-- An appointment without a start that can be read, or one that ends before the service or starts after
-- it.
abbrev pub IsApart : Option Instant → ℕ → Instant → ℕ → Type 0
IsApart none length at duration = Unit
IsApart (some start) length at duration =
    (start + length * 60000 ≤ at) ⊎ (at + duration * 60000 ≤ start)

-- An appointment that leaves the barber free for a service of `duration` minutes from `at` on.
abbrev pub IsClear : ℕ → Instant → ℕ → PublicAppointment → Type 0
IsClear id at duration a = (a.barber_id ≢ id) ⊎ IsApart a.start_time (minutes_of a) at duration

apart_iff :
    (at end start stop : ℕ) → (ltb at end && ltb start stop) ≡ false ↔ (end ≤ at) ⊎ (stop ≤ start)
apart_iff at end start stop = ground arith

overlaps-IsApart :
    (start : Option Instant) (length : ℕ) (at : Instant) (duration : ℕ)
    → overlaps start length at (at + duration * 60000) ≡ false ↔ IsApart start length at duration
unfolding overlaps
overlaps-IsApart none length at duration = ((λ _. tt), λ _. refl)
overlaps-IsApart (some start) length at duration =
    apart_iff at (start + length * 60000) start (at + duration * 60000)

interval_conflicts-IsClear :
    (id : ℕ) (at : Instant) (duration : ℕ) (a : PublicAppointment)
    → interval_conflicts id at (at + duration * 60000) (as_availability a) ≡ false
      ↔ IsClear id at duration a
unfolding interval_conflicts appointment_minutes
interval_conflicts-IsClear id at duration a =
    let o = overlaps-IsApart a.start_time (minutes_of a) at duration in
    (
      (λ h. elim (Bool-cases (a.barber_id == id)) [
        | inl t ↦ inr (o.0 (rw t at h))
        | inr f ↦ inl (ground arith)
      ]),
      λ k. elim (Bool-cases (a.barber_id == id)) [
        | inl t ↦ elim k [
          | inl differs ↦ absurd (differs (ground arith))
          | inr apart ↦ rw (t, o.1 apart) refl
        ]
        | inr f ↦ rw f refl
      ],
    )

clash : {b : Bool} → b ≡ true → b ≡ false → ⊥
clash e f = ground arith

any-false :
    {A B : Type 0} (p : B → Bool) (f : A → B) (P : A → Type 0)
    → ((x : A) → p (f x) ≡ false ↔ P x)
    → (xs : List A) → any p (map f xs) ≡ false ↔ All P xs
any-false p f P exact [] = ((λ _. tt), λ _. refl)
any-false p f P exact (x ∷ xs) =
    let rest = any-false p f P exact xs in
    elim (Bool-cases (p (f x))) [
      | inl t ↦ rw t ((λ h. absurd (ground arith)), λ h. absurd (clash t ((exact x).1 h.0)))
      | inr e ↦ rw e ((λ h. ((exact x).0 e, rest.0 h)), λ h. rest.1 h.1)
    ]

is_busy-IsClear :
    (input : AvailabilityInput) (service : ServiceOption) (appointments : List PublicAppointment)
    (date : CalendarDate) (m : ℕ) (b : BarberOption)
    → is_busy (day_of input service appointments date) m b ≡ false
      ↔ All (IsClear b.id (slot_instant input date m) service.duration) appointments
unfolding day_of has_appointment_interval_conflict
is_busy-IsClear input service appointments date m b =
    let at = slot_instant input date m in
    any-false (interval_conflicts b.id at (at + service.duration * 60000)) as_availability
      (IsClear b.id at service.duration) (interval_conflicts-IsClear b.id at service.duration)
      appointments

-- The slot of minute `m` has passed.
abbrev pub has_passed : AvailabilityInput → CalendarDate → ℕ → Bool
has_passed input date m =
    same_date date (today_of input) && leb (slot_instant input date m) input.now

-- The service can start at minute `m` of the date: the minute is aligned to the interval and has not
-- passed, and a barber on the page whom the customer chose, or any if no one was chosen, does the
-- service, has opening hours that hold it, and no appointment that overlaps it.
abbrev pub IsOpen :
    AvailabilityInput → ServiceOption → List PublicAppointment → CalendarDate → ℕ → Type 0
IsOpen input service appointments date m =
    (m % minutes input.slot_interval_minutes ≡ 0)
    × (has_passed input date m ≡ false)
    × ((b : BarberOption) × IsEligible input service b
        × Fits service.duration m (periods_on input date b)
        × All (IsClear b.id (slot_instant input date m) service.duration) appointments)

IsBookable-IsOpen :
    (input : AvailabilityInput) (service : ServiceOption) (appointments : List PublicAppointment)
    (date : CalendarDate) (m : ℕ)
    → IsBookable (day_of input service appointments date) input.slot_interval_minutes m
      ↔ IsOpen input service appointments date m
unfolding day_of
IsBookable-IsOpen input service appointments date m = (
  (λ (e, p, (b, (i, fit, free))). (
    e,
    p,
    (
      b,
      (In-eligible input service appointments date b).0 i,
      fit,
      (is_busy-IsClear input service appointments date m b).0 free,
    ),
  )),
  λ (e, p, (b, i, fit, free)). (
    e,
    p,
    (
      b,
      (
        (In-eligible input service appointments date b).1 i,
        fit,
        (is_busy-IsClear input service appointments date m b).1 free,
      ),
    ),
  ),
)

chosen :
    (input : AvailabilityInput) (service : ServiceOption) (appointments : List PublicAppointment)
    (date : CalendarDate)
    → input.selected_service ≡ some service
    → input.existing_appointments ≡ some appointments
    → slots_of_day (day_of input service appointments date) input.slot_interval_minutes
      ≡ get_available_time_slots input (some date)
unfolding get_available_time_slots slots_for
chosen input service appointments date e f = sym (
    ap (λ s. slots_for input s input.existing_appointments (some date)) e
    ∙ ap (λ a. slots_for input (some service) a (some date)) f)

-- The free slots are exact: for a service of at least a minute, the page shows minute `m` of the date as
-- available if and only if the service can start then, `IsOpen` being stated in terms of the arguments.
pub get_available_time_slots-IsExact :
    (input : AvailabilityInput) (service : ServiceOption) (appointments : List PublicAppointment)
    (date : CalendarDate) (m : ℕ)
    → input.selected_service ≡ some service
    → input.existing_appointments ≡ some appointments
    → 1 ≤ service.duration
    → In (free_slot m) (get_available_time_slots input (some date))
      ↔ IsOpen input service appointments date m
unfolding day_of
get_available_time_slots-IsExact input service appointments date m e f one =
    let day = day_of input service appointments date in
    let exact = slots_of_day-IsExact day input.slot_interval_minutes m one in
    let meaning = IsBookable-IsOpen input service appointments date m in
    let same = chosen input service appointments date e f in
    ((λ i. meaning.0 (exact.0 (rw (sym same) at i))), λ o. rw (sym same) (exact.1 (meaning.1 o)))
