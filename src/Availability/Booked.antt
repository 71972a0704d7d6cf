-- ===== src/Availability/Booked.antt =====
-- The appointments that `GET /api/appointments/public` lists (server/routes.ts), the slots that the
-- page computes from them (client/src/lib/availability.ts), and the check of `createAppointment`
-- (server/storage.ts) against the same rows.
use barber_bookings.Common.{
  ℕ, ◌+◌, ◌*◌, ◌≤◌, Bool, true, false, ◌&&◌, List, [], ◌∷◌, Option, none, some, map, filter, find?,
  has, ◌≡◌, ◌⊎◌, inl, inr, refl, ap, ◌∙◌, arith, ltb, ◌==◌, ==_iff, Bool-cases, if◌then◌else◌, All,
  All-zip,
}
use barber_bookings.Common.Member.{In, In-All}
use barber_bookings.Common.Sort.{All-filter}
use barber_bookings.Calendar.{CalendarDate}
use barber_bookings.Schema.{Appointment, Instant}
use barber_bookings.Schema.Enums.{is_booked}
use barber_bookings.Storage.State.{MemoryStorage, finished}
use barber_bookings.Storage.Conflict.{
  assert_no_appointment_conflict, conflicts_with, get_appointment_end_time, get_duration_minutes,
}
use barber_bookings.Terms.{
  get_effective_appointment_duration_minutes, has_appointment_service_terms_snapshot,
}
use barber_bookings.Availability.{BarberOption, ServiceOption}
use barber_bookings.Availability.Slots.{
  AvailabilityInput, PublicAppointment, get_available_time_slots, slot_instant,
}
use barber_bookings.Availability.Offer.{free_slot}
use barber_bookings.Availability.Exact.{
  IsClear, IsEligible, get_available_time_slots-IsExact, minutes_of,
}

-- The callback of the `map`.
unfoldable pub public_appointment : ℕ → (ℕ → Option ℕ) → Appointment → PublicAppointment
public_appointment location_id service_durations app = record {
  id = app.id;
  barber_id = app.barber_id;
  service_id = if app.location_id == location_id then app.service_id else none;
  start_time = some app.start_time;
  duration = get_effective_appointment_duration_minutes app service_durations;
}

abbrev pub is_public : List ℕ → Appointment → Bool
is_public visible_barber_ids app = is_booked app.status && has app.barber_id visible_barber_ids

unfoldable pub public_appointments :
    ℕ → List ℕ → (ℕ → Option ℕ) → List Appointment → List PublicAppointment
unfolding public_appointment
public_appointments location_id visible_barber_ids service_durations appointments =
    map (public_appointment location_id service_durations)
      (filter (is_public visible_barber_ids) appointments)

-- A row with the name and price of its service and a positive duration, as `createAppointment` writes it.
abbrev pub HasTerms : Appointment → Type 0
HasTerms a = (has_appointment_service_terms_snapshot a ≡ true) × (1 ≤ a.duration_minutes)

All-of_map :
    {A B : Type 0} (P : B → Type 0) (f : A → B) (xs : List A)
    → All P (map f xs)
    → All (λ x. P (f x)) xs
All-of_map P f [] h = tt
All-of_map P f (x ∷ xs) h = (h.0, All-of_map P f xs h.1)

find?-none_of :
    {A : Type 0} (p : A → Bool) (xs : List A) → All (λ x. p x ≡ false) xs → find? p xs ≡ none
find?-none_of p [] h = refl
find?-none_of p (x ∷ xs) h = rw h.0 (find?-none_of p xs h.1)

-- With its terms stored, a row is shown at the length that the storage gives it.
public_duration :
    (a : Appointment) (durations : ℕ → Option ℕ)
    → HasTerms a
    → get_effective_appointment_duration_minutes a durations ≡ a.duration_minutes
unfolding get_effective_appointment_duration_minutes
public_duration a durations (terms, one) = ground (arith, terms, one)

no_overlap :
    (s d t e : ℕ)
    → 1 ≤ d
    → 1 ≤ e
    → (s + d * 60000 ≤ t) ⊎ (t + e * 60000 ≤ s)
    → (ltb t (get_appointment_end_time s d) && ltb s (get_appointment_end_time t e)) ≡ false
unfolding get_appointment_end_time get_duration_minutes
no_overlap s d t e one two h = ground arith

no_conflict :
    (x y z w v : Bool) → (x ≡ true → y ≡ true → (w && v) ≡ false) → (x && y && z && w && v) ≡ false
no_conflict true true true w v h = h refl refl
no_conflict true true false w v h = refl
no_conflict true false z w v h = refl
no_conflict false y z w v h = refl

shown_minutes :
    (location_id : ℕ) (durations : ℕ → Option ℕ) (a : Appointment)
    → HasTerms a
    → minutes_of (public_appointment location_id durations a) ≡ a.duration_minutes
unfolding public_appointment
shown_minutes location_id durations a terms =
    positive _ a.duration_minutes (public_duration a durations terms) terms.1
  where
    positive : (d e : ℕ) → d ≡ e → 1 ≤ e → (if ltb 0 d then d else 30) ≡ e
    positive d e same one = ground arith

-- A service that a row is clear of does not overlap it.
apart_rows :
    (location_id : ℕ) (durations : ℕ → Option ℕ) (a : Appointment) (id t e : ℕ)
    → HasTerms a
    → 1 ≤ e
    → a.barber_id ≡ id
    → IsClear id t e (public_appointment location_id durations a)
    → (ltb t (get_appointment_end_time a.start_time a.duration_minutes)
        && ltb a.start_time (get_appointment_end_time t e))
      ≡ false
unfolding public_appointment
apart_rows location_id durations a id t e terms one same (inl differs) = absurd (differs same)
apart_rows location_id durations a id t e terms one same (inr far) =
    no_overlap a.start_time a.duration_minutes t e terms.1 one
      (far_by _ a.duration_minutes (shown_minutes location_id durations a terms) far)
  where
    far_by :
        (d d2 : ℕ)
        → d ≡ d2
        → (a.start_time + d * 60000 ≤ t) ⊎ (t + e * 60000 ≤ a.start_time)
        → (a.start_time + d2 * 60000 ≤ t) ⊎ (t + e * 60000 ≤ a.start_time)
    far_by d d2 same2 (inl le) = inl (omega (arith, same2, le))
    far_by d d2 same2 (inr le) = inr le

public_of_booked :
    (ids : List ℕ) (a : Appointment) (id : ℕ)
    → has id ids ≡ true
    → is_booked a.status ≡ true
    → a.barber_id ≡ id
    → is_public ids a ≡ true
public_of_booked ids a id seen live same =
    both_true (is_booked a.status) (has a.barber_id ids) live (ap (λ i. has i ids) same ∙ seen)
  where
    both_true : (x y : Bool) → x ≡ true → y ≡ true → (x && y) ≡ true
    both_true x y h k = ground arith

conflicts_with-of_IsClear :
    (location_id : ℕ) (durations : ℕ → Option ℕ) (ids : List ℕ) (c a : Appointment)
    → HasTerms a
    → 1 ≤ c.duration_minutes
    → has c.barber_id ids ≡ true
    → (is_public ids a ≡ true
        → IsClear c.barber_id c.start_time c.duration_minutes
            (public_appointment location_id durations a))
    → conflicts_with c none a ≡ false
unfolding conflicts_with
conflicts_with-of_IsClear location_id durations ids c a terms one seen clear =
    no_conflict (is_booked a.status) (a.barber_id == c.barber_id) true _ _ (λ live e.
      let same = (==_iff a.barber_id c.barber_id).0 e in
      apart_rows location_id durations a c.barber_id c.start_time c.duration_minutes terms one same
        (clear (public_of_booked ids a c.barber_id seen live same)))

no_conflicts :
    (location_id : ℕ) (durations : ℕ → Option ℕ) (ids : List ℕ) (c : Appointment)
    (rows : List Appointment)
    → All HasTerms rows
    → 1 ≤ c.duration_minutes
    → has c.barber_id ids ≡ true
    → All
        (IsClear c.barber_id c.start_time c.duration_minutes)
        (public_appointments location_id ids durations rows)
    → All (λ a. conflicts_with c none a ≡ false) rows
unfolding public_appointments
no_conflicts location_id durations ids c rows terms one seen clear =
    All-zip
      (λ a (t : HasTerms a)
          (k : is_public ids a ≡ true
            → IsClear c.barber_id c.start_time c.duration_minutes
                (public_appointment location_id durations a)).
        conflicts_with-of_IsClear location_id durations ids c a t one seen k)
      rows terms
      (All-filter
        (λ a.
          IsClear c.barber_id c.start_time c.duration_minutes
            (public_appointment location_id durations a))
        (is_public ids) rows
        (All-of_map (IsClear c.barber_id c.start_time c.duration_minutes)
          (public_appointment location_id durations) (filter (is_public ids) rows) clear))

assert_passes :
    (c : Appointment) (s : MemoryStorage)
    → All (λ a. conflicts_with c none a ≡ false) s.appointments
    → assert_no_appointment_conflict c none s ≡ finished tt s
unfolding assert_no_appointment_conflict
assert_passes c s h =
    let nothing = find?-none_of (conflicts_with c none) s.appointments h in
    elim (Bool-cases (is_booked c.status)) [ inl t ↦ rw (t, nothing) refl | inr f ↦ rw f refl ]

-- A booking of the slot with barber `id`, its other columns those of `c`.
abbrev pub candidate : Appointment → ℕ → Instant → ℕ → Appointment
candidate c id at duration = record c {
  barber_id = id;
  start_time = at;
  duration_minutes = duration;
}

-- The page and the storage agree. Let the public list be computed from all rows of the storage, each with
-- its service terms stored, and list the appointments of every barber on the page. If the page shows
-- minute `m` of a date as available for a service of at least a minute, then some barber on the page of
-- the customer's choice, who does the service, passes the conflict check of the storage: for an
-- appointment with that barber at that instant and of the service's length, whatever its other columns,
-- `assertNoAppointmentConflict` returns without an error.
pub free_slot-IsAccepted :
    (input : AvailabilityInput) (service : ServiceOption) (date : CalendarDate) (m location_id : ℕ)
    (durations : ℕ → Option ℕ) (ids : List ℕ) (s : MemoryStorage) (c : Appointment)
    → input.selected_service ≡ some service
    → input.existing_appointments
      ≡ some (public_appointments location_id ids durations s.appointments)
    → 1 ≤ service.duration
    → All HasTerms s.appointments
    → All (λ b. has b.id ids ≡ true) input.visible_barbers
    → In (free_slot m) (get_available_time_slots input (some date))
    → (b : BarberOption) × IsEligible input service b
      × (assert_no_appointment_conflict
            (candidate c b.id (slot_instant input date m) service.duration)
            none
            s
          ≡ finished tt s)
free_slot-IsAccepted input service date m location_id durations ids s c e f one terms seen i =
    let rows = public_appointments location_id ids durations s.appointments in
    let (aligned, passed, (b, eligible, fit, clear)) =
      (get_available_time_slots-IsExact input service rows date m e f one).0 i in
    let visible = In-All (λ b. has b.id ids ≡ true) b input.visible_barbers seen eligible.0 in
    let booking = candidate c b.id (slot_instant input date m) service.duration in
    (
      b,
      eligible,
      assert_passes booking s
          (no_conflicts location_id durations ids booking s.appointments terms one visible clear),
    )
