-- ===== src/Examples/Availability.antt =====
-- Slots of a concrete shop (client/src/lib/availability.ts).
use barber_bookings.Common.{
  ℕ, ◌+◌, ◌/◌, true, [], ◌∷◌, Option, some, none, ◌≡◌, ◌↔◌, inl, inr, refl, arith,
}
use barber_bookings.Common.Member.{In, any_of_In}
use barber_bookings.Calendar.{calendar, civil, date}
use barber_bookings.Booking.{thirty}
use barber_bookings.Storage.State.{MemoryStorage, finished}
use barber_bookings.Storage.Conflict.{assert_no_appointment_conflict}
use barber_bookings.Storage.Create.{new_appointment}
use barber_bookings.Storage.Calls.{empty_storage}
use barber_bookings.Examples.Storage.{row}
use barber_bookings.TimeZone.{epoch_day, utc_timestamp}
use barber_bookings.TimeZone.Convergence.{local_time}
use barber_bookings.Terms.{
  get_effective_appointment_duration_minutes, has_appointment_service_terms_snapshot,
  service_duration,
}
use barber_bookings.Availability.{
  BarberOption, BrowserTime, MinutePeriod, ServiceOption, can_barber_perform_service,
  default_periods_for_day, get_effective_periods_for_barber, intersect_periods, narrow_periods,
  periods_for_shop,
}
use barber_bookings.Availability.Slots.{
  AvailabilityInput, find_first_available_date, get_available_time_slots, slot_instant,
  is_available, today_of,
}
use barber_bookings.Availability.Booked.{
  candidate, free_slot-IsAccepted, public_appointment, public_appointments,
}
use barber_bookings.Availability.Exact.{IsEligible, IsOpen, get_available_time_slots-IsExact}
use barber_bookings.Availability.First.{
  IsFirstFree, find_first_available_date-IsFirstFree, has_free_slot,
}
use barber_bookings.Availability.Offer.{free_slot}
use barber_bookings.Availability.Periods.{Fits, intersect_periods-IsExact}

abbrev morning : MinutePeriod
morning = record { start = 540; end = 780 }

abbrev late : MinutePeriod
late = record { start = 600; end = 840 }

intersect_periods-IsExact_example :
    Fits 30 600 (intersect_periods (morning ∷ []) (late ∷ []))
    ↔ Fits 30 600 (morning ∷ []) × Fits 30 600 (late ∷ [])
intersect_periods-IsExact_example =
    intersect_periods-IsExact 30 600 (morning ∷ []) (late ∷ []) (omega arith)

-- A browser that keeps UTC.
abbrev browser : BrowserTime
browser = record {
  set_hours = λ day hours minutes. utc_timestamp (local_time day hours minutes);
  calendar_date_key = λ at. civil (at / 86400000 + epoch_day);
}

abbrev rui : BarberOption
rui = record { id = 1; service_ids = some (3 ∷ []) }

abbrev haircut : ServiceOption
haircut = record { id = 3; duration = 30 }

abbrev storage : MemoryStorage
storage = record (empty_storage [] []) { appointments = row 1 1773136800000 ∷ [] }

abbrev durations : ℕ → Option ℕ
durations id = none

-- The row is at 10:00 of that date.
-- Tuesday, 2026-03-10, seen from the day before.
abbrev page : AvailabilityInput
page = record {
  selected_service = some haircut;
  selected_barber_id = some 0;
  visible_barbers = rui ∷ [];
  availability_rows = none;
  shop_availability_rows = none;
  existing_appointments = some (public_appointments 1 (1 ∷ []) durations storage.appointments);
  now = 1773014400000;
  time_zone = none;
  slot_interval_minutes = thirty;
  browser = browser;
}

half_past_ten :
    IsOpen page haircut
      (public_appointments 1 (1 ∷ []) durations storage.appointments)
      (date 2026 3 10)
      630
unfolding public_appointments slot_instant today_of utc_timestamp calendar
    get_effective_periods_for_barber periods_for_shop narrow_periods default_periods_for_day
    can_barber_perform_service get_effective_appointment_duration_minutes service_duration
    has_appointment_service_terms_snapshot new_appointment public_appointment
half_past_ten = (
  refl,
  refl,
  (
    rui,
    (inl refl, inl refl, refl),
    (morning, inl refl, omega arith, omega arith),
    (inr (inl (omega arith)), tt),
  ),
)

get_available_time_slots-IsExact_example :
    In (free_slot 630) (get_available_time_slots page (some (date 2026 3 10)))
    ↔ IsOpen page haircut
        (public_appointments 1 (1 ∷ []) durations storage.appointments)
        (date 2026 3 10)
        630
get_available_time_slots-IsExact_example =
    get_available_time_slots-IsExact page haircut
      (public_appointments 1 (1 ∷ []) durations storage.appointments) (date 2026 3 10) 630 refl refl
      (omega arith)

is_free : In (free_slot 630) (get_available_time_slots page (some (date 2026 3 10)))
is_free = get_available_time_slots-IsExact_example.1 half_past_ten

free_slot-IsAccepted_example :
    (b : BarberOption) × IsEligible page haircut b
    × (assert_no_appointment_conflict
          (candidate (row 2 0) b.id (slot_instant page (date 2026 3 10) 630) 30)
          none
          storage
        ≡ finished tt storage)
unfolding new_appointment has_appointment_service_terms_snapshot
free_slot-IsAccepted_example =
    free_slot-IsAccepted page haircut (date 2026 3 10) 630 1 durations (1 ∷ []) storage (row 2 0)
      refl refl (omega arith) ((refl, omega arith), tt) (refl, tt) is_free

that_date : civil 739685 ≡ date 2026 3 10
unfolding calendar
that_date = refl

has_free : has_free_slot page 739685 ≡ true
has_free =
    any_of_In is_available (free_slot 630) (get_available_time_slots page (some (civil 739685)))
      (rw that_date is_free) refl

find_first_available_date-IsFirstFree_example :
    (day : ℕ) × (find_first_available_date page 739684 739690 ≡ some day)
    × IsFirstFree page 739684 739685 day
find_first_available_date-IsFirstFree_example =
    find_first_available_date-IsFirstFree page 739684 739690 739685 (omega arith) (omega arith)
      has_free
