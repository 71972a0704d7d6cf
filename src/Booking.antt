-- ===== src/Booking.antt =====
-- Start times of bookings (shared/booking-slot-interval.ts). A clock time "HH:MM" is its minute of the
-- day; the text of the setting and of a time, which the code matches with a regular expression, is an
-- argument that is already read.
pub mod Aligned
use barber_bookings.Common.{
  ℕ, ◌+◌, ◌-◌, ◌*◌, ◌/◌, ◌%◌, min, Bool, true, false, ◌&&◌, List, Option, none, some, leb, ltb,
  ◌==◌, if◌then◌else◌,
}
use barber_bookings.Common.Steps.{steps}

-- `SUPPORTED_BOOKING_SLOT_INTERVAL_MINUTES`
pub data BookingSlotIntervalMinutes : Type 0 where
  fifteen thirty sixty : BookingSlotIntervalMinutes

abbrev pub minutes : BookingSlotIntervalMinutes → ℕ
minutes fifteen = 15
minutes thirty = 30
minutes sixty = 60

-- The setting as a number, or `none` if it is missing or blank; the result is `none` for the error.
unfoldable pub parse_booking_slot_interval_minutes : Option ℕ → Option BookingSlotIntervalMinutes
parse_booking_slot_interval_minutes none = some thirty
parse_booking_slot_interval_minutes (some parsed) =
    if parsed == 15
    then some fifteen
    else if parsed == 30
    then some thirty
    else if parsed == 60
    then some sixty
    else none

unfoldable pub is_minute_of_day_aligned : ℕ → ℕ → BookingSlotIntervalMinutes → Bool
is_minute_of_day_aligned hour minute interval =
    if leb hour 23 && leb minute 59 then (hour * 60 + minute) % minutes interval == 0 else false

-- `Math.ceil(minuteOfDay / intervalMinutes) * intervalMinutes`
unfoldable pub first_clock_aligned_minute : ℕ → BookingSlotIntervalMinutes → ℕ
first_clock_aligned_minute minute fifteen = (minute + 14) / 15 * 15
first_clock_aligned_minute minute thirty = (minute + 29) / 30 * 30
first_clock_aligned_minute minute sixty = (minute + 59) / 60 * 60

-- The loop ends at the end of the range, or at the first hour past 23.
unfoldable pub create_clock_aligned_time_options : ℕ → ℕ → BookingSlotIntervalMinutes → List ℕ
create_clock_aligned_time_options start_minute end_minute_exclusive interval =
    steps end_minute_exclusive (minutes interval) (first_clock_aligned_minute start_minute interval)
      (min end_minute_exclusive 1440)
