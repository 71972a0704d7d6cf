-- ===== src/Examples/Window.antt =====
-- The booking window on a day before and on a day after the opening (shared/public-booking-window.ts).
use barber_bookings.Common.{◌+◌, ◌*◌, ◌≤◌, true, none, ◌≡◌, refl, ◌↔◌, arith, leb, if◌then◌else◌}
use barber_bookings.Calendar.{calendar, date}
use barber_bookings.Calendar.RoundTrip.Years.{IsDate}
use barber_bookings.Window.{
  date_leb, end_of_calendar_month, get_public_booking_window, is_date_within_public_booking_window,
  normalize_public_booking_open_day, shift_month,
}
use barber_bookings.Window.Open.{get_public_booking_window-IsExact}

before_opening : (get_public_booking_window (date 2025 12 19) none).max_date ≡ date 2025 12 31
unfolding get_public_booking_window normalize_public_booking_open_day shift_month
    end_of_calendar_month calendar
before_opening = refl

after_opening : (get_public_booking_window (date 2025 12 20) none).max_date ≡ date 2026 1 31
unfolding get_public_booking_window normalize_public_booking_open_day shift_month
    end_of_calendar_month calendar
after_opening = refl

today-IsDate : IsDate (date 2025 12 20)
unfolding calendar
today-IsDate = record {
  year_in = omega arith;
  month_in = (omega arith, omega arith);
  day_in = (omega arith, omega arith);
}

asked-IsDate : IsDate (date 2026 1 31)
unfolding calendar
asked-IsDate = record {
  year_in = omega arith;
  month_in = (omega arith, omega arith);
  day_in = (omega arith, omega arith);
}

get_public_booking_window-IsExact_example :
    (is_date_within_public_booking_window
        (date 2026 1 31)
        (get_public_booking_window (date 2025 12 20) none)
      ≡ true)
    ↔ ((date_leb (date 2025 12 20) (date 2026 1 31) ≡ true)
        × (2026 * 12 + 1
            ≤ 2025 * 12 + 12 + (if leb (normalize_public_booking_open_day none) 20 then 1 else 0)))
get_public_booking_window-IsExact_example =
    get_public_booking_window-IsExact (date 2025 12 20) (date 2026 1 31) none today-IsDate
      asked-IsDate
