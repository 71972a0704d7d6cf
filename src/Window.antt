-- ===== src/Window.antt =====
-- Which dates the public may book (shared/public-booking-window.ts). `today` is the date of the clock
-- in the time zone of the shop, which the code asks `Intl` for. Texts of dates compare as the dates
-- do, by year, month and day.
pub mod Open
use barber_bookings.Common.{
  ℕ, ◌+◌, ◌-◌, Bool, true, false, not, ◌&&◌, ◌||◌, Option, none, some, get_or, leb, ltb, ◌==◌,
  if◌then◌else◌,
}
use barber_bookings.Calendar.{CalendarDate, civil, date, utc_day}

abbrev pub default_public_booking_open_day : ℕ
default_public_booking_open_day = 20

abbrev pub default_public_booking_horizon_days : ℕ
default_public_booking_horizon_days = 366

pub record PublicBookingWindow : Type 0 where
  pub enabled : Bool
  pub today : CalendarDate
  pub max_date : CalendarDate
  pub open_day : ℕ
  pub next_month_available : Bool
  pub next_opening_date : CalendarDate

pub record MonthOpeningNotice : Type 0 where
  pub booking_month : CalendarDate
  pub opening_date : CalendarDate

-- `left <= right` on the texts of dates.
abbrev pub date_leb : CalendarDate → CalendarDate → Bool
date_leb a b =
    ltb a.year b.year
    || ((a.year == b.year) && (ltb a.month b.month || ((a.month == b.month) && leb a.day b.day)))

-- The first of the month `offset` months later.
unfoldable pub shift_month : ℕ → ℕ → ℕ → CalendarDate
shift_month year month offset =
    let c = civil (utc_day year (month + offset) 1) in date c.year c.month 1

unfoldable pub end_of_calendar_month : ℕ → ℕ → CalendarDate
end_of_calendar_month year month = civil (utc_day year (month + 1) 0)

-- `none` stands for a value that is no number.
unfoldable pub normalize_public_booking_open_day : Option ℕ → ℕ
normalize_public_booking_open_day none = default_public_booking_open_day
normalize_public_booking_open_day (some parsed) =
    if leb 1 parsed && leb parsed 28 then parsed else default_public_booking_open_day

unfoldable pub get_public_booking_window : CalendarDate → Option ℕ → PublicBookingWindow
get_public_booking_window today raw_open_day =
    let open_day = normalize_public_booking_open_day raw_open_day in
    let next_month_available = leb open_day today.day in
    let max_month = shift_month today.year today.month (if next_month_available then 1 else 0) in
    record {
      enabled = true;
      today = today;
      max_date = end_of_calendar_month max_month.year max_month.month;
      open_day = open_day;
      next_month_available = next_month_available;
      next_opening_date = date max_month.year max_month.month open_day;
    }

unfoldable pub get_open_public_booking_window : CalendarDate → Option ℕ → ℕ → PublicBookingWindow
get_open_public_booking_window today raw_open_day horizon_days =
    let safe_horizon =
      if ltb 0 horizon_days then horizon_days else default_public_booking_horizon_days in
    record (get_public_booking_window today raw_open_day) {
      enabled = false;
      max_date = civil (utc_day today.year today.month (today.day + safe_horizon));
    }

unfoldable pub is_date_within_public_booking_window : CalendarDate → PublicBookingWindow → Bool
is_date_within_public_booking_window requested window =
    date_leb window.today requested && date_leb requested window.max_date

-- The notice below the month that is shown, from its year and month; `bookingMonth` is a month, here its
-- first day.
unfoldable pub get_public_booking_month_opening_notice :
    Option PublicBookingWindow → ℕ → ℕ → Option MonthOpeningNotice
get_public_booking_month_opening_notice none year month = none
get_public_booking_month_opening_notice (some window) year month =
    let next_month = shift_month year month 1 in
    if not window.enabled || (month == 0) || ltb 12 month || date_leb next_month window.max_date
    then none
    else some (record { booking_month = next_month; opening_date = window.next_opening_date })
