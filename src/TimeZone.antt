-- ===== src/TimeZone.antt =====
-- Wall-clock times of a time zone (server/calendar-timezone.ts, and `calendarTimeInTimeZone` and
-- `dateKeyInTimeZone` of client/src/lib/availability.ts). `Intl` is a parameter: a zone is the function
-- that tells the calendar parts of an instant. Instants before 1970 are left out, and no offset
-- carries a date there.
pub mod Convergence
use barber_bookings.Common.{ℕ, zero, suc, ◌+◌, ◌-◌, ◌*◌, ◌==◌, if◌then◌else◌}
use barber_bookings.Calendar.{CalendarDate, civil, date, utc_day}
use barber_bookings.Schema.{Instant}

pub record CalendarDateTimeParts : Type 0 where
  pub year : ℕ
  pub month : ℕ
  pub day : ℕ
  pub hour : ℕ
  pub minute : ℕ
  pub second : ℕ

-- `new Intl.DateTimeFormat(…, { timeZone, … }).formatToParts`, its parts read as numbers.
abbrev pub Zone : Type 0
Zone = Instant → CalendarDateTimeParts

-- 1970-01-01
abbrev pub epoch_day : ℕ
epoch_day = 719163

-- `Date.UTC(year, month - 1, day, hour, minute, second)`
unfoldable pub utc_timestamp : CalendarDateTimeParts → Instant
utc_timestamp parts =
    (utc_day parts.year parts.month parts.day - epoch_day) * 86400000
    + parts.hour * 3600000
    + parts.minute * 60000
    + parts.second * 1000

unfoldable pub get_calendar_date_time_parts : Instant → Zone → CalendarDateTimeParts
get_calendar_date_time_parts at zone = zone at

-- The rounds of the loop that are left. `candidate -= difference` has the difference written out.
unfoldable pub settle : Zone → Instant → ℕ → Instant → Instant
unfolding get_calendar_date_time_parts
settle zone target zero candidate = candidate
settle zone target (suc attempts) candidate =
    let represented = utc_timestamp (get_calendar_date_time_parts candidate zone) in
    let rest = settle zone target attempts (candidate + target - represented) in
    if represented == target then candidate else rest

unfoldable pub calendar_date_time_to_instant : CalendarDateTimeParts → Zone → Instant
calendar_date_time_to_instant parts zone =
    let target = utc_timestamp parts in settle zone target 6 target

unfoldable pub calendar_date_to_instant : ℕ → ℕ → ℕ → Zone → Instant
calendar_date_to_instant year month day zone =
    calendar_date_time_to_instant
      (record { year = year; month = month; day = day; hour = 0; minute = 0; second = 0 }) zone

pub record CalendarDateBounds : Type 0 where
  pub start : Instant
  pub end_exclusive : Instant

unfoldable pub get_calendar_date_bounds : CalendarDate → Zone → CalendarDateBounds
get_calendar_date_bounds key zone =
    let next = civil (utc_day key.year key.month (key.day + 1)) in
    record {
      start = calendar_date_to_instant key.year key.month key.day zone;
      end_exclusive = calendar_date_to_instant next.year next.month next.day zone;
    }

unfoldable pub get_calendar_date_in_time_zone : Instant → Zone → CalendarDate
get_calendar_date_in_time_zone now zone =
    let parts = get_calendar_date_time_parts now zone in date parts.year parts.month parts.day

-- Of the client: the day of an instant.
unfoldable pub date_key_in_time_zone : Instant → Zone → CalendarDate
date_key_in_time_zone at zone = let parts = zone at in date parts.year parts.month parts.day

-- Of the client: `timeZoneOffsetMs` taken from the guess, once at the guess and once at the first
-- result. `guess - (represented - at)` has the offset written out.
unfoldable pub minus_offset : Instant → Zone → Instant → Instant
minus_offset guess zone at = at + guess - utc_timestamp (zone at)

unfoldable pub calendar_time_in_time_zone : CalendarDate → ℕ → ℕ → Zone → Instant
calendar_time_in_time_zone day hours minutes zone =
    let utc_guess = utc_timestamp (record {
      year = day.year;
      month = day.month;
      day = day.day;
      hour = hours;
      minute = minutes;
      second = 0;
    }) in
    let result = minus_offset utc_guess zone utc_guess in minus_offset utc_guess zone result
