-- ===== src/TimeZone/Convergence.antt =====
-- About `calendarDateTimeToInstant` (server/calendar-timezone.ts) and `calendarTimeInTimeZone`
-- (client/src/lib/availability.ts) around a change of the clocks.
pub mod Rounds
use barber_bookings.Common.{
  ℕ, suc, ◌+◌, ◌*◌, ◌%◌, ◌≤◌, ◌<◌, ◌≡◌, ◌∙◌, ap, sym, ◌⊎◌, inl, inr, refl, arith, ltb, ltb→lt, ◌==◌,
  Bool-cases, if◌then◌else◌,
}
use barber_bookings.Calendar.{CalendarDate}
use barber_bookings.Schema.{Instant}
use barber_bookings.TimeZone.{
  CalendarDateTimeParts, Zone, calendar_date_time_to_instant, calendar_time_in_time_zone,
  get_calendar_date_time_parts, minus_offset, settle, utc_timestamp,
}
use barber_bookings.TimeZone.Convergence.Rounds.{wall, IsNear, HasOneChange, two_rounds, settle_two}

utc_timestamp_whole : (parts : CalendarDateTimeParts) → utc_timestamp parts % 1000 ≡ 0
unfolding utc_timestamp
utc_timestamp_whole parts = omega arith

-- The wall-clock time of a local date, to the minute.
abbrev pub local_time : CalendarDate → ℕ → ℕ → CalendarDateTimeParts
local_time day hours minutes = record {
  year = day.year;
  month = day.month;
  day = day.day;
  hour = hours;
  minute = minutes;
  second = 0;
}

-- Where the clocks change at most once within a day of a local time, by offsets of at most 14 hours,
-- and some instant of that day shows the local time, the loop of `calendarDateTimeToInstant` ends at
-- an instant that shows it, within its 6 rounds: 2 are enough. A time that the change skips is
-- excluded by the hypothesis that an instant shows it.
pub calendar_date_time_to_instant-IsShown :
    (zone : Zone) (parts : CalendarDateTimeParts) (at : Instant)
    → HasOneChange zone (utc_timestamp parts)
    → IsNear (utc_timestamp parts) at
    → utc_timestamp (zone at) ≡ utc_timestamp parts
    → utc_timestamp (zone (calendar_date_time_to_instant parts zone)) ≡ utc_timestamp parts
unfolding calendar_date_time_to_instant
calendar_date_time_to_instant-IsShown zone parts at h near e =
    let target = utc_timestamp parts in
    let shown = two_rounds zone target at h (utc_timestamp_whole _) near e in
    ap (wall zone) (settle_two zone target target 4 shown) ∙ shown

-- On such local times the client and the server agree: `calendarTimeInTimeZone`, which takes the
-- offset twice, gives the instant of `calendarDateTimeToInstant`.
pub client_server_agree :
    (zone : Zone) (day : CalendarDate) (hours minutes : ℕ) (at : Instant)
    → HasOneChange zone (utc_timestamp (local_time day hours minutes))
    → IsNear (utc_timestamp (local_time day hours minutes)) at
    → utc_timestamp (zone at) ≡ utc_timestamp (local_time day hours minutes)
    → calendar_time_in_time_zone day hours minutes zone
      ≡ calendar_date_time_to_instant (local_time day hours minutes) zone
unfolding calendar_date_time_to_instant calendar_time_in_time_zone
client_server_agree zone day hours minutes at h near e =
    let target = utc_timestamp (local_time day hours minutes) in
    sym
      (settle_two zone target target 4 (two_rounds zone target at h (utc_timestamp_whole _) near e))
