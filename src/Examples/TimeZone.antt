-- ===== src/Examples/TimeZone.antt =====
-- Local times in a zone that changes its clocks once, at concrete inputs.
use barber_bookings.Common.{
  ℕ, some, ◌+◌, ◌/◌, ◌%◌, ◌≤◌, ◌<◌, ◌≡◌, refl, arith, false, lt→ltb, ltb, if◌then◌else◌,
}
use barber_bookings.Calendar.{calendar, civil, date}
use barber_bookings.Calendar.RoundTrip.{utc_day-civil}
use barber_bookings.Schema.{Instant}
use barber_bookings.TimeZone.{
  get_calendar_date_time_parts, settle, CalendarDateTimeParts, Zone, calendar_date_time_to_instant,
  calendar_time_in_time_zone, epoch_day, utc_timestamp,
}
use barber_bookings.Reminders.{
  day_before, get_appointment_reminder_available_at, previous_calendar_day,
}
use barber_bookings.Reminders.Due.{get_appointment_reminder_available_at-IsDayBefore}
use barber_bookings.TimeZone.Convergence.{
  calendar_date_time_to_instant-IsShown, client_server_agree, local_time,
}
use barber_bookings.TimeZone.Convergence.Rounds.{HasOneChange}

abbrev utc_parts : Instant → CalendarDateTimeParts
utc_parts at =
    let day = civil (at / 86400000 + epoch_day) in
    record {
      year = day.year;
      month = day.month;
      day = day.day;
      hour = at % 86400000 / 3600000;
      minute = at % 3600000 / 60000;
      second = at % 60000 / 1000;
    }

le→not_ltb : (a b : ℕ) → b ≤ a → ltb a b ≡ false
le→not_ltb a b h = ground arith

utc_timestamp-utc_parts : (at : Instant) → at % 1000 ≡ 0 → utc_timestamp (utc_parts at) ≡ at
unfolding utc_timestamp
utc_timestamp-utc_parts at e =
    omega (arith, e, (utc_day-civil (at / 86400000 + epoch_day) (omega arith)).1)

-- 2026-03-29 at 01:00 UTC.
abbrev summer : Instant
summer = 1774746000000

-- An hour ahead of UTC in summer.
abbrev pub lisbon : Zone
lisbon at = utc_parts (if ltb at summer then at else at + 3600000)

-- 2026-03-29 at 10:30.
abbrev morning : CalendarDateTimeParts
morning = local_time (date 2026 3 29) 10 30

morning_timestamp : utc_timestamp morning ≡ 1774780200000
unfolding utc_timestamp calendar
morning_timestamp = refl

abbrev shown_at : Instant
shown_at = 1774776600000

lisbon-HasOneChange : HasOneChange lisbon (utc_timestamp morning)
lisbon-HasOneChange = record {
  change = summer;
  east = 0;
  west = 0;
  later_east = 3600;
  later_west = 0;
  far = omega (arith, morning_timestamp);
  east_bound = omega arith;
  west_bound = omega arith;
  later_east_bound = omega arith;
  later_west_bound = omega arith;
  before = λ at near lt. winter_time at near.2 lt;
  from = λ at near le. summer_time at near.2 le;
}
  where
    winter_time :
        (at : Instant) → at % 1000 ≡ 0 → at < summer → utc_timestamp (lisbon at) + 0 ≡ at + 0
    winter_time at whole lt =
        rw (lt→ltb at summer lt) (omega (arith, utc_timestamp-utc_parts at whole))

    summer_time :
        (at : Instant) → at % 1000 ≡ 0 → summer ≤ at → utc_timestamp (lisbon at) + 0 ≡ at + 3600000
    summer_time at whole le =
        rw (le→not_ltb at summer le)
          (omega (arith, utc_timestamp-utc_parts (at + 3600000) (omega (arith, whole))))

shown : utc_timestamp (lisbon shown_at) ≡ utc_timestamp morning
unfolding utc_timestamp calendar
shown = refl

calendar_date_time_to_instant-IsShown_example :
    utc_timestamp (lisbon (calendar_date_time_to_instant morning lisbon)) ≡ utc_timestamp morning
calendar_date_time_to_instant-IsShown_example =
    calendar_date_time_to_instant-IsShown lisbon morning shown_at lisbon-HasOneChange
      (omega (arith, morning_timestamp), omega (arith, morning_timestamp), omega arith) shown

client_server_agree_example :
    calendar_time_in_time_zone (date 2026 3 29) 10 30 lisbon
    ≡ calendar_date_time_to_instant (local_time (date 2026 3 29) 10 30) lisbon
client_server_agree_example =
    client_server_agree lisbon (date 2026 3 29) 10 30 shown_at lisbon-HasOneChange
      (omega (arith, morning_timestamp), omega (arith, morning_timestamp), omega arith) shown

-- The same time on the day after the change.
abbrev next_morning : Instant
next_morning = 1774863000000

previous_morning : previous_calendar_day (lisbon next_morning) ≡ morning
unfolding previous_calendar_day calendar
previous_morning = refl

due : get_appointment_reminder_available_at next_morning lisbon 0 ≡ some shown_at
unfolding get_appointment_reminder_available_at day_before previous_calendar_day
    get_calendar_date_time_parts calendar_date_time_to_instant settle utc_timestamp calendar
due = refl

get_appointment_reminder_available_at-IsDayBefore_example :
    (0 ≤ shown_at)
    × (utc_timestamp (lisbon shown_at) + 86400000 ≡ utc_timestamp (lisbon next_morning))
unfolding calendar
get_appointment_reminder_available_at-IsDayBefore_example =
    get_appointment_reminder_available_at-IsDayBefore lisbon next_morning 0 shown_at shown_at due
      (omega arith) (rw previous_morning lisbon-HasOneChange)
      (rw previous_morning
        (omega (arith, morning_timestamp), omega (arith, morning_timestamp), omega arith))
      (rw previous_morning shown)
