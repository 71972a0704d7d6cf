-- ===== src/Reminders.antt =====
-- When the reminder of the day before is due (server/appointment-reminders.ts).
pub mod Due
use barber_bookings.Common.{
  ℕ, ◌-◌, Bool, true, false, not, ◌&&◌, ◌||◌, Option, none, some, leb, ltb, ◌==◌, if◌then◌else◌,
}
use barber_bookings.Calendar.{CalendarDate, civil, utc_day}
use barber_bookings.Schema.{Instant}
use barber_bookings.TimeZone.{
  CalendarDateTimeParts, Zone, calendar_date_time_to_instant, get_calendar_date_in_time_zone,
  get_calendar_date_time_parts,
}

unfoldable pub previous_calendar_day : CalendarDateTimeParts → CalendarDateTimeParts
previous_calendar_day parts =
    let previous = civil (utc_day parts.year parts.month parts.day - 1) in
    record parts { year = previous.year; month = previous.month; day = previous.day }

-- The same clock time on the day before.
unfoldable pub day_before : Instant → Zone → Instant
unfolding previous_calendar_day
day_before start zone =
    calendar_date_time_to_instant (previous_calendar_day (get_calendar_date_time_parts start zone))
      zone

unfoldable pub get_appointment_reminder_available_at : Instant → Zone → Instant → Option Instant
unfolding day_before
get_appointment_reminder_available_at start zone created_at =
    if leb start created_at
    then none
    else if leb created_at (day_before start zone)
    then some (day_before start zone)
    else none

unfoldable pub is_appointment_reminder_delivery_window : Instant → Instant → Zone → Instant → Bool
unfolding previous_calendar_day
is_appointment_reminder_delivery_window start available_at zone now =
    let previous = previous_calendar_day (get_calendar_date_time_parts start zone) in
    let today = get_calendar_date_in_time_zone now zone in
    not (ltb now available_at || leb start now)
    && (today.year == previous.year)
    && (today.month == previous.month)
    && (today.day == previous.day)
