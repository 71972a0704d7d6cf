-- ===== src/Reminders/Due.antt =====
-- About the instant of a reminder and the window of its delivery (server/appointment-reminders.ts).
use barber_bookings.Common.{◌+◌, ◌-◌, ◌≤◌, none, some, ◌≡◌, ap, arith, leb, if◌then◌else◌}
use barber_bookings.Calendar.{utc_day}
use barber_bookings.Calendar.RoundTrip.{utc_day-civil}
use barber_bookings.Schema.{Instant}
use barber_bookings.TimeZone.{
  CalendarDateTimeParts, Zone, calendar_date_time_to_instant, get_calendar_date_time_parts,
  utc_timestamp,
}
use barber_bookings.TimeZone.Convergence.{calendar_date_time_to_instant-IsShown}
use barber_bookings.TimeZone.Convergence.Rounds.{HasOneChange, IsNear}
use barber_bookings.Reminders.{
  day_before, get_appointment_reminder_available_at, previous_calendar_day,
}

-- The wall clock of an instant, in milliseconds, a day earlier at the same time.
previous_timestamp :
    (parts : CalendarDateTimeParts)
    → 719165 ≤ utc_day parts.year parts.month parts.day
    → utc_timestamp (previous_calendar_day parts) + 86400000 ≡ utc_timestamp parts
unfolding previous_calendar_day utc_timestamp
previous_timestamp parts late =
    let day = utc_day parts.year parts.month parts.day in
    omega (arith, (utc_day-civil (day - 1) (omega (arith, late))).1, late)

some_is : (a b : Instant) → some a ≡ some b → a ≡ b
some_is a b e = ground arith

due_cases :
    (start created_at at : Instant) (due : Instant)
    → (if leb start created_at then none else if leb created_at due then some due else none)
      ≡ some at
    → (created_at ≤ at) × (due ≡ at)
due_cases start created_at at due e = ground arith

-- A reminder that is enqueued is not retroactive, and where the clocks change at most once around it, it
-- falls on the calendar day before the appointment at the same time of the clock, also across that change:
-- its wall clock plus 24 hours is the wall clock of the appointment. (That time of the clock must occur
-- on that day.)
pub get_appointment_reminder_available_at-IsDayBefore :
    (zone : Zone) (start created_at at shown_at : Instant)
    → get_appointment_reminder_available_at start zone created_at ≡ some at
    → 719165 ≤ utc_day (zone start).year (zone start).month (zone start).day
    → HasOneChange zone (utc_timestamp (previous_calendar_day (zone start)))
    → IsNear (utc_timestamp (previous_calendar_day (zone start))) shown_at
    → utc_timestamp (zone shown_at) ≡ utc_timestamp (previous_calendar_day (zone start))
    → (created_at ≤ at) × (utc_timestamp (zone at) + 86400000 ≡ utc_timestamp (zone start))
unfolding get_appointment_reminder_available_at day_before get_calendar_date_time_parts
get_appointment_reminder_available_at-IsDayBefore zone start created_at at shown_at e late h near
      s =
    let previous = previous_calendar_day (zone start) in
    let (fresh, same) =
      due_cases start created_at at (calendar_date_time_to_instant previous zone) e in
    let shown = calendar_date_time_to_instant-IsShown zone previous shown_at h near s in
    let clock = ap (λ x. utc_timestamp (zone x)) same in
    (fresh, omega (arith, shown, clock, previous_timestamp (zone start) late))
