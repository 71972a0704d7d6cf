-- ===== src/Availability.antt =====
-- The times that the booking page offers (client/src/lib/availability.ts). Clock times "HH:MM" are
-- read as their hours and minutes; the time zone and the local time of the browser are parameters.
pub mod Periods
pub mod Slots
pub mod Starts
pub mod Offer
pub mod Exact
pub mod Booked
pub mod Ordered
pub mod First
use barber_bookings.Common.{
  ℕ, zero, suc, ◌+◌, ◌-◌, ◌*◌, ◌/◌, ◌%◌, ◌≤◌, min, max, Bool, true, false, not, ◌&&◌, ◌||◌, List,
  [], ◌∷◌, ◌++◌, Option, none, some, map, any, filter, has, get_or, leb, ltb, ◌==◌, if◌then◌else◌,
}
use barber_bookings.Common.Sort.{sort_by}
use barber_bookings.Common.Steps.{steps}
use barber_bookings.Calendar.{CalendarDate}
use barber_bookings.Schema.{Instant}
use barber_bookings.Schema.Enums.{AppointmentStatus, is_booked}
use barber_bookings.Booking.{BookingSlotIntervalMinutes, first_clock_aligned_minute, minutes}
use barber_bookings.TimeZone.{Zone, calendar_time_in_time_zone, date_key_in_time_zone}

pub record ClockTime : Type 0 where
  pub hours : ℕ
  pub mins : ℕ

pub record AvailabilityRow : Type 0 where
  pub barber_id : ℕ
  pub day_of_week : ℕ
  pub start_time : ClockTime
  pub end_time : ClockTime
  pub is_working : Bool

pub record ShopAvailabilityRow : Type 0 where
  pub day_of_week : ℕ
  pub start_time : ClockTime
  pub end_time : ClockTime
  pub is_open : Bool

pub record BarberOption : Type 0 where
  pub id : ℕ
  pub service_ids : Option (List ℕ)

pub record ServiceOption : Type 0 where
  pub id : ℕ
  pub duration : ℕ

pub record TimeSlot : Type 0 where
  pub time : ClockTime
  pub available : Bool

-- `start_time` is `none` where `new Date` cannot read it.
pub record AvailabilityAppointment : Type 0 where
  pub barber_id : ℕ
  pub start_time : Option Instant
  pub duration : Option ℕ
  pub duration_minutes : Option ℕ
  pub status : Option AppointmentStatus

pub record MinutePeriod : Type 0 where
  pub start : ℕ
  pub end : ℕ

-- `new Date(date).setHours(hours, minutes, 0, 0)` and `calendarDateKey` in the time of the browser.
pub record BrowserTime : Type 0 where
  pub set_hours : CalendarDate → ℕ → ℕ → Instant
  pub calendar_date_key : Instant → CalendarDate

-- `none` for no barber; a missing service id is `none` or 0.
unfoldable pub can_barber_perform_service : Option BarberOption → Option ℕ → Bool
can_barber_perform_service none service_id = true
can_barber_perform_service (some barber) none = true
can_barber_perform_service (some barber) (some service_id) =
    if service_id == 0 then true else has service_id (get_or barber.service_ids [])

-- A duration that is not finite or not positive counts as 0 here.
unfoldable pub appointment_minutes : AvailabilityAppointment → ℕ
appointment_minutes a =
    let stored = get_or a.duration_minutes (get_or a.duration 30) in
    if ltb 0 stored then stored else 30

-- The status does not exclude the appointment.
abbrev pub may_be_booked : Option AppointmentStatus → Bool
may_be_booked none = true
may_be_booked (some status) = is_booked status

-- The callback of the `some`, once the start of the appointment is read.
unfoldable pub overlaps : Option Instant → ℕ → Instant → Instant → Bool
overlaps none duration start_time end_time = false
overlaps (some appointment_start) duration start_time end_time =
    ltb start_time (appointment_start + duration * 60000) && ltb appointment_start end_time

unfoldable pub interval_conflicts : ℕ → Instant → Instant → AvailabilityAppointment → Bool
unfolding appointment_minutes overlaps
interval_conflicts barber_id start_time end_time a =
    (a.barber_id == barber_id)
    && may_be_booked a.status
    && overlaps a.start_time (appointment_minutes a) start_time end_time

unfoldable pub has_appointment_interval_conflict :
    List AvailabilityAppointment → ℕ → Instant → ℕ → Bool
has_appointment_interval_conflict appointments barber_id start_time duration_minutes =
    let end_time = start_time + duration_minutes * 60000 in
    any (interval_conflicts barber_id start_time end_time) appointments

abbrev period : ℕ → ℕ → MinutePeriod
period start end = record { start = start; end = end }

unfoldable pub default_periods_for_day : ℕ → List MinutePeriod
default_periods_for_day day =
    if day == 1
    then period 840 1200 ∷ []
    else if leb 2 day && leb day 5
    then period 540 780 ∷ period 840 1200 ∷ []
    else if day == 6
    then period 540 780 ∷ period 840 1140 ∷ []
    else []

abbrev pub time_to_minutes : ClockTime → ℕ
time_to_minutes time = time.hours * 60 + time.mins

abbrev is_proper : MinutePeriod → Bool
is_proper p = ltb p.start p.end

abbrev shop_period : ShopAvailabilityRow → MinutePeriod
shop_period row = period (time_to_minutes row.start_time) (time_to_minutes row.end_time)

abbrev barber_period : AvailabilityRow → MinutePeriod
barber_period row = period (time_to_minutes row.start_time) (time_to_minutes row.end_time)

-- `rowsToPeriods`, whose rows have either type.
unfoldable pub rows_to_periods : {A : Type 0} → (A → MinutePeriod) → List A → List MinutePeriod
rows_to_periods read rows = filter is_proper (map read rows)

-- The inner `forEach`.
unfoldable pub intersect_period : MinutePeriod → List MinutePeriod → List MinutePeriod
intersect_period primary [] = []
intersect_period primary (o ∷ rest) =
    let start = max primary.start o.start in
    let end = min primary.end o.end in
    if ltb start end
    then period start end ∷ intersect_period primary rest
    else intersect_period primary rest

unfoldable pub intersect_periods : List MinutePeriod → List MinutePeriod → List MinutePeriod
intersect_periods [] overrides = []
intersect_periods (p ∷ primaries) overrides =
    intersect_period p overrides ++ intersect_periods primaries overrides

unfoldable pub periods_for_shop : ℕ → List ShopAvailabilityRow → List MinutePeriod
periods_for_shop day_of_week [] = default_periods_for_day day_of_week
periods_for_shop day_of_week (row ∷ rows) =
    rows_to_periods shop_period
      (filter (λ r. (r.day_of_week == day_of_week) && r.is_open) (row ∷ rows))

abbrev is_of_barber : ℕ → AvailabilityRow → Bool
is_of_barber barber_id row = row.barber_id == barber_id

abbrev works_on : ℕ → AvailabilityRow → Bool
works_on day_of_week row = (row.day_of_week == day_of_week) && row.is_working

-- From the periods of the shop and the rows of the barber.
unfoldable pub narrow_periods : ℕ → List MinutePeriod → List AvailabilityRow → List MinutePeriod
narrow_periods day_of_week [] barber_rows = []
narrow_periods day_of_week (p ∷ shop) [] = p ∷ shop
narrow_periods day_of_week (p ∷ shop) (row ∷ rows) =
    intersect_periods (p ∷ shop)
      (rows_to_periods barber_period (filter (works_on day_of_week) (row ∷ rows)))

unfoldable pub get_effective_periods_for_barber :
    ℕ → ℕ → List ShopAvailabilityRow → List AvailabilityRow → List MinutePeriod
unfolding narrow_periods
get_effective_periods_for_barber barber_id day_of_week shop_rows rows =
    narrow_periods day_of_week (periods_for_shop day_of_week shop_rows)
      (filter (is_of_barber barber_id) rows)
