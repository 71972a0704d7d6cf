-- ===== src/Availability/Slots.antt =====
-- `getAvailableTimeSlots` and `findFirstAvailableDate` (client/src/lib/availability.ts). A `Set` of
-- minutes and a `Map` by time are lists in the order of insertion.
use barber_bookings.Common.{
  ℕ, zero, suc, ◌+◌, ◌/◌, ◌%◌, Bool, not, ◌&&◌, List, [], ◌∷◌, ◌++◌, Option, none, some, map, any,
  filter, has, get_or, leb, ltb, ◌==◌, if◌then◌else◌,
}
use barber_bookings.Common.Sort.{sort_by}
use barber_bookings.Common.Steps.{steps}
use barber_bookings.Calendar.{CalendarDate, civil, utc_day, utc_weekday}
use barber_bookings.Schema.{Instant}
use barber_bookings.Booking.{BookingSlotIntervalMinutes, first_clock_aligned_minute, minutes}
use barber_bookings.TimeZone.{Zone, calendar_time_in_time_zone, date_key_in_time_zone}
use barber_bookings.Availability.{
  AvailabilityAppointment, AvailabilityRow, BarberOption, BrowserTime, ClockTime, MinutePeriod,
  ServiceOption, ShopAvailabilityRow, TimeSlot, can_barber_perform_service,
  get_effective_periods_for_barber, has_appointment_interval_conflict,
}

-- hooks/use-appointments.ts
pub record PublicAppointment : Type 0 where
  pub id : ℕ
  pub barber_id : ℕ
  pub service_id : Option ℕ
  pub start_time : Option Instant
  pub duration : ℕ

-- A public appointment has no `durationMinutes` and no `status`.
abbrev pub as_availability : PublicAppointment → AvailabilityAppointment
as_availability a = record {
  barber_id = a.barber_id;
  start_time = a.start_time;
  duration = some a.duration;
  duration_minutes = none;
  status = none;
}

-- The arguments but for `selectedDate`, which `findFirstAvailableDate` varies.
pub record AvailabilityInput : Type 0 where
  pub selected_service : Option ServiceOption
  pub selected_barber_id : Option ℕ
  pub visible_barbers : List BarberOption
  pub availability_rows : Option (List AvailabilityRow)
  pub shop_availability_rows : Option (List ShopAvailabilityRow)
  pub existing_appointments : Option (List PublicAppointment)
  pub now : Instant
  pub time_zone : Option Zone
  pub slot_interval_minutes : BookingSlotIntervalMinutes
  pub browser : BrowserTime

-- `set.add(n)`
unfoldable pub set_add : ℕ → List ℕ → List ℕ
set_add n set = if has n set then set else set ++ n ∷ []

-- The loop over the start minutes of one period, which end at its end.
unfoldable pub add_starts : ℕ → ℕ → List ℕ → List ℕ → List ℕ
unfolding set_add
add_starts duration end [] set = set
add_starts duration end (m ∷ ms) set =
    add_starts duration end ms (if leb (m + duration) end then set_add m set else set)

unfoldable pub add_periods : BookingSlotIntervalMinutes → ℕ → List MinutePeriod → List ℕ → List ℕ
unfolding add_starts
add_periods interval duration [] set = set
add_periods interval duration (p ∷ ps) set = add_periods interval duration ps (
    add_starts duration p.end
      (steps p.end (minutes interval) (first_clock_aligned_minute p.start interval) p.end) set)

unfoldable pub add_barbers :
    (BarberOption → List MinutePeriod)
    → BookingSlotIntervalMinutes
    → ℕ
    → List BarberOption
    → List ℕ
    → List ℕ
unfolding add_periods
add_barbers periods interval duration [] set = set
add_barbers periods interval duration (b ∷ bs) set =
    add_barbers periods interval duration bs (add_periods interval duration (periods b) set)

-- `padStart` gives each minute a text of its own.
abbrev pub clock_time : ℕ → ClockTime
clock_time m = record { hours = m / 60; mins = m % 60 }

abbrev pub same_time : ClockTime → ClockTime → Bool
same_time a b = (a.hours == b.hours) && (a.mins == b.mins)

-- `slotsByTime.set(time, slot)`
unfoldable pub set_slot : TimeSlot → List TimeSlot → List TimeSlot
set_slot slot [] = slot ∷ []
set_slot slot (s ∷ rest) =
    if same_time s.time slot.time then slot ∷ rest else s ∷ set_slot slot rest

abbrev pub fits : ℕ → ℕ → MinutePeriod → Bool
fits duration m p = leb p.start m && leb (m + duration) p.end

abbrev pub id_of : BarberOption → ℕ
id_of barber = barber.id

-- What the slots of one date depend on.
pub record Day : Type 0 where
  pub eligible : List BarberOption
  pub periods : BarberOption → List MinutePeriod
  pub duration : ℕ
  pub slot_date_time : ℕ → Instant
  pub is_today : Bool
  pub now : Instant
  pub appointments : List AvailabilityAppointment

abbrev pub is_busy : Day → ℕ → BarberOption → Bool
is_busy day m barber =
    has_appointment_interval_conflict day.appointments barber.id (day.slot_date_time m) day.duration

abbrev pub is_past : Day → ℕ → Bool
is_past day m = day.is_today && leb (day.slot_date_time m) day.now

abbrev pub is_available_barber : Day → ℕ → List ℕ → BarberOption → Bool
is_available_barber day m busy barber =
    any (fits day.duration m) (day.periods barber) && not (has barber.id busy)

unfoldable pub time_slot : Day → ℕ → TimeSlot
time_slot day m =
    let busy = map id_of (filter (is_busy day m) day.eligible) in
    let has_available_barber = any (is_available_barber day m busy) day.eligible in
    record { time = clock_time m; available = not (is_past day m) && has_available_barber }

-- The `forEach` over the sorted minutes.
unfoldable pub collect_slots : Day → List ℕ → List TimeSlot → List TimeSlot
unfolding set_slot time_slot
collect_slots day [] slots = slots
collect_slots day (m ∷ ms) slots = collect_slots day ms (set_slot (time_slot day m) slots)

unfoldable pub slots_of_day : Day → BookingSlotIntervalMinutes → List TimeSlot
unfolding collect_slots add_barbers
slots_of_day day interval =
    let candidates = add_barbers day.periods interval day.duration day.eligible [] in
    collect_slots day (sort_by leb candidates) []

abbrev pub has_barber_id : ℕ → BarberOption → Bool
has_barber_id id barber = barber.id == id

-- No barber has the id `null`.
unfoldable pub target_barbers : Option ℕ → List BarberOption → List BarberOption
target_barbers none barbers = []
target_barbers (some id) barbers = if id == 0 then barbers else filter (has_barber_id id) barbers

abbrev pub performs : ServiceOption → BarberOption → Bool
performs service barber = can_barber_perform_service (some barber) (some service.id)

unfoldable pub slot_instant : AvailabilityInput → CalendarDate → ℕ → Instant
slot_instant input date m = elim input.time_zone [
  | some zone ↦ calendar_time_in_time_zone date (m / 60) (m % 60) zone
  | none ↦ input.browser.set_hours date (m / 60) (m % 60)
]

-- `calendarDateKey(now)` or `dateKeyInTimeZone(now, timeZone)`
unfoldable pub today_of : AvailabilityInput → CalendarDate
today_of input = elim input.time_zone [
  | some zone ↦ date_key_in_time_zone input.now zone
  | none ↦ input.browser.calendar_date_key input.now
]

abbrev pub same_date : CalendarDate → CalendarDate → Bool
same_date a b = (a.year == b.year) && (a.month == b.month) && (a.day == b.day)

abbrev pub periods_on : AvailabilityInput → CalendarDate → BarberOption → List MinutePeriod
periods_on input date barber =
    get_effective_periods_for_barber barber.id (utc_weekday (utc_day date.year date.month date.day))
      (get_or input.shop_availability_rows []) (get_or input.availability_rows [])

unfoldable pub day_of :
    AvailabilityInput → ServiceOption → List PublicAppointment → CalendarDate → Day
unfolding target_barbers
day_of input service appointments date = record {
  eligible =
      filter (performs service) (target_barbers input.selected_barber_id input.visible_barbers);
  periods = periods_on input date;
  duration = service.duration;
  slot_date_time = slot_instant input date;
  is_today = same_date date (today_of input);
  now = input.now;
  appointments = map as_availability appointments;
}

-- A missing service, list of appointments or date leaves no slots.
unfoldable pub slots_for :
    AvailabilityInput
    → Option ServiceOption
    → Option (List PublicAppointment)
    → Option CalendarDate
    → List TimeSlot
unfolding slots_of_day day_of
slots_for input none appointments date = []
slots_for input (some service) none date = []
slots_for input (some service) (some appointments) none = []
slots_for input (some service) (some appointments) (some date) =
    slots_of_day (day_of input service appointments date) input.slot_interval_minutes

unfoldable pub get_available_time_slots : AvailabilityInput → Option CalendarDate → List TimeSlot
unfolding slots_for
get_available_time_slots input selected_date =
    slots_for input input.selected_service input.existing_appointments selected_date

abbrev pub is_available : TimeSlot → Bool
is_available slot = slot.available

-- The loop over the dates, with fuel for the rounds. A date is its day number: both ends are taken at
-- one time of the day.
unfoldable pub first_available_from : AvailabilityInput → ℕ → ℕ → ℕ → Option ℕ
unfolding get_available_time_slots
first_available_from input zero day end_day = none
first_available_from input (suc fuel) day end_day =
    let rest = first_available_from input fuel (day + 1) end_day in
    if ltb end_day day
    then none
    else if any is_available (get_available_time_slots input (some (civil day)))
    then some day
    else rest

-- One round per date up to the end is enough.
unfoldable pub find_first_available_date : AvailabilityInput → ℕ → ℕ → Option ℕ
unfolding first_available_from
find_first_available_date input start_day end_day =
    first_available_from input (end_day + 1) start_day end_day
