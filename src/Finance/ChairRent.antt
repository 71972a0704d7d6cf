-- ===== src/Finance/ChairRent.antt =====
-- Chair rent (server/appointment-finance.ts): `getChairRentUnitKey`, the loop of
-- `calculateAppointmentsFinancials` that charges it, and `getChairRentAnchorAppointmentIds`.
-- `zone` is `getCalendarDateInTimeZone` for the time zone of the shop, which asks `Intl`.
use barber_bookings.Common.{
  ℕ, ◌+◌, ◌-◌, ◌%◌, Bool, false, not, ◌&&◌, ◌||◌, List, [], ◌∷◌, Option, none, some, ltb, leb, ◌==◌,
  if◌then◌else◌, any, has, get_or,
}
use barber_bookings.Common.Int.{pos, ◌+ℤ◌, ◌-ℤ◌}
use barber_bookings.Common.Sort.{sort_by}
use barber_bookings.Calendar.{CalendarDate, date, civil, utc_day, utc_weekday}
use barber_bookings.Schema.{Appointment, BarberCompensationRule, Instant}
use barber_bookings.Schema.Enums.{
  ChairRentPeriod, day, week, month, is_chair_rent, is_completed, period_rank,
}
use barber_bookings.Finance.Rules.{get_compensation_rule_for_appointment}
use barber_bookings.Finance.Base.{FinancialResult}

-- The text of a key: a date, or a month for the day 0.
unfoldable pub get_chair_rent_unit_key :
    (Instant → CalendarDate) → Instant → ChairRentPeriod → CalendarDate
get_chair_rent_unit_key zone instant day = zone instant
get_chair_rent_unit_key zone instant week =
    let local = zone instant in
    let value = utc_day local.year local.month local.day in
    civil (value - (utc_weekday value + 6) % 7)
get_chair_rent_unit_key zone instant month =
    let local = zone instant in date local.year local.month 0

-- `${barberId}:${locationId}:${period}:${unit}`
pub record RentKey : Type 0 where
  pub barber_id : ℕ
  pub location_id : ℕ
  pub period : ChairRentPeriod
  pub unit : CalendarDate

abbrev pub key_eq : RentKey → RentKey → Bool
key_eq a b =
    (a.barber_id == b.barber_id)
    && (a.location_id == b.location_id)
    && (period_rank a.period == period_rank b.period)
    && (a.unit.year == b.unit.year)
    && (a.unit.month == b.unit.month)
    && (a.unit.day == b.unit.day)

abbrev pub has_key : RentKey → List RentKey → Bool
has_key k keys = any (key_eq k) keys

abbrev pub rent_key : (Instant → CalendarDate) → BarberCompensationRule → Appointment → RentKey
rent_key zone rule a =
    let period = get_or rule.chair_rent_period month in
    record {
      barber_id = a.barber_id;
      location_id = a.location_id;
      period = period;
      unit = get_chair_rent_unit_key zone a.start_time period;
    }

-- By start, and by id at the same start.
abbrev pub earlier : Appointment → Appointment → Bool
earlier a b = ltb a.start_time b.start_time || (a.start_time == b.start_time) && leb a.id b.id

abbrev pub chronological : List Appointment → List Appointment
chronological appointments = sort_by earlier appointments

abbrev pub owes_rent : BarberCompensationRule → Appointment → Bool
owes_rent rule a = is_completed a.status && is_chair_rent rule.model

-- The result gets the rent: the barber pays it to the establishment.
abbrev pub charge : ℕ → FinancialResult → FinancialResult
charge rent r = record r {
  chair_rent_amount_cents = rent;
  barber_amount_cents = r.barber_amount_cents -ℤ pos rent;
  establishment_amount_cents = r.establishment_amount_cents +ℤ pos rent;
}

abbrev pub charge_if : Bool → ℕ → FinancialResult → FinancialResult
charge_if b rent r = if b then charge rent r else r

abbrev pub is_result_of : ℕ → FinancialResult → Bool
is_result_of id r = r.appointment_id == id

-- The result of an appointment (`resultById.get(id)`, the last under the id), changed in its place.
abbrev pub charge_result : ℕ → ℕ → List FinancialResult → List FinancialResult
charge_result id rent [] = []
charge_result id rent (r ∷ rest) =
    if any (is_result_of id) rest
    then r ∷ charge_result id rent rest
    else charge_if (is_result_of id r) rent r ∷ rest

-- `chairRentAnchorAppointmentIds && !chairRentAnchorAppointmentIds.has(appointment.id)`
abbrev pub is_not_anchor : Option (List ℕ) → ℕ → Bool
is_not_anchor none id = false
is_not_anchor (some anchors) id = not (has id anchors)

pub record RentState : Type 0 where
  pub keys : List RentKey
  pub results : List FinancialResult

module _ (zone : Instant → CalendarDate) (rules : List BarberCompensationRule)
    (anchors : Option (List ℕ)) where
  abbrev pub skips : RentState → Appointment → Bool
  skips st a =
      let rule = get_compensation_rule_for_appointment rules a in
      not (owes_rent rule a) || is_not_anchor anchors a.id || has_key (rent_key zone rule a) st.keys

  abbrev pub pay : RentState → Appointment → RentState
  pay st a =
      let rule = get_compensation_rule_for_appointment rules a in
      record {
        keys = rent_key zone rule a ∷ st.keys;
        results = charge_result a.id (get_or rule.chair_rent_cents 0) st.results;
      }

  -- One round of the loop.
  unfoldable pub rent_step : RentState → Appointment → RentState
  rent_step st a = if skips st a then st else pay st a

  unfoldable pub rent_loop : RentState → List Appointment → RentState
  rent_loop st [] = st
  rent_loop st (a ∷ rest) = rent_loop (rent_step st a) rest

-- The loop of the anchors, with the keys and the anchors so far.
unfoldable pub anchors_from :
    (Instant → CalendarDate)
    → List BarberCompensationRule
    → List RentKey
    → List Appointment
    → List ℕ
anchors_from zone rules keys [] = []
anchors_from zone rules keys (a ∷ rest) =
    let rule = get_compensation_rule_for_appointment rules a in
    let key = rent_key zone rule a in
    let skipped = anchors_from zone rules keys rest in
    let added = a.id ∷ anchors_from zone rules (key ∷ keys) rest in
    if not (owes_rent rule a) || has_key key keys then skipped else added

unfoldable pub get_chair_rent_anchor_appointment_ids :
    (Instant → CalendarDate) → List Appointment → List BarberCompensationRule → List ℕ
get_chair_rent_anchor_appointment_ids zone appointments rules =
    anchors_from zone rules [] (chronological appointments)
