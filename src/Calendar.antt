-- ===== src/Calendar.antt =====
-- `Date.UTC` and the `getUTC…` methods of ECMAScript, which shared/public-booking-window.ts,
-- shared/business-expense-recurrence.ts and server/appointment-finance.ts use on calendar dates.
-- A date is a day number here: 0001-01-01 is day 1. Years are 1 to 9999 in the program; a day of
-- the month may be 0 or past the end of the month, as `Date.UTC` allows.
pub mod RoundTrip
pub mod Months
pub mod Text
use barber_bookings.Common.{
  ℕ, zero, suc, ◌+◌, ◌-◌, ◌*◌, ◌/◌, ◌%◌, Bool, true, false, leb, ltb, ◌==◌, if◌then◌else◌,
}

pub record CalendarDate : Type 0 where
  pub year : ℕ
  pub month : ℕ
  pub day : ℕ

abbrev pub date : ℕ → ℕ → ℕ → CalendarDate
date y m d = record { year = y; month = m; day = d }

unfoldable pub is_leap : ℕ → Bool
is_leap y = if y % 4 == 0 then (if y % 100 == 0 then y % 400 == 0 else true) else false

unfoldable pub days_before_year : ℕ → ℕ
days_before_year y = let p = y - 1 in p * 365 + p / 4 - p / 100 + p / 400

-- Days before a month; months are 1 to 12.
unfoldable pub days_before_month : ℕ → ℕ → ℕ
days_before_month y m =
    let leap = if is_leap y then 1 else 0 in
    if ltb m 2
    then 0
    else if m == 2
    then 31
    else if m == 3
    then 59 + leap
    else if m == 4
    then 90 + leap
    else if m == 5
    then 120 + leap
    else if m == 6
    then 151 + leap
    else if m == 7
    then 181 + leap
    else if m == 8
    then 212 + leap
    else if m == 9
    then 243 + leap
    else if m == 10
    then 273 + leap
    else if m == 11
    then 304 + leap
    else if m == 12
    then 334 + leap
    else 365 + leap

-- `Date.UTC(year, month - 1, day)`, where `month` is 1 or more and carries into the years.
unfoldable pub utc_day : ℕ → ℕ → ℕ → ℕ
utc_day year month day =
    let y = year + (month - 1) / 12 in
    let m = (month - 1) % 12 + 1 in days_before_year y + days_before_month y m + day

-- The year that holds day `n`, searched from `y` on.
unfoldable pub year_from : ℕ → ℕ → ℕ → ℕ
year_from zero y n = y
year_from (suc fuel) y n =
    let later = year_from fuel (y + 1) n in if ltb (days_before_year (y + 1)) n then later else y

-- A year has at most 366 days, so the search starts no later than the year of day `n`.
unfoldable pub year_of : ℕ → ℕ
year_of n = year_from n ((n - 1) / 366 + 1) n

-- The month that holds day `r` of year `y`.
unfoldable pub month_of : ℕ → ℕ → ℕ
month_of y r =
    if leb r (days_before_month y 2)
    then 1
    else if leb r (days_before_month y 3)
    then 2
    else if leb r (days_before_month y 4)
    then 3
    else if leb r (days_before_month y 5)
    then 4
    else if leb r (days_before_month y 6)
    then 5
    else if leb r (days_before_month y 7)
    then 6
    else if leb r (days_before_month y 8)
    then 7
    else if leb r (days_before_month y 9)
    then 8
    else if leb r (days_before_month y 10)
    then 9
    else if leb r (days_before_month y 11)
    then 10
    else if leb r (days_before_month y 12)
    then 11
    else 12

-- `getUTCFullYear`, `getUTCMonth() + 1` and `getUTCDate` of day `n`.
unfoldable pub civil : ℕ → CalendarDate
civil n =
    let y = year_of n in
    let r = n - days_before_year y in let m = month_of y r in date y m (r - days_before_month y m)

-- `getUTCDay`: 0 is Sunday. 0001-01-01 was a Monday.
unfoldable pub utc_weekday : ℕ → ℕ
utc_weekday n = n % 7

unfoldable pub days_in_month : ℕ → ℕ → ℕ
days_in_month y m = days_before_month y (m + 1) - days_before_month y m

-- Names all of the above for a test that computes with dates.
unfoldable pub calendar : Unit {0}
unfolding is_leap days_before_year days_before_month utc_day year_from year_of month_of civil
    utc_weekday days_in_month
calendar = tt
