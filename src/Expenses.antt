-- ===== src/Expenses.antt =====
-- Recurring business expenses (shared/business-expense-recurrence.ts). The dates that are computed
-- with are day numbers: the texts "YYYY-MM-DD" of dates from the year 100 to 9999 are ordered like
-- the days.
pub mod SeriesState
pub mod Dates
pub mod Weekly
pub mod Monthly
use barber_bookings.Common.{
  ℕ, ◌+◌, ◌-◌, ◌*◌, ◌/◌, ◌%◌, min, max, Bool, true, false, not, ◌&&◌, ◌||◌, List, [], ◌∷◌, Option,
  none, some, any, filter, leb, ltb, ◌==◌, if◌then◌else◌,
}
use barber_bookings.Common.Steps.{steps}
use barber_bookings.Calendar.{CalendarDate, civil, utc_day, utc_weekday}
use barber_bookings.Calendar.Text.{date_text, read_date}

pub data RecurringExpenseFrequency : Type 0 where
  weekly monthly : RecurringExpenseFrequency

pub record RecurringExpenseSchedule : Type 0 where
  pub recurrence : RecurringExpenseFrequency
  pub weekday : Option ℕ
  pub month_day : Option ℕ

pub record RecurringExpensePause : Type 0 where
  pub paused_from : ℕ
  pub resumed_on : Option ℕ

-- A date of the calendar, as its day number. `Date.UTC` takes the years before 100 for years of the
-- last century, so they do not come back.
abbrev pub check_date : CalendarDate → Option ℕ
check_date d =
    let n = utc_day d.year d.month d.day in
    let read = civil n in
    if leb 100 d.year && (read.year == d.year) && (read.month == d.month) && (read.day == d.day)
    then some n
    else none

abbrev pub check_read : Option CalendarDate → Option ℕ
check_read none = none
check_read (some d) = check_date d

-- `none` stands for the error, of a text that is not "YYYY-MM-DD" or is no date of the calendar.
unfoldable pub parse_calendar_date : List ℕ → Option ℕ
parse_calendar_date t = check_read (read_date t)

unfoldable pub format_calendar_date : ℕ → List ℕ
format_calendar_date n = date_text (civil n)

-- A date before an optional one.
abbrev pub is_before : ℕ → Option ℕ → Bool
is_before d none = true
is_before d (some limit) = ltb d limit

unfoldable pub is_recurring_expense_paused : ℕ → List RecurringExpensePause → Bool
is_recurring_expense_paused d pauses =
    any (λ pause. leb pause.paused_from d && is_before d pause.resumed_on) pauses

-- The test before a date is pushed.
abbrev pub is_due : Option ℕ → List RecurringExpensePause → ℕ → Bool
is_due ended_on pauses d = is_before d ended_on && not (is_recurring_expense_paused d pauses)

-- `lastDayOfMonth`, of a month from 0 to 11.
unfoldable pub last_day_of_month : ℕ → ℕ → ℕ
last_day_of_month year month_index = (civil (utc_day year (month_index + 2) 0)).day

-- The first day from `cursor` on that is the weekday.
abbrev pub first_weekday : ℕ → ℕ → ℕ
first_weekday weekday cursor = cursor + (weekday + 7 - utc_weekday cursor) % 7

-- The loop by weeks.
unfoldable pub weekly_dates : ℕ → ℕ → ℕ → ℕ → Option ℕ → List RecurringExpensePause → List ℕ
weekly_dates anchor from through weekday ended_on pauses =
    filter (is_due ended_on pauses)
      (steps (through + 1) 7 (first_weekday weekday (max from anchor)) (through + 1))

abbrev pub month_key : ℕ → ℕ
month_key n = let c = civil n in c.year * 12 + (c.month - 1)

-- The day of a month, or its last one.
abbrev pub month_candidate : ℕ → ℕ → ℕ
month_candidate month_day key =
    let year = key / 12 in
    let month = key % 12 in utc_day year (month + 1) (min month_day (last_day_of_month year month))

abbrev pub in_range : ℕ → ℕ → ℕ → ℕ → Bool
in_range anchor from through d = leb anchor d && leb from d && leb d through

-- The rounds of the loop by months.
unfoldable pub dates_of_months :
    ℕ → ℕ → ℕ → ℕ → Option ℕ → List RecurringExpensePause → List ℕ → List ℕ
dates_of_months anchor from through month_day ended_on pauses [] = []
dates_of_months anchor from through month_day ended_on pauses (key ∷ keys) =
    let rest = dates_of_months anchor from through month_day ended_on pauses keys in
    let d = month_candidate month_day key in
    if leb (month_key anchor) key && in_range anchor from through d && is_due ended_on pauses d
    then d ∷ rest
    else rest

abbrev pub first_month : ℕ → ℕ → ℕ
first_month anchor from =
    let a = civil anchor in
    let f = civil from in if ltb f.year a.year then a.year * 12 else f.year * 12 + (f.month - 1)

unfoldable pub monthly_dates : ℕ → ℕ → ℕ → ℕ → Option ℕ → List RecurringExpensePause → List ℕ
monthly_dates anchor from through month_day ended_on pauses =
    dates_of_months anchor from through month_day ended_on pauses
      (steps (month_key through + 1) 1 (first_month anchor from) (month_key through + 1))

-- `recurringExpenseDates` once its three dates are read: the dates, or `none` for the error on a
-- schedule without its day.
unfoldable pub recurring_expense_dates :
    ℕ → ℕ → ℕ → RecurringExpenseSchedule → Option ℕ → List RecurringExpensePause → Option (List ℕ)
recurring_expense_dates anchor from through schedule ended_on pauses =
    if ltb through from then some [] else elim schedule.recurrence [
      | weekly ↦ elim schedule.weekday [
        | none ↦ none
        | some weekday ↦
            if ltb 6 weekday
            then none
            else some (weekly_dates anchor from through weekday ended_on pauses)
      ]
      | monthly ↦ elim schedule.month_day [
        | none ↦ none
        | some month_day ↦
            if (month_day == 0) || ltb 31 month_day
            then none
            else some (monthly_dates anchor from through month_day ended_on pauses)
      ]
    ]
