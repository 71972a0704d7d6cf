-- ===== src/Examples/Booking.antt =====
-- Start times and expense dates at concrete inputs.
use barber_bookings.Common.{ℕ, ◌≤◌, ◌<◌, List, [], ◌∷◌, none, some, ◌≡◌, refl, ◌↔◌, arith}
use barber_bookings.Common.Sort.{In}
use barber_bookings.Common.Steps.{steps}
use barber_bookings.Calendar.{calendar, civil}
use barber_bookings.Calendar.Text.{date_text, digits, read_date}
use barber_bookings.Booking.{create_clock_aligned_time_options, first_clock_aligned_minute, thirty}
use barber_bookings.Booking.Aligned.{IsOffered, create_clock_aligned_time_options-IsExact}
use barber_bookings.Expenses.{
  dates_of_months, last_day_of_month, monthly_dates, format_calendar_date,
  is_recurring_expense_paused, parse_calendar_date, recurring_expense_dates, weekly_dates,
}
use barber_bookings.Expenses.Dates.{parse-format}
use barber_bookings.Expenses.Monthly.Candidates.{IsMonthlyDate}
use barber_bookings.Expenses.Monthly.{every_month, recurring_expense_dates-IsMonthlyDate}
use barber_bookings.Expenses.Weekly.{IsWeeklyDate, every_week, recurring_expense_dates-IsExact}

-- From 09:10 to 11:00 by half hours.
options_of_a_morning : create_clock_aligned_time_options 550 660 thirty ≡ 570 ∷ 600 ∷ 630 ∷ []
unfolding create_clock_aligned_time_options first_clock_aligned_minute steps
options_of_a_morning = refl

create_clock_aligned_time_options-IsExact_example :
    In 600 (create_clock_aligned_time_options 550 660 thirty) ↔ IsOffered 550 660 thirty 600
create_clock_aligned_time_options-IsExact_example =
    create_clock_aligned_time_options-IsExact 550 660 thirty 600

-- Mondays of three weeks, of which one is paused.
mondays :
    recurring_expense_dates 1 3 22
      (every_week 1)
      none
      (record { paused_from = 10; resumed_on = some 16 } ∷ [])
    ≡ some (8 ∷ 22 ∷ [])
unfolding recurring_expense_dates weekly_dates is_recurring_expense_paused steps calendar
mondays = refl

recurring_expense_dates-IsExact_example :
    (dates : List ℕ) × ((recurring_expense_dates 1 3 22
          (every_week 1)
          none
          (record { paused_from = 10; resumed_on = some 16 } ∷ [])
        ≡ some dates)
      × ((d : ℕ)
          → In d dates
            ↔ IsWeeklyDate 1 3 22 1 none
                (record { paused_from = 10; resumed_on = some 16 } ∷ [])
                d))
recurring_expense_dates-IsExact_example =
    recurring_expense_dates-IsExact 1 3 22 1 none
      (record { paused_from = 10; resumed_on = some 16 } ∷ []) (omega arith)

-- The text "2024-02-29".
abbrev leap_day : List ℕ
leap_day = 50 ∷ 48 ∷ 50 ∷ 52 ∷ 45 ∷ 48 ∷ 50 ∷ 45 ∷ 50 ∷ 57 ∷ []

leap_day_written : format_calendar_date 738945 ≡ leap_day
unfolding format_calendar_date date_text digits calendar
leap_day_written = refl

leap_day_read : parse_calendar_date leap_day ≡ some 738945
unfolding parse_calendar_date read_date calendar
leap_day_read = refl

parse-format_example : (parse_calendar_date leap_day ≡ some 738945) ↔ (
    (format_calendar_date 738945 ≡ leap_day)
    × (100 ≤ (civil 738945).year)
    × ((civil 738945).year < 10000))
parse-format_example = parse-format leap_day 738945 (omega arith)

-- The last days of three months, as day 31.
last_days :
    recurring_expense_dates 738900 738900 739000 (every_month 31) none []
    ≡ some (738916 ∷ 738945 ∷ 738976 ∷ [])
unfolding recurring_expense_dates monthly_dates dates_of_months last_day_of_month
    is_recurring_expense_paused steps calendar
last_days = refl

recurring_expense_dates-IsMonthlyDate_example :
    (dates : List ℕ) × ((recurring_expense_dates 738900 738900 739000 (every_month 31) none []
        ≡ some dates)
      × ((d : ℕ) → In d dates ↔ IsMonthlyDate 738900 738900 739000 31 none [] d))
recurring_expense_dates-IsMonthlyDate_example =
    recurring_expense_dates-IsMonthlyDate 738900 738900 739000 31 none [] (omega arith)
      (omega arith) (omega arith) (omega arith)
