-- ===== src/Expenses/Dates.antt =====
-- About `parseCalendarDate` and `formatCalendarDate` (shared/business-expense-recurrence.ts).
use barber_bookings.Common.{
  ℕ, ◌≤◌, ◌<◌, Bool, true, ◌&&◌, List, Option-cases, none, some, inl, inr, ◌≡◌, ◌↔◌, refl, sym, ap,
  ◌∙◌, arith, leb, ◌==◌,
}
use barber_bookings.Calendar.{CalendarDate, civil, utc_day}
use barber_bookings.Calendar.RoundTrip.{civil_digits, utc_day-civil}
use barber_bookings.Calendar.Text.{
  date_text, date_text-read_date, if-eq-some, read_date, read_date-date_text, read_date-year,
}
use barber_bookings.Expenses.{check_date, check_read, format_calendar_date, parse_calendar_date}

-- The test that a date passes to be read.
abbrev passes : CalendarDate → CalendarDate → Bool
passes read d =
    leb 100 d.year && (read.year == d.year) && (read.month == d.month) && (read.day == d.day)

passes-same : (a b : CalendarDate) → passes a b ≡ true → (100 ≤ b.year) × (a ≡ b)
passes-same a b h = (ground arith, λ i. record { year = y i; month = m i; day = d i })
  where
    y : a.year ≡ b.year
    y = ground arith

    m : a.month ≡ b.month
    m = ground arith

    d : a.day ≡ b.day
    d = ground arith

passes_self : (t : CalendarDate) → 100 ≤ t.year → passes t t ≡ true
passes_self t h = ground arith

check_date-same :
    (d : CalendarDate) (n : ℕ) → check_date d ≡ some n → (100 ≤ d.year) × (civil n ≡ d)
check_date-same d n e =
    let (passed, same) = if-eq-some (passes (civil (utc_day d.year d.month d.day)) d) _ n e in
    let (century, back) = passes-same (civil (utc_day d.year d.month d.day)) d passed in
    (century, ap civil (sym same) ∙ back)

parsed :
    (t : List ℕ) (n : ℕ)
    → parse_calendar_date t ≡ some n
    → (format_calendar_date n ≡ t) × (100 ≤ (civil n).year) × ((civil n).year < 10000)
unfolding parse_calendar_date format_calendar_date
parsed t n e = elim (Option-cases (read_date t)) [
  | inl bad ↦ absurd (none≢some n (sym (ap check_read bad) ∙ e))
  | inr (d, fits) ↦
      let (century, same) = check_date-same d n (sym (ap check_read fits) ∙ e) in
      (
        ap date_text same ∙ date_text-read_date t d fits,
        rw same century,
        rw same (read_date-year t d fits),
      )
]
  where
    none≢some : (m : ℕ) → none ≡ some m → ⊥
    none≢some m q = cc

formatted :
    (t : List ℕ) (n : ℕ)
    → 1 ≤ n
    → (format_calendar_date n ≡ t) × (100 ≤ (civil n).year) × ((civil n).year < 10000)
    → parse_calendar_date t ≡ some n
unfolding parse_calendar_date format_calendar_date
formatted t n h (e, century, four) =
    ap (λ u. check_read (read_date u)) (sym e)
    ∙ ap check_read (read_date-date_text (civil n) four (civil_digits n h).0 (civil_digits n h).1)
    ∙ checked
  where
    checked : check_date (civil n) ≡ some n
    checked = rw (utc_day-civil n h).1 (rw (passes_self (civil n) century) refl)

-- A text is read as a day if and only if the day is written as that text and its year has four digits,
-- from the year 100 on. So a text in any other form, or of no date of the calendar (2025-02-30), is
-- refused, and a day that is written is read as the same day.
pub parse-format :
    (t : List ℕ) (n : ℕ)
    → 1 ≤ n
    → (parse_calendar_date t ≡ some n)
      ↔ ((format_calendar_date n ≡ t) × (100 ≤ (civil n).year) × ((civil n).year < 10000))
parse-format t n h = (parsed t n, formatted t n h)
