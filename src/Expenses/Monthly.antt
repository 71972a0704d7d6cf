-- ===== src/Expenses/Monthly.antt =====
-- About the monthly dates of `recurringExpenseDates` (shared/business-expense-recurrence.ts).
pub mod Candidates
use barber_bookings.Common.{
  ℕ, ◌+◌, ◌-◌, ◌*◌, ◌/◌, ◌%◌, ◌≤◌, min, Bool, true, false, ◌&&◌, ◌||◌, List, [], ◌∷◌, Option, none,
  some, ◌≡◌, refl, sym, ap, ◌∙◌, ◌↔◌, arith, Bool-cases, inl, inr, ltb, leb, ◌==◌, if◌then◌else◌,
  ltb→lt, leb→le, le→leb,
}
use barber_bookings.Common.Sort.{In}
use barber_bookings.Common.Steps.{steps_complete, steps_sound}
use barber_bookings.Calendar.{civil, date, days_in_month, utc_day}
use barber_bookings.Calendar.RoundTrip.{civil-utc_day, month_bounds, utc_day-civil}
use barber_bookings.Calendar.Months.{last_IsDate, month_end, month_mono}
use barber_bookings.Expenses.{
  RecurringExpensePause, RecurringExpenseSchedule, dates_of_months, first_month, in_range, is_due,
  last_day_of_month, month_candidate, month_key, monthly, monthly_dates, recurring_expense_dates,
}
use barber_bookings.Expenses.Monthly.Candidates.{
  last_day_lem, candidate_date, dates_sound, dates_complete, IsMonthlyDate, all_of,
}

and_all :
    (p q r s t : Bool)
    → p ≡ true
    → q ≡ true
    → r ≡ true
    → s ≡ true
    → t ≡ true
    → (p && (q && r && s) && t) ≡ true
and_all p q r s t a b c d e = ground arith

month_key_mono : (a b : ℕ) → 1 ≤ a → a ≤ b → month_key a ≤ month_key b
month_key_mono a b one le = omega (
  arith,
  month_mono a b one le,
  (utc_day-civil a one).0.month_in,
  (utc_day-civil b (omega (arith, one, le))).0.month_in,
)

-- The candidate of the month of a day.
own_candidate :
    (day d : ℕ)
    → 1 ≤ d
    → (civil d).day ≡ min day (days_in_month (civil d).year (civil d).month)
    → month_candidate day (month_key d) ≡ d
own_candidate day d one e =
    let (v, back) = utc_day-civil d one in
    go (civil d).year (civil d).month v.year_in v.month_in.0 v.month_in.1
    ∙ ap (utc_day (civil d).year (civil d).month) (sym e)
    ∙ back
  where
    go :
        (y m : ℕ)
        → 1 ≤ y
        → 1 ≤ m
        → m ≤ 12
        → month_candidate day (y * 12 + (m - 1)) ≡ utc_day y m (min day (days_in_month y m))
    go y m h one_m twelve =
        rw (year, month)
          (ap (λ n. utc_day y (m - 1 + 1) (min day n)) (last_day_lem y (m - 1) h (omega arith))
            ∙ ap (λ n. utc_day y n (min day (days_in_month y n))) again)
      where
        year : (y * 12 + (m - 1)) / 12 ≡ y
        year = omega arith

        month : (y * 12 + (m - 1)) % 12 ≡ m - 1
        month = omega arith

        again : m - 1 + 1 ≡ m
        again = omega arith

first_month_least :
    (anchor from d : ℕ)
    → 1 ≤ anchor
    → 1 ≤ from
    → anchor ≤ d
    → from ≤ d
    → (12 ≤ first_month anchor from) × (first_month anchor from ≤ month_key d)
first_month_least anchor from d one one_f a f =
    least (ltb (civil from).year (civil anchor).year)
      (
        omega (arith, (utc_day-civil anchor one).0.year_in),
        omega (arith, month_key_mono anchor d one a),
      )
      (omega (arith, (utc_day-civil from one_f).0.year_in), month_key_mono from d one_f f)
  where
    least :
        (b : Bool) {x y : ℕ}
        → (12 ≤ x) × (x ≤ month_key d)
        → (12 ≤ y) × (y ≤ month_key d)
        → (12 ≤ (if b then x else y)) × ((if b then x else y) ≤ month_key d)
    least true h k = h
    least false h k = k

first_month_past : (anchor from : ℕ) → 1 ≤ anchor → 1 ≤ from → 12 ≤ first_month anchor from
first_month_past anchor from one one_f =
    least (ltb (civil from).year (civil anchor).year)
      (omega (arith, (utc_day-civil anchor one).0.year_in))
      (omega (arith, (utc_day-civil from one_f).0.year_in))
  where
    least : (b : Bool) {x y : ℕ} → 12 ≤ x → 12 ≤ y → 12 ≤ (if b then x else y)
    least true h k = h
    least false h k = k

monthly_dates-IsExact :
    (anchor from through day : ℕ) (ended_on : Option ℕ) (pauses : List RecurringExpensePause)
    (d : ℕ)
    → 1 ≤ anchor
    → 1 ≤ from
    → 1 ≤ day
    → In d (monthly_dates anchor from through day ended_on pauses)
      ↔ IsMonthlyDate anchor from through day ended_on pauses d
unfolding monthly_dates
monthly_dates-IsExact anchor from through day ended_on pauses d one one_f one_d = (
  (λ i.
      let (key, (met, (e, tests))) = dates_sound anchor from through day ended_on pauses _ d i in
      let (k, (at, lt)) = steps_sound (month_key through + 1) 1 _ (month_key through + 1) key met in
      let dated =
        candidate_date day key one_d (omega (arith, at, first_month_past anchor from one one_f)) in
      let (a, b, c, due) = all_of (leb (month_key anchor) key) _ _ _ _ tests in
      rw e (leb→le _ _ a, leb→le _ _ b, leb→le _ _ c, on_day key dated, due)),
  λ (a, b, c, e, due).
      let same = own_candidate day d (omega (arith, one, a)) e in
      let (past, least) = first_month_least anchor from d one one_f a b in
      rw same at (
        dates_complete anchor from through day ended_on pauses _ (month_key d)
          (steps_complete (month_key through + 1) 1 (first_month anchor from)
            (month_key through + 1) (month_key d - first_month anchor from) (month_key d)
            (omega arith) (omega arith) (omega (arith, least))
            (omega (arith, month_key_mono d through (omega (arith, one, a)) c)))
          (rw same (
            and_all (leb (month_key anchor) (month_key d)) (leb anchor d) (leb from d)
              (leb d through) _ (le→leb _ _ (month_key_mono anchor d one a)) (le→leb _ _ a)
              (le→leb _ _ b) (le→leb _ _ c) due))),
)
  where
    on_day :
        (key : ℕ)
        → civil (month_candidate day key)
          ≡ date (key / 12) (key % 12 + 1) (min day (days_in_month (key / 12) (key % 12 + 1)))
        → (civil (month_candidate day key)).day
          ≡ min day (
              days_in_month
                (civil (month_candidate day key)).year
                (civil (month_candidate day key)).month)
    on_day key dated = rw dated refl

-- A schedule of every month on a day.
abbrev pub every_month : ℕ → RecurringExpenseSchedule
every_month day = record { recurrence = monthly; weekday = none; month_day = some day }

-- The dates of a monthly expense, for a day from 1 to 31, are exact. The call returns, and a day is
-- among the dates if and only if it is not before the anchor, lies in the asked range, is the chosen
-- day of its month or the last one of a month that is shorter, comes before the end of the expense if
-- it has one, and is in no pause. Anchor and start are days of the calendar, which has no day 0.
pub recurring_expense_dates-IsMonthlyDate :
    (anchor from through day : ℕ) (ended_on : Option ℕ) (pauses : List RecurringExpensePause)
    → 1 ≤ anchor
    → 1 ≤ from
    → 1 ≤ day
    → day ≤ 31
    → (dates : List ℕ) × ((recurring_expense_dates anchor from through
            (every_month day)
            ended_on
            pauses
          ≡ some dates)
        × ((d : ℕ) → In d dates ↔ IsMonthlyDate anchor from through day ended_on pauses d))
unfolding recurring_expense_dates
recurring_expense_dates-IsMonthlyDate anchor from through day ended_on pauses one one_f one_d le =
    elim (Bool-cases (ltb through from)) [
      | inl empty ↦ (
        [],
        (
          rw empty refl,
          λ d. (
            (λ i. absurd i),
            λ (a, b, c, e, due). omega (arith, b, c, ltb→lt through from empty),
          ),
        ),
      )
      | inr range ↦ (
        monthly_dates anchor from through day ended_on pauses,
        (
          rw (range, valid day one_d le) refl,
          λ d. monthly_dates-IsExact anchor from through day ended_on pauses d one one_f one_d,
        ),
      )
    ]
  where
    valid : (w : ℕ) → 1 ≤ w → w ≤ 31 → ((w == 0) || ltb 31 w) ≡ false
    valid w h k = ground arith
