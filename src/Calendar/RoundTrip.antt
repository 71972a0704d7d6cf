-- ===== src/Calendar/RoundTrip.antt =====
-- Day numbers and calendar dates determine each other (`Calendar.antt`).
pub mod Years
use barber_bookings.Common.{
  ℕ, zero, suc, ◌+◌, ◌-◌, ◌*◌, ◌/◌, ◌%◌, ◌≤◌, ◌<◌, ◌≡◌, refl, ap, ◌∙◌, arith,
}
use barber_bookings.Calendar.{
  CalendarDate, date, is_leap, days_before_year, days_before_month, utc_day, year_from, year_of,
  month_of, civil, days_in_month, calendar,
}
use barber_bookings.Calendar.RoundTrip.Years.{
  IsDate, days_before_year-suc, by_month, month_of_lem, IsYearOf, year_of-IsYearOf, year_of_lem,
}

abbrev pub HasBounds : ℕ → ℕ → Type 0
HasBounds y m =
    (days_before_month y m + days_in_month y m ≤ days_before_month y 13)
    × (28 ≤ days_in_month y m)
    × (days_in_month y m ≤ 31)

pub month_bounds : (y m : ℕ) → 1 ≤ m → m ≤ 12 → HasBounds y m
unfolding days_in_month days_before_month
month_bounds y =
    by_month (HasBounds y) (ground arith) (ground arith) (ground arith) (ground arith)
      (ground arith) (ground arith) (ground arith) (ground arith) (ground arith) (ground arith)
      (ground arith) (ground arith)

utc_day_of_IsDate :
    (t : CalendarDate)
    → IsDate t
    → utc_day t.year t.month t.day
      ≡ days_before_year t.year + (days_before_month t.year t.month + t.day)
unfolding utc_day
utc_day_of_IsDate t v = rw (same_year, same_month) (omega arith)
  where
    same_year : t.year + (t.month - 1) / 12 ≡ t.year
    same_year = omega (arith, v.month_in)

    same_month : (t.month - 1) % 12 + 1 ≡ t.month
    same_month = omega (arith, v.month_in)

-- The fields of `civil`, where the day number is that of a day of month `m` of year `y`.
civil_lem :
    (y m d : ℕ)
    → IsDate (date y m d)
    → civil (days_before_year y + (days_before_month y m + d)) ≡ date y m d
unfolding civil
civil_lem y m d v =
    rw
      (
        year_of_lem y (days_before_month y m + d) v.year_in (omega arith)
            (omega (arith, month_bounds y m v.month_in.0 v.month_in.1)),
        rest,
      )
      (ground (arith, month_of_lem y m v.month_in.0 v.month_in.1 d v.day_in.0 v.day_in.1))
  where
    rest :
        days_before_year y + (days_before_month y m + d) - days_before_year y
        ≡ days_before_month y m + d
    rest = omega arith

-- The date of a day number that was computed from a date is that date.
pub civil-utc_day : (t : CalendarDate) → IsDate t → civil (utc_day t.year t.month t.day) ≡ t
civil-utc_day t v = rw (utc_day_of_IsDate t v) (civil_lem t.year t.month t.day v)

abbrev IsMonthOf : ℕ → ℕ → ℕ → Type 0
IsMonthOf y r m =
    (1 ≤ m) × (m ≤ 12) × (days_before_month y m < r) × (r ≤ days_before_month y (m + 1))

january : (y : ℕ) → days_before_month y 1 ≡ 0
unfolding days_before_month
january y = refl

month_of-IsMonthOf : (y r : ℕ) → 1 ≤ r → r ≤ days_before_month y 13 → IsMonthOf y r (month_of y r)
unfolding month_of
month_of-IsMonthOf y r p q = ground (arith, january y)

module _ (n : ℕ) (h : 1 ≤ n) where
  in_year : IsYearOf n (civil n).year
  unfolding civil
  in_year = year_of-IsYearOf n h

  in_month : IsMonthOf (civil n).year (n - days_before_year (civil n).year) (civil n).month
  unfolding civil
  in_month =
      month_of-IsMonthOf (year_of n) _ (omega (arith, year_of-IsYearOf n h))
        (omega (arith, year_of-IsYearOf n h, days_before_year-suc (year_of n)))

  day_is :
      (civil n).day
      ≡ n - days_before_year (civil n).year - days_before_month (civil n).year (civil n).month
  unfolding civil
  day_is = refl

  -- Every day number is that of its date, which is valid.
  pub utc_day-civil : IsDate (civil n) × (utc_day (civil n).year (civil n).month (civil n).day ≡ n)
  utc_day-civil =
      (valid, utc_day_of_IsDate (civil n) valid ∙ omega (arith, in_year, in_month, day_is))
    where
      valid : IsDate (civil n)
      valid = record {
        year_in = in_year.0;
        month_in = (in_month.0, in_month.1);
        day_in =
            unfold days_in_month in
            (omega (arith, in_month, day_is), omega (arith, in_month, day_is));
      }

-- The month and the day of a date have two digits.
pub civil_digits : (n : ℕ) → 1 ≤ n → ((civil n).month < 100) × ((civil n).day < 100)
civil_digits n h =
    let v : IsDate (civil n) = (utc_day-civil n h).0 in
    (
      omega (arith, v.month_in),
      omega
          (arith, v.day_in, month_bounds (civil n).year (civil n).month v.month_in.0 v.month_in.1),
    )
