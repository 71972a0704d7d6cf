-- ===== src/Window/Open.antt =====
-- About `getPublicBookingWindow` and `isDateWithinPublicBookingWindow`
-- (shared/public-booking-window.ts).
use barber_bookings.Common.{
  ℕ, ◌+◌, ◌*◌, ◌≤◌, Bool, true, false, ◌&&◌, Option, ◌≡◌, refl, sym, ap, ◌∙◌, ◌↔◌, inl, inr, arith,
  leb, ◌==◌, ==_iff, if◌then◌else◌, Bool-cases,
}
use mathlib.Core.Bool.{false≢true}
use barber_bookings.Calendar.{CalendarDate, civil, date, days_in_month, utc_day}
use barber_bookings.Calendar.Months.{first_IsDate, last_IsDate, month_end, utc_day_carry}
use barber_bookings.Calendar.RoundTrip.{civil-utc_day}
use barber_bookings.Calendar.RoundTrip.Years.{IsDate}
use barber_bookings.Window.{
  date_leb, end_of_calendar_month, get_public_booking_window, is_date_within_public_booking_window,
  normalize_public_booking_open_day, shift_month,
}

end_of_calendar_month_lem :
    (y m : ℕ) → 1 ≤ y → 1 ≤ m → m ≤ 12 → end_of_calendar_month y m ≡ date y m (days_in_month y m)
unfolding end_of_calendar_month
end_of_calendar_month_lem y m h one twelve =
    ap civil (month_end y m h one twelve)
    ∙ civil-utc_day (date y m (days_in_month y m)) (last_IsDate y m h one twelve)

-- The months after, as the year and month of a date.
abbrev IsMonth : CalendarDate → ℕ → Type 0
IsMonth c key = (1 ≤ c.year) × (1 ≤ c.month) × (c.month ≤ 12) × (c.year * 12 + c.month ≡ key)

-- The month of a day, by the day's date.
shift_month_of :
    (y m offset : ℕ) (t : CalendarDate)
    → IsDate t
    → utc_day y (m + offset) 1 ≡ utc_day t.year t.month t.day
    → shift_month y m offset ≡ date t.year t.month 1
unfolding shift_month
shift_month_of y m offset t v e =
    ap (λ n. date (civil n).year (civil n).month 1) e
    ∙ ap (λ c. date c.year c.month 1) (civil-utc_day t v)

module _ (y m : ℕ) (h : 1 ≤ y) (one : 1 ≤ m) (twelve : m ≤ 12) where
  same_month : shift_month y m 0 ≡ date y m 1
  same_month =
      shift_month_of y m 0 (date y m 1) (first_IsDate y m h one twelve)
        (ap (λ k. utc_day y k 1) (omega arith))

  next_year : m ≡ 12 → shift_month y m 1 ≡ date (y + 1) 1 1
  next_year last =
      shift_month_of y m 1 (date (y + 1) 1 1)
        (first_IsDate (y + 1) 1 (omega arith) (omega arith) (omega arith))
        (ap (λ k. utc_day y k 1) (omega (arith, last)) ∙ utc_day_carry y 1)

  next_month : m + 1 ≤ 12 → shift_month y m 1 ≡ date y (m + 1) 1
  next_month early =
      shift_month_of y m 1 (date y (m + 1) 1) (first_IsDate y (m + 1) h (omega arith) early) refl

  IsMonth-shift_month : IsMonth (shift_month y m 1) (y * 12 + m + 1)
  IsMonth-shift_month = elim (Bool-cases (m == 12)) [
    | inl last ↦
        let is_last : m ≡ 12 = (==_iff m 12).0 last in
        rw (next_year is_last) (omega arith, omega arith, omega arith, omega (arith, is_last))
    | inr early ↦
        rw (next_month (below m twelve early)) (h, omega arith, below m twelve early, omega arith)
  ]
    where
      below : (n : ℕ) → n ≤ 12 → (n == 12) ≡ false → n + 1 ≤ 12
      below n le ne = ground arith

  IsMonth-shift_if :
      (b : Bool)
      → IsMonth (shift_month y m (if b then 1 else 0)) (y * 12 + m + (if b then 1 else 0))
  IsMonth-shift_if true = IsMonth-shift_month
  IsMonth-shift_if false = rw same_month (h, one, twelve, omega arith)

-- A date is not after the last of a month if and only if its own month is not.
by_month_end :
    (t : CalendarDate) (y m last : ℕ)
    → t.month ≤ 12
    → 1 ≤ t.month
    → 1 ≤ m
    → m ≤ 12
    → (t.year ≡ y → t.month ≡ m → t.day ≤ last)
    → (date_leb t (date y m last) ≡ true) ↔ (t.year * 12 + t.month ≤ y * 12 + m)
by_month_end t y m last a b c d e = (
  (λ h. ground arith),
  λ h. elim (Bool-cases (t.year == y)) [
    | inl same_y ↦ elim (Bool-cases (t.month == m)) [
      | inl same_m ↦ ground (arith, e ((==_iff t.year y).0 same_y) ((==_iff t.month m).0 same_m))
      | inr other_m ↦ ground arith
    ]
    | inr other_y ↦ ground arith
  ],
)

abbrev months : CalendarDate → ℕ
months t = t.year * 12 + t.month

and_iff : {P : Type 0} (a b : Bool) → (b ≡ true) ↔ P → ((a && b) ≡ true) ↔ ((a ≡ true) × P)
and_iff true b (f, g) = ((λ h. (refl, f h)), λ h. g h.1)
and_iff false b (f, g) = ((λ h. absurd (false≢true h)), λ h. absurd (false≢true h.0))

-- A month that some date has as its last.
last_of :
    (t c : CalendarDate) (key : ℕ)
    → IsDate t
    → IsMonth c key
    → (date_leb t (end_of_calendar_month c.year c.month) ≡ true) ↔ (months t ≤ key)
last_of t c key v (y, one, twelve, e) = rw (end_of_calendar_month_lem c.year c.month y one twelve) (
    rw (sym e) (
      by_month_end t c.year c.month (days_in_month c.year c.month) v.month_in.1 v.month_in.0 one
        twelve (λ p q. rw (sym p, sym q) v.day_in.1)))

-- The public may book exactly the dates from today on that are in this month or, from the opening day
-- of the month on, in the next one. The opening day is the configured one if it is from 1 to 28, and
-- 20 otherwise; both dates are dates of the calendar.
pub get_public_booking_window-IsExact :
    (today t : CalendarDate) (raw_open_day : Option ℕ)
    → IsDate today
    → IsDate t
    → (is_date_within_public_booking_window t (get_public_booking_window today raw_open_day) ≡ true)
      ↔ ((date_leb today t ≡ true)
          × (months t
              ≤ months today
                + (if leb (normalize_public_booking_open_day raw_open_day) today.day
                    then 1
                    else 0)))
unfolding is_date_within_public_booking_window get_public_booking_window
get_public_booking_window-IsExact today t raw_open_day v w = and_iff (date_leb today t) _ (
    last_of t
      (shift_month today.year today.month
        (if leb (normalize_public_booking_open_day raw_open_day) today.day then 1 else 0))
      _ w
      (IsMonth-shift_if today.year today.month v.year_in v.month_in.0 v.month_in.1
        (leb (normalize_public_booking_open_day raw_open_day) today.day)))
