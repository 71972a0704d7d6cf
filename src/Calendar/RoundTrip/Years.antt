-- ===== src/Calendar/RoundTrip/Years.antt =====
-- The year and the month of a day number, by the search of `Calendar.antt`.
use barber_bookings.Common.{ℕ, zero, suc, ◌+◌, ◌-◌, ◌*◌, ◌/◌, ◌≤◌, ◌<◌, ◌≡◌, refl, ap, arith}
use barber_bookings.Calendar.{
  CalendarDate, date, is_leap, days_before_year, days_before_month, utc_day, year_from, year_of,
  month_of, civil, days_in_month, calendar,
}

pub record IsDate (t : CalendarDate) : Type 0 where
  pub year_in : 1 ≤ t.year
  pub month_in : (1 ≤ t.month) × (t.month ≤ 12)
  pub day_in : (1 ≤ t.day) × (t.day ≤ days_in_month t.year t.month)

civil_leap_day : civil (utc_day 2024 2 29) ≡ date 2024 2 29
unfolding calendar
civil_leap_day = refl

civil_carry : civil (utc_day 2023 13 0) ≡ date 2023 12 31
unfolding calendar
civil_carry = refl

-- The days of a year, by its months.
pub days_before_year-suc :
    (y : ℕ) → 1 ≤ y → days_before_year (y + 1) ≡ days_before_year y + days_before_month y 13
unfolding days_before_year days_before_month is_leap
days_before_year-suc y h = ground arith

year_bounds : (y : ℕ) → 1 ≤ y → (365 ≤ days_before_month y 13) × (days_before_month y 13 ≤ 366)
unfolding days_before_month
year_bounds y h = ground arith

-- To prove a fact of each month.
pub by_month :
    (P : ℕ → Type 0)
    → P 1
    → P 2
    → P 3
    → P 4
    → P 5
    → P 6
    → P 7
    → P 8
    → P 9
    → P 10
    → P 11
    → P 12
    → (m : ℕ) → 1 ≤ m
    → m ≤ 12
    → P m
by_month P a b c d e f g h i j k l zero p q = absurd (omega arith)
by_month P a b c d e f g h i j k l (suc zero) p q = a
by_month P a b c d e f g h i j k l (suc (suc zero)) p q = b
by_month P a b c d e f g h i j k l (suc (suc (suc zero))) p q = c
by_month P a b c d e f g h i j k l (suc (suc (suc (suc zero)))) p q = d
by_month P a b c d e f g h i j k l (suc (suc (suc (suc (suc n))))) p q = later n (omega arith)
  where
    late : (n : ℕ) → n < 4 → P (suc (suc (suc (suc (suc (suc (suc (suc (suc n)))))))))
    late zero r = i
    late (suc zero) r = j
    late (suc (suc zero)) r = k
    late (suc (suc (suc zero))) r = l
    late (suc (suc (suc (suc n)))) r = absurd (omega arith)

    later : (n : ℕ) → n < 8 → P (suc (suc (suc (suc (suc n)))))
    later zero r = e
    later (suc zero) r = f
    later (suc (suc zero)) r = g
    later (suc (suc (suc zero))) r = h
    later (suc (suc (suc (suc n)))) r = late n (omega arith)

abbrev HasMonth : ℕ → ℕ → Type 0
HasMonth y m = (d : ℕ) → 1 ≤ d → d ≤ days_in_month y m → month_of y (days_before_month y m + d) ≡ m

pub month_of_lem : (y m : ℕ) → 1 ≤ m → m ≤ 12 → HasMonth y m
unfolding month_of days_in_month days_before_month
month_of_lem y =
    by_month (HasMonth y) (λ d p q. ground arith) (λ d p q. ground arith) (λ d p q. ground arith)
      (λ d p q. ground arith) (λ d p q. ground arith) (λ d p q. ground arith)
      (λ d p q. ground arith) (λ d p q. ground arith) (λ d p q. ground arith)
      (λ d p q. ground arith) (λ d p q. ground arith) (λ d p q. ground arith)

days_before_year_mono : (y z : ℕ) → y ≤ z → days_before_year y ≤ days_before_year z
unfolding days_before_year
days_before_year_mono y z h = omega arith

days_before_year_bounds :
    (z : ℕ) → (365 * (z - 1) ≤ days_before_year z) × (days_before_year z ≤ 366 * (z - 1))
unfolding days_before_year
days_before_year_bounds z = (omega arith, omega arith)

-- The search of `year_of`, from a year not past the one that is sought.
year_from_lem :
    (fuel y z n : ℕ)
    → y ≤ z
    → z < y + fuel
    → days_before_year z < n
    → n ≤ days_before_year (z + 1)
    → year_from fuel y n ≡ z
unfolding year_from
year_from_lem zero y z n h k p q = absurd (omega arith)
year_from_lem (suc fuel) y z n h k p q = ground (
  arith,
  days_before_year_mono (y + 1) z,
  days_before_year_mono (z + 1) (y + 1),
  year_from_lem fuel (y + 1) z n,
)

abbrev pub IsYearOf : ℕ → ℕ → Type 0
IsYearOf n z = (1 ≤ z) × (days_before_year z < n) × (n ≤ days_before_year (z + 1))

year_from-IsYearOf :
    (fuel y n : ℕ)
    → 1 ≤ y
    → days_before_year y < n
    → n ≤ days_before_year (y + fuel)
    → IsYearOf n (year_from fuel y n)
unfolding year_from
year_from-IsYearOf zero y n h p q = absurd (omega (arith, days_before_year_mono (y + 0) y))
year_from-IsYearOf (suc fuel) y n h p q =
    ground (arith, year_from-IsYearOf fuel (y + 1) n, ap days_before_year (shift y fuel))
  where
    shift : (y fuel : ℕ) → y + suc fuel ≡ y + 1 + fuel
    shift y fuel = omega arith

-- The search starts early enough and has enough fuel.
pub year_of-IsYearOf : (n : ℕ) → 1 ≤ n → IsYearOf n (year_of n)
unfolding year_of
year_of-IsYearOf n h =
    year_from-IsYearOf n ((n - 1) / 366 + 1) n (omega arith)
      (omega (arith, days_before_year_bounds ((n - 1) / 366 + 1)))
      (omega (arith, days_before_year_bounds ((n - 1) / 366 + 1 + n)))

-- Only one year holds a day.
IsYearOf-unique : (n y z : ℕ) → IsYearOf n y → IsYearOf n z → y ≡ z
IsYearOf-unique n y z h k =
    ground (arith, days_before_year_mono (y + 1) z, days_before_year_mono (z + 1) y)

pub year_of_lem :
    (z r : ℕ) → 1 ≤ z → 1 ≤ r → r ≤ days_before_month z 13 → year_of (days_before_year z + r) ≡ z
year_of_lem z r h p q =
    IsYearOf-unique _ _ z (year_of-IsYearOf _ (omega arith))
      (h, omega arith, omega (arith, days_before_year-suc z h))
