-- ===== src/Calendar/Months.antt =====
-- Months of the calendar of `Date.UTC`: where their days lie, and their order.
use barber_bookings.Common.{
  ℕ, zero, suc, ◌+◌, ◌-◌, ◌*◌, ◌/◌, ◌%◌, ◌≤◌, ◌<◌, false, ◌≡◌, refl, ap, inl, inr, arith, ltb, ◌==◌,
  ==_iff, Bool-cases, ltb→lt,
}
use barber_bookings.Calendar.{
  CalendarDate, civil, date, days_before_month, days_before_year, days_in_month, utc_day,
}
use barber_bookings.Calendar.RoundTrip.{month_bounds, utc_day-civil}
use barber_bookings.Calendar.RoundTrip.Years.{IsDate, days_before_year-suc}

pub utc_day_in :
    (y m d : ℕ) → 1 ≤ m → m ≤ 12 → utc_day y m d ≡ days_before_year y + (days_before_month y m + d)
unfolding utc_day
utc_day_in y m d one twelve = rw (same_year, same_month) (omega arith)
  where
    same_year : y + (m - 1) / 12 ≡ y
    same_year = omega arith

    same_month : (m - 1) % 12 + 1 ≡ m
    same_month = omega arith

-- The month 13 of a year is January of the next one.
pub utc_day_carry : (y d : ℕ) → utc_day y 13 d ≡ utc_day (y + 1) 1 d
unfolding utc_day
utc_day_carry y d = ap (λ z. days_before_year z + days_before_month z 1 + d) same
  where
    same : y + 1 ≡ y + 1 + 0
    same = omega arith

january : (y : ℕ) → days_before_month y 1 ≡ 0
unfolding days_before_month
january y = refl

-- The day before the first of the next month is the last of the month.
pub month_end :
    (y m : ℕ) → 1 ≤ y → 1 ≤ m → m ≤ 12 → utc_day y (m + 1) 0 ≡ utc_day y m (days_in_month y m)
unfolding days_in_month
month_end y m h one twelve = elim (Bool-cases (m == 12)) [
  | inr early ↦ omega (
    arith,
    utc_day_in y (m + 1) 0 (omega arith) (below m twelve early),
    utc_day_in y m (days_in_month y m) one twelve,
    month_bounds y m one twelve,
  )
  | inl last ↦
      let is_last : m ≡ 12 = (==_iff m 12).0 last in
      rw is_last (
        omega (
          arith,
          utc_day_carry y 0,
          utc_day_in (y + 1) 1 0 (omega arith) (omega arith),
          utc_day_in y 12 (days_in_month y 12) (omega arith) (omega arith),
          month_bounds y 12 (omega arith) (omega arith),
          days_before_year-suc y h,
          january (y + 1),
        ))
]
  where
    below : (n : ℕ) → n ≤ 12 → (n == 12) ≡ false → n + 1 ≤ 12
    below n le ne = ground arith

pub first_IsDate : (y m : ℕ) → 1 ≤ y → 1 ≤ m → m ≤ 12 → IsDate (date y m 1)
first_IsDate y m h one twelve = record {
  year_in = h;
  month_in = (one, twelve);
  day_in = (omega arith, omega (arith, month_bounds y m one twelve));
}

pub last_IsDate : (y m : ℕ) → 1 ≤ y → 1 ≤ m → m ≤ 12 → IsDate (date y m (days_in_month y m))
last_IsDate y m h one twelve = record {
  year_in = h;
  month_in = (one, twelve);
  day_in = (omega (arith, month_bounds y m one twelve), omega arith);
}

days_before_year_mono : (p q : ℕ) → 1 ≤ p → p ≤ q → days_before_year p ≤ days_before_year q
unfolding days_before_year
days_before_year_mono p q h le = omega arith

-- The days before a month k months later.
grows : (z n : ℕ) → 1 ≤ n → n ≤ 12 → days_before_month z n ≤ days_before_month z (n + 1)
unfolding days_in_month
grows z n h le = omega (arith, month_bounds z n h le)

month_length :
    (y m d : ℕ)
    → 1 ≤ d
    → d ≤ days_in_month y m
    → days_before_month y m + d ≤ days_before_month y (m + 1)
unfolding days_in_month
month_length y m d one le = omega (arith, le)

days_before_month_mono :
    (y m k : ℕ) → 1 ≤ m → m + k ≤ 12 → days_before_month y m ≤ days_before_month y (m + k)
days_before_month_mono y m zero one le = rw (plus_zero m) (omega arith)
  where
    plus_zero : (n : ℕ) → n + 0 ≡ n
    plus_zero n = omega arith
days_before_month_mono y m (suc k) one le = omega (
  arith,
  days_before_month_mono y m k one (omega arith),
  grows y (m + k) (omega arith) (omega arith),
  ap (days_before_month y) (next m k),
)
  where
    next : (a b : ℕ) → a + suc b ≡ a + b + 1
    next a b = omega arith

in_order : (y m n : ℕ) → 1 ≤ m → m ≤ n → n ≤ 12 → days_before_month y m ≤ days_before_month y n
in_order y m n one le twelve = omega (
  arith,
  days_before_month_mono y m (n - m) one (omega arith),
  ap (days_before_month y) (rejoin m n le),
)
  where
    rejoin : (a b : ℕ) → a ≤ b → a + (b - a) ≡ b
    rejoin a b h = omega arith

-- A date in an earlier month comes before.
earlier_month :
    (s t : CalendarDate)
    → IsDate s
    → IsDate t
    → s.year * 12 + s.month < t.year * 12 + t.month
    → utc_day s.year s.month s.day < utc_day t.year t.month t.day
earlier_month s t v w lt = elim (Bool-cases (s.year == t.year)) [
  | inl same ↦
      let e : s.year ≡ t.year = (==_iff s.year t.year).0 same in
      omega (
        arith,
        lt,
        e,
        in_s,
        in_t,
        month_length s.year s.month s.day v.day_in.0 v.day_in.1,
        in_order s.year (s.month + 1) t.month (omega arith) (omega (arith, lt, e)) w.month_in.1,
        ap (λ y. days_before_month y t.month) e,
        ap days_before_year e,
        w.day_in,
      )
  | inr other ↦ omega (
    arith,
    in_s,
    in_t,
    v.day_in,
    w.day_in,
    month_bounds s.year s.month v.month_in.0 v.month_in.1,
    days_before_year-suc s.year v.year_in,
    days_before_year_mono (s.year + 1) t.year (omega arith)
        (next_year s.year t.year s.month t.month v.month_in.0 w.month_in.1 lt other),
  )
]
  where
    in_s :
        utc_day s.year s.month s.day
        ≡ days_before_year s.year + (days_before_month s.year s.month + s.day)
    in_s = utc_day_in s.year s.month s.day v.month_in.0 v.month_in.1

    in_t :
        utc_day t.year t.month t.day
        ≡ days_before_year t.year + (days_before_month t.year t.month + t.day)
    in_t = utc_day_in t.year t.month t.day w.month_in.0 w.month_in.1

    next_year :
        (a b m n : ℕ) → 1 ≤ m → n ≤ 12 → a * 12 + m < b * 12 + n → (a == b) ≡ false → a + 1 ≤ b
    next_year a b m n h k l ne = ground arith

-- Later days are in no earlier month.
pub month_mono :
    (a b : ℕ)
    → 1 ≤ a
    → a ≤ b
    → (civil a).year * 12 + (civil a).month ≤ (civil b).year * 12 + (civil b).month
month_mono a b one le =
    elim (Bool-cases
      (ltb ((civil b).year * 12 + (civil b).month) ((civil a).year * 12 + (civil a).month))) [
        | inr fine ↦ ground arith
        | inl wrong ↦
            let (v, ea) = utc_day-civil a one in
            let (w, eb) = utc_day-civil b (omega (arith, one, le)) in
            omega (arith, le, ea, eb, earlier_month (civil b) (civil a) w v (ltb→lt _ _ wrong))
      ]
