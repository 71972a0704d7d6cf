-- ===== src/Expenses/Monthly/Candidates.antt =====
-- The candidates of a monthly expense (shared/business-expense-recurrence.ts), one for each month.
use barber_bookings.Common.{
  ℕ, ◌+◌, ◌/◌, ◌%◌, ◌≤◌, min, Bool, true, ◌&&◌, List, [], ◌∷◌, Option, ◌≡◌, refl, ap, ◌∙◌, arith,
  Bool-cases, inl, inr, leb,
}
use barber_bookings.Common.Sort.{In}
use barber_bookings.Calendar.{civil, date, days_in_month, utc_day}
use barber_bookings.Calendar.RoundTrip.{civil-utc_day, month_bounds}
use barber_bookings.Calendar.Months.{last_IsDate, month_end}
use barber_bookings.Expenses.{
  RecurringExpensePause, dates_of_months, in_range, is_due, last_day_of_month, month_candidate,
  month_key,
}

pub last_day_lem : (y i : ℕ) → 1 ≤ y → i ≤ 11 → last_day_of_month y i ≡ days_in_month y (i + 1)
unfolding last_day_of_month
last_day_lem y i h le =
    ap (λ c. c.day)
      (ap (λ k. civil (utc_day y k 0)) (next i)
        ∙ ap civil (month_end y (i + 1) h (omega arith) (omega arith))
        ∙ civil-utc_day (date y (i + 1) (days_in_month y (i + 1)))
            (last_IsDate y (i + 1) h (omega arith) (omega arith)))
  where
    next : (n : ℕ) → n + 2 ≡ n + 1 + 1
    next n = omega arith

min_in : (a n : ℕ) → 1 ≤ a → 28 ≤ n → (1 ≤ min a n) × (min a n ≤ n)
min_in a n h k = (ground arith, ground arith)

-- The date of the candidate of a month.
pub candidate_date :
    (day key : ℕ)
    → 1 ≤ day
    → 12 ≤ key
    → civil (month_candidate day key)
      ≡ date (key / 12) (key % 12 + 1) (min day (days_in_month (key / 12) (key % 12 + 1)))
candidate_date day key one h =
    ap (λ n. civil (utc_day (key / 12) (key % 12 + 1) (min day n)))
      (last_day_lem (key / 12) (key % 12) (omega arith) (omega arith))
    ∙ civil-utc_day
        (date (key / 12) (key % 12 + 1) (min day (days_in_month (key / 12) (key % 12 + 1))))
        (record {
          year_in = omega arith;
          month_in = (omega arith, omega arith);
          day_in =
              min_in day (days_in_month (key / 12) (key % 12 + 1)) one
                (omega (arith, month_bounds (key / 12) (key % 12 + 1) (omega arith) (omega arith)));
        })

module _ (anchor from through day : ℕ) (ended_on : Option ℕ)
    (pauses : List RecurringExpensePause) where
  -- The tests of a round.
  abbrev passes : ℕ → Bool
  passes key =
      leb (month_key anchor) key
      && in_range anchor from through (month_candidate day key)
      && is_due ended_on pauses (month_candidate day key)

  pub dates_sound :
      (keys : List ℕ) (d : ℕ)
      → In d (dates_of_months anchor from through day ended_on pauses keys)
      → (key : ℕ) × (In key keys × ((d ≡ month_candidate day key) × (passes key ≡ true)))
  unfolding dates_of_months
  dates_sound [] d i = absurd i
  dates_sound (key ∷ keys) d i = elim (Bool-cases (passes key)) [
    | inl met ↦ elim (rw met at i) [
      | inl e ↦ (key, (inl refl, (e, met)))
      | inr later ↦ let (k, (j, r)) = dates_sound keys d later in (k, (inr j, r))
    ]
    | inr skipped ↦ let (k, (j, r)) = dates_sound keys d (rw skipped at i) in (k, (inr j, r))
  ]

  pub dates_complete :
      (keys : List ℕ) (key : ℕ)
      → In key keys
      → passes key ≡ true
      → In (month_candidate day key) (dates_of_months anchor from through day ended_on pauses keys)
  unfolding dates_of_months
  dates_complete [] key i met = absurd i
  dates_complete (k ∷ keys) key (inl e) met = rw (rw e at met) (inl (ap (month_candidate day) e))
  dates_complete (k ∷ keys) key (inr j) met = elim (Bool-cases (passes k)) [
    | inl first ↦ rw first (inr (dates_complete keys key j met))
    | inr skipped ↦ rw skipped (dates_complete keys key j met)
  ]

-- A day on which a monthly expense of an anchor date falls.
abbrev pub IsMonthlyDate : ℕ → ℕ → ℕ → ℕ → Option ℕ → List RecurringExpensePause → ℕ → Type 0
IsMonthlyDate anchor from through day ended_on pauses d =
    (anchor ≤ d)
    × (from ≤ d)
    × (d ≤ through)
    × ((civil d).day ≡ min day (days_in_month (civil d).year (civil d).month))
    × (is_due ended_on pauses d ≡ true)

pub all_of :
    (p q r s t : Bool)
    → (p && (q && r && s) && t) ≡ true
    → (q ≡ true) × (r ≡ true) × (s ≡ true) × (t ≡ true)
all_of p q r s t h = (ground arith, ground arith, ground arith, ground arith)
