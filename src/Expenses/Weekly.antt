-- ===== src/Expenses/Weekly.antt =====
-- About the weekly dates of `recurringExpenseDates` (shared/business-expense-recurrence.ts).
use barber_bookings.Common.{
  ℕ, ◌+◌, ◌-◌, ◌/◌, ◌≤◌, max, Bool, true, false, List, [], ◌∷◌, Option, none, some, ◌≡◌, refl, ◌↔◌,
  arith, Bool-cases, filter, inl, inr, ltb, ltb→lt, ◌<◌,
}
use barber_bookings.Common.Sort.{In, In-filter}
use barber_bookings.Common.Steps.{steps_complete, steps_sound}
use barber_bookings.Calendar.{utc_weekday}
use barber_bookings.Expenses.{
  RecurringExpensePause, RecurringExpenseSchedule, first_weekday, is_due, recurring_expense_dates,
  weekly, weekly_dates,
}

In-filter_of :
    {A : Type 0} (p : A → Bool) (a : A) (xs : List A) → In a xs → p a ≡ true → In a (filter p xs)
In-filter_of p a [] i e = absurd i
In-filter_of p a (x ∷ xs) (inl same) e = rw (rw same at e) (inl same)
In-filter_of p a (x ∷ xs) (inr later) e = elim (Bool-cases (p x)) [
  | inl yes_it ↦ rw yes_it (inr (In-filter_of p a xs later e))
  | inr no_it ↦ rw no_it (In-filter_of p a xs later e)
]

-- A day on which a weekly expense of an anchor date falls.
abbrev pub IsWeeklyDate : ℕ → ℕ → ℕ → ℕ → Option ℕ → List RecurringExpensePause → ℕ → Type 0
IsWeeklyDate anchor from through weekday ended_on pauses d =
    (anchor ≤ d)
    × (from ≤ d)
    × (d ≤ through)
    × (utc_weekday d ≡ weekday)
    × (is_due ended_on pauses d ≡ true)

max_le : (a b d : ℕ) → max a b ≤ d → (a ≤ d) × (b ≤ d)
max_le a b d h = ground arith

le_max : (a b d : ℕ) → a ≤ d → b ≤ d → max a b ≤ d
le_max a b d h k = ground arith

weekly_dates-IsExact :
    (anchor from through weekday : ℕ) (ended_on : Option ℕ) (pauses : List RecurringExpensePause)
    (d : ℕ)
    → weekday ≤ 6
    → In d (weekly_dates anchor from through weekday ended_on pauses)
      ↔ IsWeeklyDate anchor from through weekday ended_on pauses d
unfolding weekly_dates utc_weekday
weekly_dates-IsExact anchor from through weekday ended_on pauses d le = (
  (λ i.
      let (met, due) = In-filter (is_due ended_on pauses) d _ i in
      let (k, (e, lt)) = steps_sound (through + 1) 7 _ (through + 1) d met in
      let (a, b) = max_le from anchor d (omega (arith, e)) in
      (b, a, omega (arith, lt), omega (arith, e, le), due)),
  λ (a, b, before, day, due).
      In-filter_of (is_due ended_on pauses) d _
        (steps_complete (through + 1) 7 _ (through + 1)
          ((d - first_weekday weekday (max from anchor)) / 7) d (omega arith) (omega arith)
          (omega (arith, le_max from anchor d b a, day, le)) (omega (arith, before)))
        due,
)

-- A schedule of every week on a weekday.
abbrev pub every_week : ℕ → RecurringExpenseSchedule
every_week weekday = record { recurrence = weekly; weekday = some weekday; month_day = none }

no_days :
    (anchor from through weekday : ℕ) (ended_on : Option ℕ) (pauses : List RecurringExpensePause)
    (d : ℕ)
    → through < from
    → In d [] ↔ IsWeeklyDate anchor from through weekday ended_on pauses d
no_days anchor from through weekday ended_on pauses d lt =
    ((λ i. absurd i), λ (a, b, before, day, due). omega (arith, b, before, lt))

-- The dates of a weekly expense, for a weekday from 0 (Sunday) to 6, are exact. The call returns, and a
-- day is among the dates if and only if it is not before the anchor, lies in the asked range, has the
-- weekday, comes before the end of the expense if it has one, and is in no pause.
pub recurring_expense_dates-IsExact :
    (anchor from through weekday : ℕ) (ended_on : Option ℕ) (pauses : List RecurringExpensePause)
    → weekday ≤ 6
    → (dates : List ℕ) × ((recurring_expense_dates anchor from through
            (every_week weekday)
            ended_on
            pauses
          ≡ some dates)
        × ((d : ℕ) → In d dates ↔ IsWeeklyDate anchor from through weekday ended_on pauses d))
unfolding recurring_expense_dates
recurring_expense_dates-IsExact anchor from through weekday ended_on pauses le =
    elim (Bool-cases (ltb through from)) [
      | inl empty ↦ (
        [],
        (
          rw empty refl,
          λ d. no_days anchor from through weekday ended_on pauses d (ltb→lt through from empty),
        ),
      )
      | inr range ↦ (
        weekly_dates anchor from through weekday ended_on pauses,
        (
          rw (range, valid weekday le) refl,
          λ d. weekly_dates-IsExact anchor from through weekday ended_on pauses d le,
        ),
      )
    ]
  where
    valid : (w : ℕ) → w ≤ 6 → ltb 6 w ≡ false
    valid w h = ground arith
