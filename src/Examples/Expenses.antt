-- ===== src/Examples/Expenses.antt =====
-- Runs of `setRecurringExpenseSeriesState` (server/recurring-expenses.ts). The days are those of 2023.
use barber_bookings.Common.{
  ℕ, false, not, List, [], ◌∷◌, Option, none, some, ◌≡◌, refl, arith, filter,
}
use barber_bookings.Expenses.SeriesState.{
  active, pause, resume, end, PauseRow, OccurrenceRow, SeriesRows, StateRequest, SeriesAction,
  refused, changed, pause_overlap, future_effective_date_required, refuse_if, finish_state,
  close_row, close_pause, open_pause, later_pause, resume_series, act, set_state, set_at,
  series_occurrence_count, pause_overlaps, is_from, set_recurring_expense_series_state,
}
use barber_bookings.Expenses.SeriesState.Disjoint.{IsSound}
use barber_bookings.Expenses.SeriesState.Sound.{set_recurring_expense_series_state-IsSound}

abbrev pause_row : ℕ → ℕ → Option ℕ → PauseRow
pause_row id from until = record {
  id = id;
  range = record { paused_from = from; resumed_on = until };
}

abbrev generated_on : ℕ → OccurrenceRow
generated_on day = record { scheduled_date = some day; is_occurrence_override = false }

abbrev rows_of : List PauseRow → List OccurrenceRow → SeriesRows
rows_of pauses occurrences = record {
  location_id = 1;
  status = active;
  ended_on = none;
  pauses = pauses;
  next_pause = 3;
  occurrences = occurrences;
}

-- A pause that is over, and one without an end.
abbrev before : SeriesRows
before =
    rows_of (pause_row 1 738910 (some 738920) ∷ pause_row 2 738950 none ∷ [])
      (generated_on 738900 ∷ generated_on 738970 ∷ [])

abbrev after_resumption : SeriesRows
after_resumption =
    rows_of (pause_row 1 738910 (some 738920) ∷ pause_row 2 738950 (some 738960) ∷ [])
      (generated_on 738900 ∷ [])

abbrev request : SeriesAction → ℕ → Option ℕ → StateRequest
request action day until = record {
  location_id = 1;
  action = action;
  effective_from = day;
  resume_on = until;
}

resumed :
    set_recurring_expense_series_state (some 738955) (request resume 738960 none) (some before)
    ≡ changed after_resumption (record { status = active; ended_on = none; effective_on = 738960 })
unfolding set_recurring_expense_series_state set_at set_state refuse_if finish_state close_row
    close_pause open_pause later_pause resume_series act series_occurrence_count
resumed = refl

-- The new pause would run into the one without an end.
pause_refused :
    set_recurring_expense_series_state
      (some 738925)
      (request pause 738940 (some 738951))
      (some before)
    ≡ refused pause_overlap
unfolding set_recurring_expense_series_state set_at set_state refuse_if act series_occurrence_count
    pause_overlaps
pause_refused = refl

-- A pause or an end cannot begin today.
end_refused :
    set_recurring_expense_series_state (some 738940) (request end 738940 none) (some before)
    ≡ refused future_effective_date_required
unfolding set_recurring_expense_series_state set_at set_state refuse_if act series_occurrence_count
end_refused = refl

before-IsSound : IsSound before
before-IsSound = record {
  apart = ((((λ e. omega arith), λ d a b. ground arith), tt), (tt, tt));
  fresh = (omega arith, (omega arith, tt));
  ordered = (omega arith, (tt, tt));
  has_status = tt;
}

set_recurring_expense_series_state-IsSound_example :
    IsSound after_resumption
    × (after_resumption.occurrences
        ≡ filter (λ row. not (is_from 738960 row.scheduled_date)) before.occurrences)
set_recurring_expense_series_state-IsSound_example =
    set_recurring_expense_series_state-IsSound (some 738955) (request resume 738960 none) before
      after_resumption (record { status = active; ended_on = none; effective_on = 738960 }) resumed
      before-IsSound
