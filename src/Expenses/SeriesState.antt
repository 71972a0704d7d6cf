-- ===== src/Expenses/SeriesState.antt =====
-- `setRecurringExpenseSeriesState` (server/recurring-expenses.ts): a series of recurring expenses is
-- paused, resumed or ended from a day on. The state is the rows of one series in the three tables, less
-- their times of change; days are numbers. The locks and the transaction are the database's: a call
-- that throws leaves the rows, so a refusal has no state.
pub mod Disjoint
pub mod Closing
pub mod Sound
use barber_bookings.Common.{
  ℕ, ◌+◌, Bool, true, false, not, ◌&&◌, ◌||◌, List, [], ◌∷◌, ◌++◌, map, Option, none, some, leb,
  ltb, ◌==◌, any, filter, is_some, length, if◌then◌else◌,
}
use barber_bookings.Expenses.{RecurringExpensePause}

pub data SeriesStatus : Type 0 where
  active paused ended : SeriesStatus

pub data SeriesAction : Type 0 where
  pause resume end : SeriesAction

-- A row of `businessExpenseRecurringPauses`.
pub record PauseRow : Type 0 where
  pub id : ℕ
  pub range : RecurringExpensePause

-- A row of `businessExpenses` that the series owns; `none` stands for no date.
pub record OccurrenceRow : Type 0 where
  pub scheduled_date : Option ℕ
  pub is_occurrence_override : Bool

-- The row of the series, its pauses, the next id of a pause, and its occurrences.
pub record SeriesRows : Type 0 where
  pub location_id : ℕ
  pub status : SeriesStatus
  pub ended_on : Option ℕ
  pub pauses : List PauseRow
  pub next_pause : ℕ
  pub occurrences : List OccurrenceRow

pub record StateRequest : Type 0 where
  pub location_id : ℕ
  pub action : SeriesAction
  pub effective_from : ℕ
  pub resume_on : Option ℕ

pub data StateError : Type 0 where
  location_not_found series_without_history series_ended past_effective_date
        future_effective_date_required pause_range_invalid effective_date_after_end pause_overlap
        open_pause_not_found end_date_before_history future_occurrence_override :
      StateError

-- The status, the end and the day that a call returns with the series.
pub record SeriesChange : Type 0 where
  pub status : SeriesStatus
  pub ended_on : Option ℕ
  pub effective_on : ℕ

pub data StateOutcome : Type 0 where
  no_series : StateOutcome
  refused : StateError → StateOutcome
  changed : SeriesRows → SeriesChange → StateOutcome

unfoldable pub refuse_if : Bool → StateError → StateOutcome → StateOutcome
refuse_if true e outcome = refused e
refuse_if false e outcome = outcome

-- The day is there and not after `d`, as the SQL and the code compare it.
abbrev pub is_by : ℕ → Option ℕ → Bool
is_by d none = false
is_by d (some day) = leb day d

abbrev pub is_from : ℕ → Option ℕ → Bool
is_from d none = false
is_from d (some day) = leb d day

unfoldable pub series_occurrence_count : ℕ → List OccurrenceRow → ℕ
series_occurrence_count through_date rows =
    length (filter (λ row. is_by through_date row.scheduled_date) rows)

abbrev pub is_resume : SeriesAction → Bool
is_resume resume = true
is_resume _ = false

-- The pause would begin at the end of the series or later, or end after it.
abbrev pub passes_end : ℕ → Option ℕ → Option ℕ → Bool
passes_end from resume_on none = false
passes_end from none (some last) = leb last from
passes_end from (some until) (some last) = leb last from || ltb last until

abbrev pub is_open_or_after : ℕ → Option ℕ → Bool
is_open_or_after d none = true
is_open_or_after d (some until) = ltb d until

unfoldable pub pause_overlaps : ℕ → Option ℕ → RecurringExpensePause → Bool
pause_overlaps from resume_on row =
    is_open_or_after row.paused_from resume_on && is_open_or_after from row.resumed_on

abbrev status_of : Option ℕ → Bool → SeriesStatus
status_of (some last) paused_today = ended
status_of none true = paused
status_of none false = active

unfoldable pub insert_pause : ℕ → ℕ → Option ℕ → SeriesRows → SeriesRows
insert_pause today from resume_on s = record s {
  status = status_of s.ended_on (leb from today && is_open_or_after today resume_on);
  pauses = s.pauses ++ new_row ∷ [];
  next_pause = s.next_pause + 1;
}
  where
    new_row : PauseRow
    new_row = record {
      id = s.next_pause;
      range = record { paused_from = from; resumed_on = resume_on };
    }

-- Of the pauses without an end, the one that begins last; of two, the earlier row.
unfoldable pub later_pause : PauseRow → Option PauseRow → PauseRow
later_pause row none = row
later_pause row (some other) =
    if ltb row.range.paused_from other.range.paused_from then other else row

unfoldable pub open_pause : List PauseRow → Option PauseRow
unfolding later_pause
open_pause [] = none
open_pause (row ∷ rest) =
    let later = open_pause rest in
    if is_some row.range.resumed_on then later else some (later_pause row later)

unfoldable pub close_row : ℕ → ℕ → PauseRow → PauseRow
close_row id day row =
    if row.id == id then record row { range = record row.range { resumed_on = some day } } else row

unfoldable pub close_pause : ℕ → ℕ → SeriesRows → SeriesRows
unfolding close_row
close_pause id day s = record s {
  status = status_of s.ended_on false;
  pauses = map (close_row id day) s.pauses;
}

unfoldable pub end_series : ℕ → SeriesRows → SeriesRows
end_series day s = record s { status = ended; ended_on = some day }

-- The last day up to `today` that an occurrence is scheduled for.
unfoldable pub latest_historical : ℕ → List OccurrenceRow → Option ℕ
latest_historical today [] = none
latest_historical today (row ∷ rest) =
    let later = latest_historical today rest in
    if is_by today row.scheduled_date && not (later_than row.scheduled_date later)
    then row.scheduled_date
    else later
  where
    later_than : Option ℕ → Option ℕ → Bool
    later_than (some d) (some other) = ltb d other
    later_than _ _ = false

abbrev pub is_future_override : ℕ → OccurrenceRow → Bool
is_future_override from row = is_from from row.scheduled_date && row.is_occurrence_override

abbrev pub is_kept : ℕ → OccurrenceRow → Bool
is_kept from row = not (is_from from row.scheduled_date && not row.is_occurrence_override)

abbrev pub series_change : SeriesAction → ℕ → Option ℕ → SeriesChange
series_change end day ended_on = record { status = ended; ended_on = some day; effective_on = day }
series_change _ day ended_on = record {
  status = status_of ended_on false;
  ended_on = ended_on;
  effective_on = day;
}

-- After the action, the generated occurrences from the day on are deleted.
unfoldable pub finish_state : StateRequest → Option ℕ → SeriesRows → StateOutcome
finish_state r ended_on s =
    refuse_if (any (is_future_override r.effective_from) s.occurrences) future_occurrence_override (
      changed (record s { occurrences = filter (is_kept r.effective_from) s.occurrences })
        (series_change r.action r.effective_from ended_on))

unfoldable pub resume_series : StateRequest → Option PauseRow → SeriesRows → StateOutcome
unfolding finish_state close_pause
resume_series r none s = refused open_pause_not_found
resume_series r (some row) s =
    refuse_if (ltb r.effective_from row.range.paused_from) open_pause_not_found
      (finish_state r s.ended_on (close_pause row.id r.effective_from s))

unfoldable pub act : ℕ → StateRequest → SeriesAction → SeriesRows → StateOutcome
unfolding pause_overlaps insert_pause finish_state resume_series open_pause end_series
    latest_historical
act today r pause s = refuse_if (is_by r.effective_from r.resume_on) pause_range_invalid (
    refuse_if (passes_end r.effective_from r.resume_on s.ended_on) effective_date_after_end (
      refuse_if (any (λ row. pause_overlaps r.effective_from r.resume_on row.range) s.pauses)
        pause_overlap
        (finish_state r s.ended_on (insert_pause today r.effective_from r.resume_on s))))
act today r resume s = resume_series r (open_pause s.pauses) s
act today r end s =
    refuse_if (is_from r.effective_from (latest_historical today s.occurrences))
      end_date_before_history (finish_state r s.ended_on (end_series r.effective_from s))

unfoldable pub set_state : ℕ → StateRequest → SeriesRows → StateOutcome
unfolding series_occurrence_count act
set_state today r s =
    refuse_if (series_occurrence_count today s.occurrences == 0) series_without_history (
      refuse_if (is_by today s.ended_on) series_ended (
        refuse_if (ltb r.effective_from today) past_effective_date (
          refuse_if (not (is_resume r.action) && leb r.effective_from today)
            future_effective_date_required (act today r r.action s))))

unfoldable pub set_at : Option ℕ → StateRequest → SeriesRows → StateOutcome
set_at none r s = refused location_not_found
set_at (some today) r s = set_state today r s

-- `today` is the day in the time zone of the location, if there is one.
unfoldable pub set_recurring_expense_series_state :
    Option ℕ → StateRequest → Option SeriesRows → StateOutcome
unfolding set_at
set_recurring_expense_series_state today r none = no_series
set_recurring_expense_series_state today r (some s) =
    if s.location_id == r.location_id then set_at today r s else no_series
