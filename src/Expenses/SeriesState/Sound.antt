-- ===== src/Expenses/SeriesState/Sound.antt =====
-- About `setRecurringExpenseSeriesState` (server/recurring-expenses.ts): what a call that succeeds leaves.
use barber_bookings.Common.{
  ℕ, Bool, true, false, not, List, [], ◌∷◌, Option, none, some, ◌==◌, ◌≡◌, refl, ap, ◌∙◌, arith,
  any, if◌then◌else◌,
}
use std.Path.{subst}
use barber_bookings.Expenses.SeriesState.{
  SeriesAction, pause, resume, end, PauseRow, SeriesRows, StateRequest, StateError, StateOutcome,
  no_series, refused, changed, insert_pause, open_pause, close_pause, end_series, finish_state,
  resume_series, act, set_state, set_at, SeriesChange, set_recurring_expense_series_state,
}
use barber_bookings.Expenses.SeriesState.{
  SeriesAction, OccurrenceRow, is_from, is_future_override, is_kept, open_pause_not_found,
  location_not_found,
}
use barber_bookings.Common.{filter}
use barber_bookings.Expenses.SeriesState.Disjoint.{
  IsSound, Holds, refuse_if-Holds, insert_pause-IsSound,
}
use barber_bookings.Expenses.SeriesState.Closing.{Found, open_pause-Found, close_pause-IsSound}

-- The rows are sound, and of the occurrences just those before the day are left.
abbrev pub Leaves : StateRequest → SeriesRows → SeriesRows → Type 0
Leaves r s t =
    IsSound t
    × (t.occurrences
        ≡ filter (λ row. not (is_from r.effective_from row.scheduled_date)) s.occurrences)

Holds-changed :
    (P : SeriesRows → Type 0) (t : SeriesRows) (v : SeriesChange) → P t → Holds P (changed t v)
unfolding Holds
Holds-changed P t v h = h

Holds-refused : (P : SeriesRows → Type 0) (e : StateError) → Holds P (refused e)
unfolding Holds
Holds-refused P e = tt

of_changed :
    (P : SeriesRows → Type 0) (o : StateOutcome) (t : SeriesRows) (v : SeriesChange)
    → o ≡ changed t v
    → Holds P o
    → P t
unfolding Holds
of_changed P o t v e h = subst (Holds P) e h

kept_before :
    (d : ℕ) (rows : List OccurrenceRow)
    → any (is_future_override d) rows ≡ false
    → filter (is_kept d) rows ≡ filter (λ row. not (is_from d row.scheduled_date)) rows
kept_before d [] h = refl
kept_before d (row ∷ rows) h = ground (arith, kept_before d rows)

finish_state-Leaves :
    (r : StateRequest) (last : Option ℕ) (s t : SeriesRows)
    → t.occurrences ≡ s.occurrences
    → IsSound t
    → Holds (Leaves r s) (finish_state r last t)
unfolding finish_state
finish_state-Leaves r last s t e c = refuse_if-Holds (Leaves r s) _ _ _ (λ h.
    Holds-changed (Leaves r s) _ _ (
      record { apart = c.apart; fresh = c.fresh; ordered = c.ordered; has_status = c.has_status },
      kept_before r.effective_from t.occurrences h
          ∙ ap (filter (λ row. not (is_from r.effective_from row.scheduled_date))) e,
    ))

resume_series-Leaves :
    (r : StateRequest) (o : Option PauseRow) (s : SeriesRows)
    → Found s.pauses o
    → IsSound s
    → Holds (Leaves r s) (resume_series r o s)
unfolding resume_series close_pause
resume_series-Leaves r none s f c = Holds-refused (Leaves r s) open_pause_not_found
resume_series-Leaves r (some row) s f c = refuse_if-Holds (Leaves r s) _ _ _ (λ h.
    finish_state-Leaves r s.ended_on s (close_pause row.id r.effective_from s) (same row.id)
      (close_pause-IsSound row r.effective_from s f (ground arith) c))
  where
    same : (id : ℕ) → (close_pause id r.effective_from s).occurrences ≡ s.occurrences
    same id = refl

act-Leaves :
    (today : ℕ) (r : StateRequest) (action : SeriesAction) (s : SeriesRows)
    → IsSound s
    → Holds (Leaves r s) (act today r action s)
unfolding act insert_pause end_series
act-Leaves today r pause s c = refuse_if-Holds (Leaves r s) _ _ _ (λ ordered.
    refuse_if-Holds (Leaves r s) _ _ _ (λ _. refuse_if-Holds (Leaves r s) _ _ _ (λ free.
      finish_state-Leaves r s.ended_on s (insert_pause today r.effective_from r.resume_on s) refl
        (insert_pause-IsSound today r.effective_from r.resume_on s ordered free c))))
act-Leaves today r resume s c =
    resume_series-Leaves r (open_pause s.pauses) s (open_pause-Found s.pauses) c
act-Leaves today r end s c = refuse_if-Holds (Leaves r s) _ _ _ (λ _.
    finish_state-Leaves r s.ended_on s (end_series r.effective_from s) refl
      (record { apart = c.apart; fresh = c.fresh; ordered = c.ordered; has_status = tt }))

set_at-Leaves :
    (today : Option ℕ) (r : StateRequest) (s : SeriesRows)
    → IsSound s
    → Holds (Leaves r s) (set_at today r s)
unfolding set_at set_state
set_at-Leaves none r s c = Holds-refused (Leaves r s) location_not_found
set_at-Leaves (some today) r s c = refuse_if-Holds (Leaves r s) _ _ _ (λ _.
    refuse_if-Holds (Leaves r s) _ _ _ (λ _.
      refuse_if-Holds (Leaves r s) _ _ _
        (λ _. refuse_if-Holds (Leaves r s) _ _ _ (λ _. act-Leaves today r r.action s c))))

if-Holds :
    (P : SeriesRows → Type 0) (b : Bool) (o : StateOutcome)
    → Holds P o
    → Holds P (if b then o else no_series)
unfolding Holds
if-Holds P true o h = h
if-Holds P false o h = tt

-- If the rows of a series are sound (no two pauses share a day or an id, none ends before it begins,
-- each id was given out, and the status is `ended` just if there is an end) and a pause, a resumption
-- or an end succeeds, then the new rows are sound, and of the occurrences exactly those before the
-- effective day are left.
pub set_recurring_expense_series_state-IsSound :
    (today : Option ℕ) (r : StateRequest) (s t : SeriesRows) (v : SeriesChange)
    → set_recurring_expense_series_state today r (some s) ≡ changed t v
    → IsSound s
    → IsSound t
      × (t.occurrences
          ≡ filter (λ row. not (is_from r.effective_from row.scheduled_date)) s.occurrences)
unfolding set_recurring_expense_series_state Holds
set_recurring_expense_series_state-IsSound today r s t v e c = subst (Holds (Leaves r s)) e (
    if-Holds (Leaves r s) (s.location_id == r.location_id) (set_at today r s)
      (set_at-Leaves today r s c))
