-- ===== src/Expenses/SeriesState/Closing.antt =====
-- About a resumption by `setRecurringExpenseSeriesState` (server/recurring-expenses.ts): the open pause
-- is found, and its row alone is cut off.
use barber_bookings.Common.{
  ℕ, ◌<◌, ◌≤◌, Bool, true, false, List, [], ◌∷◌, map, Option, none, some, ltb, ◌==◌, ◌≡◌, refl, sym,
  ap, ◌∙◌, inl, inr, arith, is_some, All, All-map, Bool-cases, ==_iff, if◌then◌else◌,
}
use std.Path.{subst}
use barber_bookings.Common.Member.{In, In-All}
use barber_bookings.Storage.Table.{Pairwise}
use barber_bookings.Expenses.{RecurringExpensePause}
use barber_bookings.Expenses.SeriesState.{
  PauseRow, SeriesRows, later_pause, open_pause, close_row, close_pause,
}
use barber_bookings.Expenses.SeriesState.Disjoint.{
  covers, Apart, IsOrdered, IsSound, status_of-HasStatus,
}

abbrev pub IsOpen : PauseRow → Type 0
IsOpen row = row.range.resumed_on ≡ none

abbrev pub Found : List PauseRow → Option PauseRow → Type 0
Found rows none = Unit
Found rows (some row) = In row rows × IsOpen row

not_some : (o : Option ℕ) → is_some o ≡ false → o ≡ none
not_some none h = refl
not_some (some d) h = ground arith

Found-behind :
    (x : PauseRow) (rows : List PauseRow) (o : Option PauseRow) → Found rows o → Found (x ∷ rows) o
Found-behind x rows none h = tt
Found-behind x rows (some row) (m, e) = (inr m, e)

Found-if :
    (b : Bool) (x y : PauseRow) (rows : List PauseRow)
    → Found rows (some x)
    → Found rows (some y)
    → Found rows (some (if b then x else y))
Found-if true x y rows h k = h
Found-if false x y rows h k = k

later_pause-Found :
    (x : PauseRow) (rows : List PauseRow) (o : Option PauseRow)
    → IsOpen x
    → Found rows o
    → Found (x ∷ rows) (some (later_pause x o))
unfolding later_pause
later_pause-Found x rows none e h = (inl refl, e)
later_pause-Found x rows (some other) e (m, f) =
    Found-if (ltb x.range.paused_from other.range.paused_from) other x (x ∷ rows) (inr m, f)
      (inl refl, e)

pub open_pause-Found : (rows : List PauseRow) → Found rows (open_pause rows)
unfolding open_pause
open_pause-Found [] = tt
open_pause-Found (x ∷ rows) = elim (Bool-cases (is_some x.range.resumed_on)) [
  | inl t ↦ rw (t, Found) (Found-behind x rows (open_pause rows) (open_pause-Found rows))
  | inr t ↦
      rw (t, Found)
        (later_pause-Found x rows (open_pause rows) (not_some _ t) (open_pause-Found rows))
]

-- A row with the id of another is that row.
only_row :
    (P : PauseRow → Type 0) (row : PauseRow) (rows : List PauseRow)
    → Pairwise Apart rows
    → In row rows
    → P row
    → All (λ r. r.id ≡ row.id → P r) rows
only_row P row [] h m e = tt
only_row P row (x ∷ rows) h (inl same) e = (
  λ _. subst P same e,
  All-map (λ r a f. absurd (a.0 (sym (ap (λ p. p.id) same) ∙ sym f))) rows h.0,
)
only_row P row (x ∷ rows) h (inr m) e =
    (λ f. absurd ((In-All (Apart x) row rows h.0 m).0 f), only_row P row rows h.1 m e)

module _ (id day : ℕ) where
  close_row_id : (row : PauseRow) → (close_row id day row).id ≡ row.id
  unfolding close_row
  close_row_id row = ground arith

  -- A row that is cut off at a day covers no day that it did not.
  close_row-covers :
      (row : PauseRow) (d : ℕ)
      → (row.id ≡ id → IsOpen row)
      → covers d (close_row id day row).range ≡ true
      → covers d row.range ≡ true
  unfolding close_row
  close_row-covers row d opens h = elim (Bool-cases (row.id == id)) [
    | inr e ↦ sym (ap (λ b. covers d (if b then closed else row).range) e) ∙ h
    | inl e ↦
        covers_open row.range (opens ((==_iff row.id id).0 e))
          (sym (ap (λ b. covers d (if b then closed else row).range) e) ∙ h)
  ]
    where
      closed : PauseRow
      closed = record row { range = record row.range { resumed_on = some day } }

      covers_open :
          (p : RecurringExpensePause)
          → p.resumed_on ≡ none
          → covers d (record p { resumed_on = some day }) ≡ true
          → covers d p ≡ true
      covers_open p f k = rw (f, covers) (ground arith)

  All-close :
      (x : PauseRow) (rows : List PauseRow)
      → (x.id ≡ id → IsOpen x)
      → All (λ r. r.id ≡ id → IsOpen r) rows
      → All (Apart x) rows
      → All (Apart (close_row id day x)) (map (close_row id day) rows)
  All-close x [] f fs h = tt
  All-close x (y ∷ rows) f fs h = (
    (
      λ e. h.0.0 (sym (close_row_id x) ∙ e ∙ close_row_id y),
      λ d a b. h.0.1 d (close_row-covers x d f a) (close_row-covers y d fs.0 b),
    ),
    All-close x rows f fs.1 h.1,
  )

  Pairwise-close :
      (rows : List PauseRow)
      → All (λ r. r.id ≡ id → IsOpen r) rows
      → Pairwise Apart rows
      → Pairwise Apart (map (close_row id day) rows)
  Pairwise-close [] fs h = tt
  Pairwise-close (x ∷ rows) fs h = (All-close x rows fs.0 fs.1 h.0, Pairwise-close rows fs.1 h.1)

  close_row-IsOrdered :
      (row : PauseRow)
      → (row.id ≡ id → row.range.paused_from ≤ day)
      → IsOrdered row.range.paused_from row.range.resumed_on
      → IsOrdered (close_row id day row).range.paused_from (close_row id day row).range.resumed_on
  unfolding close_row
  close_row-IsOrdered row f h = ordered_if (row.id == id) row (λ e. f ((==_iff row.id id).0 e)) h
    where
      closed : PauseRow → PauseRow
      closed row = record row { range = record row.range { resumed_on = some day } }

      ordered_if :
          (b : Bool) (row : PauseRow)
          → (b ≡ true → row.range.paused_from ≤ day)
          → IsOrdered row.range.paused_from row.range.resumed_on
          → (let r = if b then closed row else row in
              IsOrdered r.range.paused_from r.range.resumed_on)
      ordered_if true row f h = f refl
      ordered_if false row f h = h

  All-close_of :
      (n : ℕ) (rows : List PauseRow)
      → All (λ r. r.id ≡ id → r.range.paused_from ≤ day) rows
      → All (λ r. r.id < n) rows
      → All (λ r. IsOrdered r.range.paused_from r.range.resumed_on) rows
      → All (λ r. r.id < n) (map (close_row id day) rows)
        × All (λ r. IsOrdered r.range.paused_from r.range.resumed_on) (map (close_row id day) rows)
  All-close_of n [] f h k = (tt, tt)
  All-close_of n (x ∷ rows) f h k =
      let rest = All-close_of n rows f.1 h.1 k.1 in
      ((rw (close_row_id x) h.0, rest.0), (close_row-IsOrdered x f.0 k.0, rest.1))

pub close_pause-IsSound :
    (row : PauseRow) (day : ℕ) (s : SeriesRows)
    → Found s.pauses (some row)
    → row.range.paused_from ≤ day
    → IsSound s
    → IsSound (close_pause row.id day s)
unfolding close_pause
close_pause-IsSound row day s (m, e) le c = record {
  apart = Pairwise-close row.id day s.pauses (only_row IsOpen row s.pauses c.apart m e) c.apart;
  fresh = rows.0;
  ordered = rows.1;
  has_status = status_of-HasStatus s.ended_on false;
}
  where
    rows :
        All (λ r. r.id < s.next_pause) (map (close_row row.id day) s.pauses)
        × All
            (λ r. IsOrdered r.range.paused_from r.range.resumed_on)
            (map (close_row row.id day) s.pauses)
    rows =
        All-close_of row.id day s.next_pause s.pauses
          (only_row (λ r. r.range.paused_from ≤ day) row s.pauses c.apart m le) c.fresh c.ordered
