-- ===== src/Expenses/SeriesState/Disjoint.antt =====
-- About `setRecurringExpenseSeriesState` (server/recurring-expenses.ts) and the constraints of the rows.
use barber_bookings.Common.{
  ℕ, ◌<◌, ◌≤◌, Bool, true, false, ◌&&◌, List, Option, none, some, leb, ◌≡◌, ◌≢◌, refl, sym, ◌∙◌,
  inl, inr, arith, any, All, All-append, All-map, Bool-cases,
}
use mathlib.Core.Bool.{false≢true}
use barber_bookings.Common.Member.{In, All-In, In-All, any_of_In}
use barber_bookings.Storage.Table.{Pairwise, Pairwise-push}
use barber_bookings.Expenses.{RecurringExpensePause, is_before}
use barber_bookings.Expenses.SeriesState.{
  SeriesStatus, ended, PauseRow, SeriesRows, StateError, StateOutcome, no_series, refused, changed,
  refuse_if, is_by, status_of, is_open_or_after, pause_overlaps, insert_pause,
}

abbrev pub covers : ℕ → RecurringExpensePause → Bool
covers d p = leb p.paused_from d && is_before d p.resumed_on

-- Rows with ids of their own and no day in common.
abbrev pub Apart : PauseRow → PauseRow → Type 0
Apart x y = (x.id ≢ y.id) × ((d : ℕ) → covers d x.range ≡ true → covers d y.range ≡ true → ⊥)

-- A pause does not end before it begins.
abbrev pub IsOrdered : ℕ → Option ℕ → Type 0
IsOrdered from none = Unit
IsOrdered from (some until) = from ≤ until

-- The status is `ended` just if there is an end.
abbrev pub HasStatus : SeriesStatus → Option ℕ → Type 0
HasStatus ended (some d) = Unit
HasStatus ended none = ⊥
HasStatus _ (some d) = ⊥
HasStatus _ none = Unit

pub record IsSound (s : SeriesRows) : Type 0 where
  pub apart : Pairwise Apart s.pauses
  pub fresh : All (λ row. row.id < s.next_pause) s.pauses
  pub ordered : All (λ row. IsOrdered row.range.paused_from row.range.resumed_on) s.pauses
  pub has_status : HasStatus s.status s.ended_on

unfoldable pub Holds : (SeriesRows → Type 0) → StateOutcome → Type 0
Holds P no_series = Unit
Holds P (refused e) = Unit
Holds P (changed t v) = P t

pub refuse_if-Holds :
    (P : SeriesRows → Type 0) (b : Bool) (e : StateError) (o : StateOutcome)
    → (b ≡ false → Holds P o)
    → Holds P (refuse_if b e o)
unfolding refuse_if Holds
refuse_if-Holds P true e o h = tt
refuse_if-Holds P false e o h = h refl

no_common_day :
    (from begin d : ℕ) (until resumed : Option ℕ)
    → (is_open_or_after begin until && is_open_or_after from resumed) ≡ false
    → (leb begin d && is_before d resumed) ≡ true
    → (leb from d && is_before d until) ≡ true
    → ⊥
no_common_day from begin d none none free a b = ground arith
no_common_day from begin d none (some r) free a b = ground arith
no_common_day from begin d (some u) none free a b = ground arith
no_common_day from begin d (some u) (some r) free a b = ground arith

none_overlaps :
    (from : ℕ) (until : Option ℕ) (rows : List PauseRow) (row : PauseRow)
    → any (λ row. pause_overlaps from until row.range) rows ≡ false
    → In row rows
    → pause_overlaps from until row.range ≡ false
none_overlaps from until rows row free m = elim (Bool-cases (pause_overlaps from until row.range)) [
  | inr e ↦ e
  | inl e ↦
      absurd (
        false≢true (sym free ∙ any_of_In (λ row. pause_overlaps from until row.range) row rows m e))
]

not_by-IsOrdered : (from : ℕ) (until : Option ℕ) → is_by from until ≡ false → IsOrdered from until
not_by-IsOrdered from none h = tt
not_by-IsOrdered from (some u) h = ground arith

pub status_of-HasStatus : (last : Option ℕ) (b : Bool) → HasStatus (status_of last b) last
status_of-HasStatus (some d) b = tt
status_of-HasStatus none true = tt
status_of-HasStatus none false = tt

pub insert_pause-IsSound :
    (today from : ℕ) (until : Option ℕ) (s : SeriesRows)
    → is_by from until ≡ false
    → any (λ row. pause_overlaps from until row.range) s.pauses ≡ false
    → IsSound s
    → IsSound (insert_pause today from until s)
unfolding insert_pause pause_overlaps
insert_pause-IsSound today from until s ordered free c = record {
  apart = Pairwise-push Apart s.pauses _ c.apart (
      All-In _ s.pauses (λ row m. (
        (λ e. below row.id (In-All (λ r. r.id < s.next_pause) row s.pauses c.fresh m) e),
        λ d.
            no_common_day from row.range.paused_from d until row.range.resumed_on
              (none_overlaps from until s.pauses row free m),
      )));
  fresh = All-append _ s.pauses _ (All-map (λ r h. omega arith) s.pauses c.fresh) (omega arith, tt);
  ordered = All-append _ s.pauses _ c.ordered (not_by-IsOrdered from until ordered, tt);
  has_status = status_of-HasStatus s.ended_on _;
}
  where
    below : (id : ℕ) → id < s.next_pause → id ≡ s.next_pause → ⊥
    below id h e = omega arith
