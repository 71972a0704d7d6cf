-- ===== src/Storage/Updating/Rows.antt =====
-- A change of one row (server/storage.ts) and the invariant of the tables.
use barber_bookings.Common.{
  ℕ, String, Bool, false, List, [], ◌∷◌, Option, none, some, ◌≡◌, ◌≢◌, refl, sym, ap, ◌∙◌, ◌⊎◌,
  ◌==◌, arith, inl, inr, All, All-map, Bool-cases, Option-cases, find?, ==_iff,
}
use barber_bookings.Common.Sort.{In-find?}
use barber_bookings.Schema.{Appointment, Instant}
use barber_bookings.Storage.State.{
  MemoryStorage, Action, Run, finished, threw, ◌>>◌, after, has_id, bump_series, has_text,
  appointment_conflict,
}
use barber_bookings.Storage.Conflict.{Compatible, assert_no_appointment_conflict}
use barber_bookings.Storage.Table.{All-replace, Pairwise-replace}
use barber_bookings.Storage.Invariant.{IsConsistent, assert-cases}
use barber_bookings.Storage.Patch.{Patch, apply_patch}
use barber_bookings.Storage.Change.{with_compensation, store_row, on_row, write_checked, write_row}

-- What a method that changes one row promises: consistency is kept, and a throw changes nothing.
abbrev pub Keeps : {A : Type 0} → MemoryStorage → Run A → Type 0
Keeps s (finished a t) = IsConsistent s → IsConsistent t
Keeps s (threw e t) = t ≡ s

pub find?-All :
    {A : Type 0} (P : A → Type 0) (p : A → Bool) (xs : List A) {a : A}
    → find? p xs ≡ some a
    → All P xs
    → P a
find?-All P p [] e h = ground arith
find?-All P p (x ∷ xs) {a} e h = elim (Bool-cases (p x)) [
  | inl yes_it ↦ let same : x ≡ a = ground arith in rw same at (h.0)
  | inr no_it ↦ find?-All P p xs (ground arith) h.1
]

-- The row that a search by id finds.
pub found_id :
    (id : ℕ) (xs : List Appointment) (a : Appointment) → find? (has_id id) xs ≡ some a → a.id ≡ id
found_id id xs a e = (==_iff a.id id).0 (In-find? (has_id id) a xs e).1

pub store_row-IsConsistent :
    (id : ℕ) (current u : Appointment) (s : MemoryStorage)
    → find? (has_id id) s.appointments ≡ some current
    → u.id ≡ id
    → All (λ b. b.id ≢ id → Compatible u b) s.appointments
    → IsConsistent s
    → IsConsistent (store_row id u s)
store_row-IsConsistent id current u s found e apart c = record {
  fresh =
      All-replace _ id u s.appointments
        (omega (
          arith,
          find?-All _ _ s.appointments found c.fresh,
          found_id id s.appointments current found,
        ))
        c.fresh;
  separate =
      Pairwise-replace id u s.appointments
        (All-map (λ b h ne. ((λ q. ne (sym q ∙ e)), h ne)) _ apart) c.separate;
  extras_owned = c.extras_owned;
  events_fresh = c.events_fresh;
  events_distinct = c.events_distinct;
}

pub bump_series-IsConsistent :
    (now : Instant) (id : Option String) (s : MemoryStorage)
    → IsConsistent s
    → IsConsistent (bump_series now id s)
bump_series-IsConsistent now none s c = c
bump_series-IsConsistent now (some id) s c = elim (Bool-cases (has_text (some id))) [
  | inr e ↦ rw e c
  | inl e ↦ rw e (record {
    fresh = c.fresh;
    separate = c.separate;
    extras_owned = c.extras_owned;
    events_fresh = c.events_fresh;
    events_distinct = c.events_distinct;
  })
]

-- The state after the row is written.
abbrev pub written : Instant → Appointment → Appointment → MemoryStorage → MemoryStorage
written now current u s = bump_series now current.series_id (store_row current.id u s)

pub other_id : (id b : ℕ) → b ≢ id → (b == id) ≡ false
other_id id b ne = ground arith

-- The write either refuses and changes nothing, or puts a compatible row in its place.
pub write_checked-cases :
    (now : Instant) (current u : Appointment) (s : MemoryStorage)
    → (write_checked now current u s ≡ threw appointment_conflict s)
      ⊎ ((write_checked now current u s ≡ finished tt (written now current u s))
          × All (λ b. b.id ≢ current.id → Compatible u b) s.appointments)
unfolding write_checked
write_checked-cases now current u s = elim (assert-cases u (some current.id) s) [
  | inl refused ↦ inl (next refused)
  | inr (passed, apart) ↦
      inr (next passed, All-map (λ b f ne. f (other_id current.id b.id ne)) _ apart)
]
  where
    next :
        {r : Run Unit}
        → assert_no_appointment_conflict u (some current.id) s ≡ r
        → write_checked now current u s ≡ after r (λ _. write_row now current u)
    next e = ap (λ r. after r (λ _. write_row now current u)) e

pub written-IsConsistent :
    (now : Instant) (id : ℕ) (current u : Appointment) (s : MemoryStorage)
    → find? (has_id id) s.appointments ≡ some current
    → u.id ≡ current.id
    → All (λ b. b.id ≢ current.id → Compatible u b) s.appointments
    → IsConsistent s
    → IsConsistent (written now current u s)
written-IsConsistent now id current u s found e apart c =
    bump_series-IsConsistent now current.series_id (store_row current.id u s) (
      store_row-IsConsistent current.id current u s
        (ap (λ k. find? (has_id k) s.appointments) same ∙ found) e apart c)
  where
    same : current.id ≡ id
    same = found_id id s.appointments current found

pub on_row-Keeps :
    {A : Type 0} (id : ℕ) (k : Appointment → Action (Option A)) (s : MemoryStorage)
    → ((current : Appointment)
        → find? (has_id id) s.appointments ≡ some current
        → Keeps s (k current s))
    → Keeps s (on_row id k s)
on_row-Keeps id k s h = elim (Option-cases (find? (has_id id) s.appointments)) [
  | inl missing ↦ rw (missing, Keeps) (λ c. c)
  | inr (current, found) ↦ rw (found, Keeps) (h current found)
]

-- A method that checks, writes and goes on without a throw.
pub checked-Keeps :
    {A : Type 0} (now : Instant) (id : ℕ) (current u : Appointment) (k : Action A)
    (s : MemoryStorage)
    → find? (has_id id) s.appointments ≡ some current
    → u.id ≡ current.id
    → ((IsConsistent s → IsConsistent (written now current u s))
        → Keeps s (k (written now current u s)))
    → Keeps s ((write_checked now current u >> k) s)
checked-Keeps now id current u k s found e rest = elim (write_checked-cases now current u s) [
  | inl refused ↦ rw (refused, Keeps, ◌>>◌) refl
  | inr (passed, apart) ↦
      rw (passed, Keeps, ◌>>◌) (rest (written-IsConsistent now id current u s found e apart))
]

pub with_compensation_id :
    (s : MemoryStorage) (current u : Appointment) → (with_compensation s current u).id ≡ u.id
with_compensation_id s current u = ground arith

pub apply_patch_id : (p : Patch) (a : Appointment) → (apply_patch p a).id ≡ a.id
unfolding apply_patch
apply_patch_id p a = refl
