-- ===== src/Storage/History.antt =====
-- What stays true of a row over any calls of the storage's methods (server/storage.ts). A row is the
-- first of the table with its id.
pub mod Steps
pub mod Notified
pub mod Runs
use barber_bookings.Common.{
  ℕ, String, Bool, true, false, List, [], ◌∷◌, ◌++◌, map, Option, none, some, ◌≡◌, refl, sym, ap,
  ◌∙◌, inl, inr, arith, Bool-cases, Option-cases, find?, if◌then◌else◌, ◌==◌, ==_iff,
}
use barber_bookings.Schema.{Appointment, CompensationSnapshot, Instant}
use barber_bookings.Storage.State.{
  MemoryStorage, Action, Run, finished, threw, after, ◌>>◌, has_id, has_text, replace_appointment,
  bump_series,
}
use barber_bookings.Storage.Table.{Prefix}
use barber_bookings.Storage.Invariant.{EndsIn}
use barber_bookings.Storage.Patch.{Patch, apply_patch}
use barber_bookings.Storage.Change.{
  called_off, moved, on_row, store_row, with_compensation, write_checked,
}
use barber_bookings.Storage.Service.{detach, detach_if}
use barber_bookings.Storage.Updating.Rows.{found_id, write_checked-cases, written}

-- A search by id finds the row that took the place.
pub find-replace :
    (id : ℕ) (u current : Appointment) (xs : List Appointment)
    → u.id ≡ id
    → find? (has_id id) xs ≡ some current
    → find? (has_id id) (replace_appointment id u xs) ≡ some u
unfolding replace_appointment
find-replace id u current [] e h = ground arith
find-replace id u current (x ∷ xs) e h = elim (Bool-cases (x.id == id)) [
  | inl same ↦ rw (same, replace_appointment) (rw ((==_iff u.id id).1 e) refl)
  | inr other ↦
      rw (other, replace_appointment) (rw other (find-replace id u current xs e (rw other at h)))
]

-- A search by another id finds what it found.
find-replace_other :
    (id k : ℕ) (u : Appointment) (xs : List Appointment)
    → u.id ≡ k
    → (k == id) ≡ false
    → find? (has_id id) (replace_appointment k u xs) ≡ find? (has_id id) xs
unfolding replace_appointment
find-replace_other id k u [] e ne = refl
find-replace_other id k u (x ∷ xs) e ne = elim (Bool-cases (x.id == k)) [
  | inl same ↦
      rw (same, replace_appointment)
        (passed u x (ap (λ n. n == id) e ∙ ne) (ap (λ n. n == id) ((==_iff x.id k).0 same) ∙ ne))
  | inr other ↦
      rw (other, replace_appointment)
        (ap (λ t. if x.id == id then some x else t) (find-replace_other id k u xs e ne))
]
  where
    passed :
        (a b : Appointment)
        → (a.id == id) ≡ false
        → (b.id == id) ≡ false
        → (if a.id == id then some a else find? (has_id id) xs)
          ≡ (if b.id == id then some b else find? (has_id id) xs)
    passed a b p q = rw (p, q) refl

find-append :
    (p : Appointment → Bool) (xs ys : List Appointment) (a : Appointment)
    → find? p xs ≡ some a
    → find? p (xs ++ ys) ≡ some a
find-append p [] ys a h = ground arith
find-append p (x ∷ xs) ys a h = elim (Bool-cases (p x)) [
  | inl found ↦ rw found (rw found at h)
  | inr other ↦ rw other (find-append p xs ys a (rw other at h))
]

find-detach :
    (id service : ℕ) (xs : List Appointment) (a : Appointment)
    → find? (has_id id) xs ≡ some a
    → find? (has_id id) (map (detach service) xs) ≡ some (detach service a)
find-detach id service [] a h = ground arith
find-detach id service (x ∷ xs) a h = elim (Bool-cases (x.id == id)) [
  | inl found ↦ rw (detach_id x ∙ found) (ap (λ o. detached o) (rw found at h))
  | inr other ↦ rw (detach_id x ∙ other) (find-detach id service xs a (rw other at h))
]
  where
    by_case : (b : Bool) (y : Appointment) → ((detach_if b y).id == id) ≡ (y.id == id)
    by_case true y = refl
    by_case false y = refl

    detach_id : (y : Appointment) → ((detach service y).id == id) ≡ (y.id == id)
    detach_id y = by_case _ y

    detached : Option Appointment → Option Appointment
    detached none = none
    detached (some y) = some (detach service y)

pub bump_series-appointments :
    (now : Instant) (id : Option String) (s : MemoryStorage)
    → (bump_series now id s).appointments ≡ s.appointments
bump_series-appointments now none s = refl
bump_series-appointments now (some id) s = if-same (has_text (some id)) _ s refl
  where
    if-same :
        (b : Bool) (t u : MemoryStorage)
        → t.appointments ≡ u.appointments
        → (if b then t else u).appointments ≡ u.appointments
    if-same true t u e = e
    if-same false t u e = refl

-- What the methods do to a row, but for its patches, leaves `P` true of it.
pub record Lasts (P : Appointment → Type 0) : Type 0 where
  pub move : (start : Instant) (a : Appointment) → P a → P (moved start a)
  pub call_off : (now : Instant) (late : Bool) (a : Appointment) → P a → P (called_off now late a)
  pub detach : (b : Bool) (a : Appointment) → P a → P (detach_if b a)
  pub compensate :
      (c : CompensationSnapshot) (a : Appointment) → P a → P (record a { compensation = c })
  pub revise : (n : ℕ) (a : Appointment) → P a → P (record a { notification_revision = n })

module _ (id : ℕ) (P : Appointment → Type 0) where
  abbrev pub HoldsIn : List Appointment → Type 0
  HoldsIn xs = (a : Appointment) × ((find? (has_id id) xs ≡ some a) × P a)

  -- The row with the id has `P`.
  abbrev pub Holds : MemoryStorage → Type 0
  Holds s = HoldsIn s.appointments

  -- The patch of a row leaves `P` true of the row with the id.
  abbrev pub Permits : ℕ → Patch → Type 0
  Permits k p = k ≡ id → (a : Appointment) → P a → P (apply_patch p a)

  pub Holds-same : (xs ys : List Appointment) → ys ≡ xs → HoldsIn xs → HoldsIn ys
  Holds-same xs ys e (a, (found, p)) = (a, (ap (find? (has_id id)) e ∙ found, p))

  pub Holds-of_Prefix :
      (s t : MemoryStorage) → Prefix s.appointments t.appointments → Holds s → Holds t
  Holds-of_Prefix s t (added, e) (a, (found, p)) =
      (a, (ap (find? (has_id id)) e ∙ find-append (has_id id) s.appointments added a found, p))

  pub Holds-store :
      (current u : Appointment) (s : MemoryStorage)
      → find? (has_id current.id) s.appointments ≡ some current
      → u.id ≡ current.id
      → (current.id ≡ id → P current → P u)
      → Holds s
      → Holds (store_row current.id u s)
  Holds-store current u s found e keep (a, (at, p)) = elim (Bool-cases (current.id == id)) [
    | inr other ↦ (a, (find-replace_other id current.id u s.appointments e other ∙ at, p))
    | inl same ↦ own ((==_iff current.id id).0 same)
  ]
    where
      some_inj : (x y : Appointment) → some x ≡ some y → x ≡ y
      some_inj x y q = cc

      own : current.id ≡ id → Holds (store_row current.id u s)
      own same =
          let row : a ≡ current =
            some_inj a current
              (sym at ∙ ap (λ k. find? (has_id k) s.appointments) (sym same) ∙ found) in
          (
            u,
            (
              ap (λ k. find? (has_id k) (replace_appointment current.id u s.appointments))
                    (sym same)
                  ∙ find-replace current.id u current s.appointments e found,
              keep same (rw row at (p)),
            ),
          )

  pub Holds-detach :
      (service : ℕ) (s : MemoryStorage)
      → Lasts P
      → Holds s
      → Holds (record s { appointments = map (detach service) s.appointments })
  Holds-detach service s l (a, (found, p)) =
      (detach service a, (find-detach id service s.appointments a found, l.detach _ a p))

  pub Holds-written :
      (now : Instant) (current u : Appointment) (s : MemoryStorage)
      → find? (has_id current.id) s.appointments ≡ some current
      → u.id ≡ current.id
      → (current.id ≡ id → P current → P u)
      → Holds s
      → Holds (written now current u s)
  Holds-written now current u s found e keep h =
      Holds-same (store_row current.id u s).appointments (written now current u s).appointments
        (bump_series-appointments now current.series_id (store_row current.id u s))
        (Holds-store current u s found e keep h)

  -- A method that looks a row up.
  pub on_row-Holds :
      {A : Type 0} (k : ℕ) (go : Appointment → Action (Option A)) (s : MemoryStorage)
      → Holds s
      → ((current : Appointment)
          → current.id ≡ k
          → find? (has_id current.id) s.appointments ≡ some current
          → EndsIn Holds (go current s))
      → EndsIn Holds (on_row k go s)
  on_row-Holds k go s h next = elim (Option-cases (find? (has_id k) s.appointments)) [
    | inl missing ↦ rw (missing, EndsIn) h
    | inr (current, found) ↦
        let same : current.id ≡ k = found_id k s.appointments current found in
        rw (found, EndsIn)
          (next current same (ap (λ n. find? (has_id n) s.appointments) same ∙ found))
  ]

  pub checked-Holds :
      {A : Type 0} (now : Instant) (current u : Appointment) (k : Action A) (s : MemoryStorage)
      → Holds s
      → find? (has_id current.id) s.appointments ≡ some current
      → u.id ≡ current.id
      → (current.id ≡ id → P current → P u)
      → (Holds (written now current u s) → EndsIn Holds (k (written now current u s)))
      → EndsIn Holds ((write_checked now current u >> k) s)
  checked-Holds now current u k s h found e keep rest = elim (write_checked-cases now current u s) [
    | inl refused ↦ rw (refused, EndsIn, ◌>>◌) h
    | inr (passed, apart) ↦
        rw (passed, EndsIn, ◌>>◌) (rest (Holds-written now current u s found e keep h))
  ]

  pub with_compensation-Lasts :
      Lasts P
      → (s : MemoryStorage) (current u : Appointment) → P u
      → P (with_compensation s current u)
  with_compensation-Lasts l s current u p = if-P _ _ u (l.compensate _ u p) p
    where
      if-P : (b : Bool) (x y : Appointment) → P x → P y → P (if b then x else y)
      if-P true x y q r = q
      if-P false x y q r = r
