-- ===== src/Availability/First.antt =====
-- About `findFirstAvailableDate` (client/src/lib/availability.ts).
use barber_bookings.Common.{
  ℕ, zero, suc, ◌+◌, ◌≤◌, ◌<◌, inl, inr, Bool, true, false, some, ◌≡◌, refl, sym, ap, ◌∙◌, arith,
  ltb, ltb→lt, any, Bool-cases,
}
use barber_bookings.Calendar.{civil}
use barber_bookings.Availability.Slots.{
  AvailabilityInput, find_first_available_date, first_available_from, get_available_time_slots,
  is_available,
}

-- Some slot of day number `day` is available.
abbrev pub has_free_slot : AvailabilityInput → ℕ → Bool
has_free_slot input day = any is_available (get_available_time_slots input (some (civil day)))

-- The first day from `start` on with an available slot, no later than `limit`.
abbrev pub IsFirstFree : AvailabilityInput → ℕ → ℕ → ℕ → Type 0
IsFirstFree input start limit day =
    (start ≤ day)
    × (day ≤ limit)
    × (has_free_slot input day ≡ true)
    × ((e : ℕ) → start ≤ e → e < day → has_free_slot input e ≡ false)

clash : (b : Bool) → b ≡ false → b ≡ true → ⊥
clash b e f = ground arith

-- A day without a free slot is not the later one that has one.
after :
    (input : AvailabilityInput) (start limit : ℕ)
    → has_free_slot input start ≡ false
    → has_free_slot input limit ≡ true
    → start ≤ limit
    → start + 1 ≤ limit
after input start limit closed free le = elim (Bool-cases (ltb start limit)) [
  | inl t ↦ omega (arith, ltb→lt start limit t)
  | inr f ↦
      let same : start ≡ limit = ground arith in
      absurd (clash (has_free_slot input limit) (sym (ap (has_free_slot input) same) ∙ closed) free)
]

none_earlier :
    (input : AvailabilityInput) (start day : ℕ)
    → has_free_slot input start ≡ false
    → ((e : ℕ) → start + 1 ≤ e → e < day → has_free_slot input e ≡ false)
    → (e : ℕ) → start ≤ e
    → e < day
    → has_free_slot input e ≡ false
none_earlier input start day closed rest e p q = elim (Bool-cases (ltb start e)) [
  | inl t ↦ rest e (omega (arith, ltb→lt start e t)) q
  | inr f ↦ let same : e ≡ start = ground arith in ap (has_free_slot input) same ∙ closed
]

first_available_from-IsFirstFree :
    (input : AvailabilityInput) (fuel start end limit : ℕ)
    → end < start + fuel
    → start ≤ limit
    → limit ≤ end
    → has_free_slot input limit ≡ true
    → (day : ℕ) × (first_available_from input fuel start end ≡ some day)
      × IsFirstFree input start limit day
unfolding first_available_from
first_available_from-IsFirstFree input zero start end limit f low high h = absurd (omega arith)
first_available_from-IsFirstFree input (suc fuel) start end limit f low high h =
    let going : ltb end start ≡ false = ground arith in
    elim (Bool-cases (has_free_slot input start)) [
      | inl t ↦
          (start, rw (going, t) refl, (omega arith, low, t, λ e p q. absurd (omega (arith, p, q))))
      | inr closed ↦
          let further : start + 1 ≤ limit = after input start limit closed h low in
          let (day, found, (from, to, free, first)) =
            first_available_from-IsFirstFree input fuel (start + 1) end limit (omega arith) further
              high h in
          (
            day,
            rw (going, closed) found,
            (
              omega (arith, from),
              to,
              free,
              λ e p q. none_earlier input start day closed first e p q,
            ),
          )
    ]

-- The search succeeds when it can: if some day of the range has an available slot, a day is found, and it
-- is the first day of the range with an available slot. The rounds of the loop are enough for that.
pub find_first_available_date-IsFirstFree :
    (input : AvailabilityInput) (start end limit : ℕ)
    → start ≤ limit
    → limit ≤ end
    → has_free_slot input limit ≡ true
    → (day : ℕ) × (find_first_available_date input start end ≡ some day)
      × IsFirstFree input start limit day
unfolding find_first_available_date
find_first_available_date-IsFirstFree input start end limit low high h =
    first_available_from-IsFirstFree input (end + 1) start end limit (omega arith) low high h
