-- ===== src/Availability/Starts.antt =====
-- About the start minutes that `getAvailableTimeSlots` collects (client/src/lib/availability.ts).
use barber_bookings.Common.{
  ℕ, ◌+◌, ◌-◌, ◌*◌, ◌/◌, ◌%◌, ◌≤◌, ◌<◌, List, [], ◌∷◌, ◌≡◌, ◌↔◌, ◌⊎◌, inl, inr, refl, arith, leb,
  leb→le, has, Bool-cases,
}
use barber_bookings.Common.Member.{In, In-append, In-append_left, In-append_right}
use barber_bookings.Common.Sort.{In-sort_by, In-sort_by_of}
use barber_bookings.Common.Steps.{steps, steps_complete, steps_sound}
use barber_bookings.Booking.{
  BookingSlotIntervalMinutes, fifteen, thirty, sixty, first_clock_aligned_minute, minutes,
}
use barber_bookings.Availability.{BarberOption, MinutePeriod}
use barber_bookings.Availability.Slots.{Day, add_barbers, add_periods, add_starts, set_add}
use barber_bookings.Availability.Ordered.{In-of_has, start_minutes}

-- The aligned minutes of a period.
abbrev pub IsAlignedIn : BookingSlotIntervalMinutes → ℕ → ℕ → ℕ → Type 0
IsAlignedIn interval start end m = (start ≤ m) × (m % minutes interval ≡ 0) × (m < end)

aligned_steps-IsExact :
    (start end : ℕ) (interval : BookingSlotIntervalMinutes) (m : ℕ)
    → In m (steps end (minutes interval) (first_clock_aligned_minute start interval) end)
      ↔ IsAlignedIn interval start end m
unfolding first_clock_aligned_minute
aligned_steps-IsExact start end fifteen m = (
  (λ i.
      let (k, (e, lt)) = steps_sound end 15 _ end m i in (omega (arith, e), omega (arith, e), lt)),
  λ (from, e, lt).
      steps_complete end 15 _ end ((m - (start + 14) / 15 * 15) / 15) m (omega arith) (omega arith)
        (omega (arith, e, from)) lt,
)
aligned_steps-IsExact start end thirty m = (
  (λ i.
      let (k, (e, lt)) = steps_sound end 30 _ end m i in (omega (arith, e), omega (arith, e), lt)),
  λ (from, e, lt).
      steps_complete end 30 _ end ((m - (start + 29) / 30 * 30) / 30) m (omega arith) (omega arith)
        (omega (arith, e, from)) lt,
)
aligned_steps-IsExact start end sixty m = (
  (λ i.
      let (k, (e, lt)) = steps_sound end 60 _ end m i in (omega (arith, e), omega (arith, e), lt)),
  λ (from, e, lt).
      steps_complete end 60 _ end ((m - (start + 59) / 60 * 60) / 60) m (omega arith) (omega arith)
        (omega (arith, e, from)) lt,
)

In-set_add : (m n : ℕ) (set : List ℕ) → In m (set_add n set) ↔ In m set ⊎ (m ≡ n)
unfolding set_add
In-set_add m n set = elim (Bool-cases (has n set)) [
  | inl t ↦ rw t (inl, λ k. elim k [ inl i ↦ i | inr e ↦ rw e (In-of_has n set t) ])
  | inr f ↦ rw f (
    (λ i. elim (In-append m set (n ∷ []) i) [
      | inl j ↦ inl j
      | inr j ↦ elim j [ inl e ↦ inr e | inr none ↦ absurd none ]
    ]),
    λ k. elim k [
      | inl i ↦ In-append_left m set (n ∷ []) i
      | inr e ↦ In-append_right m set (n ∷ []) (inl e)
    ],
  )
]

In-add_starts :
    (duration end m : ℕ) (ms set : List ℕ)
    → In m (add_starts duration end ms set) ↔ In m set ⊎ (In m ms × (m + duration ≤ end))
unfolding add_starts
In-add_starts duration end m [] set = (inl, λ k. elim k [ inl i ↦ i | inr (j, le) ↦ absurd j ])
In-add_starts duration end m (n ∷ ms) set = elim (Bool-cases (leb (n + duration) end)) [
  | inl t ↦
      let rest = In-add_starts duration end m ms (set_add n set) in
      let one = In-set_add m n set in
      let le = leb→le (n + duration) end t in
      rw t (
        (λ i. elim (rest.0 i) [
          | inl j ↦ elim (one.0 j) [ inl k ↦ inl k | inr e ↦ inr (inl e, omega (arith, e, le)) ]
          | inr (j, le2) ↦ inr (inr j, le2)
        ]),
        λ k. elim k [
          | inl i ↦ rest.1 (inl (one.1 (inl i)))
          | inr (inl e, le2) ↦ rest.1 (inl (one.1 (inr e)))
          | inr (inr j, le2) ↦ rest.1 (inr (j, le2))
        ],
      )
  | inr f ↦
      let rest = In-add_starts duration end m ms set in
      rw f (
        (λ i. elim (rest.0 i) [ inl k ↦ inl k | inr (j, le2) ↦ inr (inr j, le2) ]),
        λ k. elim k [
          | inl i ↦ rest.1 (inl i)
          | inr (inl e, le2) ↦
              let same : n + duration ≤ end = omega (arith, e, le2) in absurd (ground arith)
          | inr (inr j, le2) ↦ rest.1 (inr (j, le2))
        ],
      )
]

-- A period gives the minute as a start of a service of `duration`.
abbrev pub StartsIn : BookingSlotIntervalMinutes → ℕ → ℕ → MinutePeriod → Type 0
StartsIn interval duration m p = IsAlignedIn interval p.start p.end m × (m + duration ≤ p.end)

abbrev pub StartsInSome : BookingSlotIntervalMinutes → ℕ → ℕ → List MinutePeriod → Type 0
StartsInSome interval duration m ps = (p : MinutePeriod) × In p ps × StartsIn interval duration m p

abbrev pub StartsWithSome :
    (BarberOption → List MinutePeriod)
    → BookingSlotIntervalMinutes
    → ℕ
    → ℕ
    → List BarberOption
    → Type 0
StartsWithSome periods interval duration m bs =
    (b : BarberOption) × In b bs × StartsInSome interval duration m (periods b)

In-add_periods :
    (interval : BookingSlotIntervalMinutes) (duration m : ℕ) (ps : List MinutePeriod) (set : List ℕ)
    → In m (add_periods interval duration ps set) ↔ In m set ⊎ StartsInSome interval duration m ps
unfolding add_periods
In-add_periods interval duration m [] set =
    (inl, λ k. elim k [ inl i ↦ i | inr (p, j, s) ↦ absurd j ])
In-add_periods interval duration m (p ∷ ps) set =
    let starts =
      steps p.end (minutes interval) (first_clock_aligned_minute p.start interval) p.end in
    let rest = In-add_periods interval duration m ps (add_starts duration p.end starts set) in
    let one = In-add_starts duration p.end m starts set in
    let exact = aligned_steps-IsExact p.start p.end interval m in
    (
      (λ i. elim (rest.0 i) [
        | inl j ↦ elim (one.0 j) [
          | inl k ↦ inl k
          | inr (k, le) ↦ inr (p, inl refl, (exact.0 k, le))
        ]
        | inr (q, j, s) ↦ inr (q, inr j, s)
      ]),
      λ k. elim k [
        | inl i ↦ rest.1 (inl (one.1 (inl i)))
        | inr (q, inl e, s) ↦
            let here : StartsIn interval duration m p = rw e at s in
            rest.1 (inl (one.1 (inr (exact.1 here.0, here.1))))
        | inr (q, inr j, s) ↦ rest.1 (inr (q, j, s))
      ],
    )

In-add_barbers :
    (periods : BarberOption → List MinutePeriod) (interval : BookingSlotIntervalMinutes)
    (duration m : ℕ) (bs : List BarberOption) (set : List ℕ)
    → In m (add_barbers periods interval duration bs set)
      ↔ In m set ⊎ StartsWithSome periods interval duration m bs
unfolding add_barbers
In-add_barbers periods interval duration m [] set =
    (inl, λ k. elim k [ inl i ↦ i | inr (b, j, s) ↦ absurd j ])
In-add_barbers periods interval duration m (b ∷ bs) set =
    let rest =
      In-add_barbers periods interval duration m bs
        (add_periods interval duration (periods b) set) in
    let one = In-add_periods interval duration m (periods b) set in
    (
      (λ i. elim (rest.0 i) [
        | inl j ↦ elim (one.0 j) [ inl k ↦ inl k | inr s ↦ inr (b, inl refl, s) ]
        | inr (c, j, s) ↦ inr (c, inr j, s)
      ]),
      λ k. elim k [
        | inl i ↦ rest.1 (inl (one.1 (inl i)))
        | inr (c, inl e, s) ↦ rest.1 (inl (one.1 (inr (rw e at s))))
        | inr (c, inr j, s) ↦ rest.1 (inr (c, j, s))
      ],
    )

-- A minute is a start minute of the day if and only if it is aligned to the interval and some eligible
-- barber has a period that holds the service from that minute on.
pub start_minutes-IsExact :
    (day : Day) (interval : BookingSlotIntervalMinutes) (m : ℕ)
    → In m (start_minutes day interval)
      ↔ StartsWithSome day.periods interval day.duration m day.eligible
start_minutes-IsExact day interval m =
    let set = add_barbers day.periods interval day.duration day.eligible [] in
    let exact = In-add_barbers day.periods interval day.duration m day.eligible [] in
    (
      (λ i. elim (exact.0 (In-sort_by leb m set i)) [ inl none ↦ absurd none | inr s ↦ s ]),
      λ s. In-sort_by_of leb m set (exact.1 (inr s)),
    )
