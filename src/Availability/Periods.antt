-- ===== src/Availability/Periods.antt =====
-- About `intersectPeriods` and `getEffectivePeriodsForBarber` (client/src/lib/availability.ts).
use barber_bookings.Common.{
  ℕ, ◌+◌, ◌≤◌, min, max, List, [], ◌∷◌, ◌++◌, ◌↔◌, ◌⊎◌, inl, inr, arith, refl, ap, ltb, lt→ltb,
  Bool-cases,
}
use barber_bookings.Common.Member.{In, In-append, In-append_left, In-append_right}
use barber_bookings.Availability.{MinutePeriod, intersect_period, intersect_periods}

-- `m` starts an interval of `duration` minutes that lies in one of the periods.
abbrev pub Fits : ℕ → ℕ → List MinutePeriod → Type 0
Fits duration m ps = (p : MinutePeriod) × In p ps × (p.start ≤ m) × (m + duration ≤ p.end)

abbrev InPeriod : ℕ → ℕ → MinutePeriod → Type 0
InPeriod duration m p = (p.start ≤ m) × (m + duration ≤ p.end)

later :
    (duration m : ℕ) (p : MinutePeriod) (ps : List MinutePeriod)
    → Fits duration m ps
    → Fits duration m (p ∷ ps)
later duration m p ps (q, i, a, b) = (q, inr i, a, b)

within_both :
    (a b c d m e : ℕ) → (max a b ≤ m) × (e ≤ min c d) ↔ ((a ≤ m) × (e ≤ c)) × ((b ≤ m) × (e ≤ d))
within_both a b c d m e = ground arith

-- The overlap of `p` and `o` and what lies in the rest of the intersections.
first_or_later :
    (duration m : ℕ) (p o : MinutePeriod) (os rest : List MinutePeriod)
    → (Fits duration m rest → InPeriod duration m p × Fits duration m os)
    → Fits duration m (record { start = max p.start o.start; end = min p.end o.end } ∷ rest)
    → InPeriod duration m p × Fits duration m (o ∷ os)
first_or_later duration m p o os rest f (q, inl same, a, b) =
    let c =
      (within_both p.start o.start p.end o.end m (m + duration)).0
        (rw (ap MinutePeriod.start same) at a, rw (ap MinutePeriod.end same) at b) in
    (c.0, (o, inl refl, c.1.0, c.1.1))
first_or_later duration m p o os rest f (q, inr i, a, b) =
    let both = f (q, i, a, b) in (both.0, later duration m o os both.1)

Fits-intersect_period :
    (duration m : ℕ) (p : MinutePeriod) (os : List MinutePeriod)
    → Fits duration m (intersect_period p os)
    → InPeriod duration m p × Fits duration m os
unfolding intersect_period
Fits-intersect_period duration m p [] (q, i, a, b) = absurd i
Fits-intersect_period duration m p (o ∷ os) h =
    elim (Bool-cases (ltb (max p.start o.start) (min p.end o.end))) [
      | inr e ↦
          let both = Fits-intersect_period duration m p os (rw e at h) in
          (both.0, later duration m o os both.1)
      | inl e ↦
          let found : Fits duration m (
              record { start = max p.start o.start; end = min p.end o.end }
              ∷ intersect_period p os) =
            rw e at h in
          first_or_later duration m p o os _ (Fits-intersect_period duration m p os) found
    ]

Fits-of_both_period :
    (duration m : ℕ) (p : MinutePeriod) (os : List MinutePeriod)
    → 1 ≤ duration
    → InPeriod duration m p
    → Fits duration m os
    → Fits duration m (intersect_period p os)
unfolding intersect_period
Fits-of_both_period duration m p [] one h (q, i, a, b) = absurd i
Fits-of_both_period duration m p (o ∷ os) one h (q, inl same, a, b) =
    let c =
      (within_both p.start o.start p.end o.end m (m + duration)).1
        (h, (rw (ap MinutePeriod.start same) at a, rw (ap MinutePeriod.end same) at b)) in
    rw (lt→ltb (max p.start o.start) (min p.end o.end) (omega (arith, c.0, c.1, one)))
      (_, inl refl, c.0, c.1)
Fits-of_both_period duration m p (o ∷ os) one h (q, inr i, a, b) =
    let rest = Fits-of_both_period duration m p os one h (q, i, a, b) in
    elim (Bool-cases (ltb (max p.start o.start) (min p.end o.end))) [
      | inl e ↦ rw e (later duration m _ _ rest)
      | inr e ↦ rw e rest
    ]

Fits-append :
    (duration m : ℕ) (xs ys : List MinutePeriod)
    → Fits duration m (xs ++ ys)
    → Fits duration m xs ⊎ Fits duration m ys
Fits-append duration m xs ys (q, i, a, b) = elim (In-append q xs ys i) [
  | inl j ↦ inl (q, j, a, b)
  | inr j ↦ inr (q, j, a, b)
]

Fits-of_intersection :
    (duration m : ℕ) (ps os : List MinutePeriod)
    → Fits duration m (intersect_periods ps os)
    → Fits duration m ps × Fits duration m os
unfolding intersect_periods
Fits-of_intersection duration m [] os (q, i, a, b) = absurd i
Fits-of_intersection duration m (p ∷ ps) os h =
    elim (Fits-append duration m (intersect_period p os) (intersect_periods ps os) h) [
      | inl f ↦
          let both = Fits-intersect_period duration m p os f in
          ((p, inl refl, both.0.0, both.0.1), both.1)
      | inr f ↦
          let both = Fits-of_intersection duration m ps os f in
          (later duration m p ps both.0, both.1)
    ]

Fits-of_both :
    (duration m : ℕ) (ps os : List MinutePeriod)
    → 1 ≤ duration
    → Fits duration m ps
    → Fits duration m os
    → Fits duration m (intersect_periods ps os)
unfolding intersect_periods
Fits-of_both duration m [] os one (q, i, a, b) h = absurd i
Fits-of_both duration m (p ∷ ps) os one (q, inl same, a, b) h =
    let (r, j, c, d) =
      Fits-of_both_period duration m p os one
        (rw (ap MinutePeriod.start same) at a, rw (ap MinutePeriod.end same) at b) h in
    (r, In-append_left r (intersect_period p os) (intersect_periods ps os) j, c, d)
Fits-of_both duration m (p ∷ ps) os one (q, inr i, a, b) h =
    let (r, j, c, d) = Fits-of_both duration m ps os one (q, i, a, b) h in
    (r, In-append_right r (intersect_period p os) (intersect_periods ps os) j, c, d)

-- The intersection of two lists of periods is exact for intervals of at least a minute: an interval
-- lies in one of the intersections if and only if it lies in a period of the first list and in a period
-- of the second.
pub intersect_periods-IsExact :
    (duration m : ℕ) (primary overrides : List MinutePeriod)
    → 1 ≤ duration
    → Fits duration m (intersect_periods primary overrides)
      ↔ Fits duration m primary × Fits duration m overrides
intersect_periods-IsExact duration m ps os one =
    (Fits-of_intersection duration m ps os, λ both. Fits-of_both duration m ps os one both.0 both.1)
