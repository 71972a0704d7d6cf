-- ===== src/Common/Steps.antt =====
-- The values of a counter in a loop `for (c = first; c < stop; c += step)`.
use barber_bookings.Common.{
  ℕ, zero, suc, ◌+◌, ◌*◌, ◌≤◌, ◌<◌, List, [], ◌∷◌, ◌≡◌, inl, inr, arith, ltb, lt→ltb, Bool-cases,
  if◌then◌else◌,
}
use barber_bookings.Common.Sort.{In}

-- With fuel for the rounds.
unfoldable pub steps : ℕ → ℕ → ℕ → ℕ → List ℕ
steps zero step c stop = []
steps (suc fuel) step c stop =
    let rest = steps fuel step (c + step) stop in if ltb c stop then c ∷ rest else []

-- A value of the counter is a number of steps past the first, and below the stop.
pub steps_sound :
    (fuel step c stop m : ℕ)
    → In m (steps fuel step c stop)
    → (k : ℕ) × ((m ≡ c + k * step) × (m < stop))
unfolding steps
steps_sound zero step c stop m h = absurd h
steps_sound (suc fuel) step c stop m h = elim (Bool-cases (ltb c stop)) [
  | inr over ↦ absurd (rw over at h)
  | inl below ↦ elim (rw below at h) [
    | inl e ↦ (0, (omega (arith, e), ground (arith, e)))
    | inr later ↦
        let (k, (e, lt)) = steps_sound fuel step (c + step) stop m later in
        (suc k, (omega (arith, e), lt))
  ]
]

-- Fuel for one round per number below the stop is enough to meet every value.
pub steps_complete :
    (fuel step c stop k m : ℕ)
    → 1 ≤ step
    → stop ≤ fuel + c
    → m ≡ c + k * step
    → m < stop
    → In m (steps fuel step c stop)
unfolding steps
steps_complete zero step c stop k m one enough e lt = omega arith
steps_complete (suc fuel) step c stop zero m one enough e lt =
    rw (lt→ltb c stop (omega (arith, e, lt))) (inl (omega (arith, e)))
steps_complete (suc fuel) step c stop (suc k) m one enough e lt =
    rw (lt→ltb c stop (omega (arith, e, lt)))
      (inr (steps_complete fuel step (c + step) stop k m one (omega arith) (omega (arith, e)) lt))
