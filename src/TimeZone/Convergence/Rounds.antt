-- ===== src/TimeZone/Convergence/Rounds.antt =====
-- The rounds of `calendarDateTimeToInstant` (server/calendar-timezone.ts) around a change of the clocks.
use barber_bookings.Common.{
  ℕ, suc, ◌+◌, ◌*◌, ◌%◌, ◌≤◌, ◌<◌, ◌≡◌, ◌∙◌, ap, sym, ◌⊎◌, inl, inr, refl, arith, ltb, ltb→lt, ◌==◌,
  Bool-cases, if◌then◌else◌,
}
use barber_bookings.Schema.{Instant}
use barber_bookings.TimeZone.{
  Zone, get_calendar_date_time_parts, minus_offset, settle, utc_timestamp,
}

abbrev pub wall : Zone → Instant → Instant
wall zone at = utc_timestamp (zone at)

-- A whole second within a day of `target`. (Calendar parts leave out the milliseconds.)
abbrev pub IsNear : Instant → Instant → Type 0
IsNear target at = (target ≤ at + 86400000) × (at ≤ target + 86400000) × (at % 1000 ≡ 0)

-- Within a day of `target`, the zone is `east - west` seconds ahead of UTC before `change`, and
-- `later_east - later_west` from then on; no offset is more than 14 hours.
pub record HasOneChange (zone : Zone) (target : Instant) : Type 0 where
  pub change : Instant
  pub east : ℕ
  pub west : ℕ
  pub later_east : ℕ
  pub later_west : ℕ
  pub far : 86400000 ≤ target
  pub east_bound : east ≤ 50400
  pub west_bound : west ≤ 50400
  pub later_east_bound : later_east ≤ 50400
  pub later_west_bound : later_west ≤ 50400
  pub before :
      (at : Instant)
      → IsNear target at
      → at < change
      → wall zone at + west * 1000 ≡ at + east * 1000
  pub from :
      (at : Instant)
      → IsNear target at
      → change ≤ at
      → wall zone at + later_west * 1000 ≡ at + later_east * 1000

-- One round of either loop: the guess of the side of the change on which the candidate lies.
IsRound : (zone : Zone) (target : Instant) → HasOneChange zone target → Instant → Instant → Type 0
IsRound zone target h at next =
    ((at < h.change) × (next + h.east * 1000 ≡ target + h.west * 1000))
    ⊎ ((h.change ≤ at) × (next + h.later_east * 1000 ≡ target + h.later_west * 1000))

minus_offset-IsRound :
    (zone : Zone) (target at : Instant) (h : HasOneChange zone target)
    → IsNear target at
    → IsRound zone target h at (minus_offset target zone at)
unfolding minus_offset IsRound
minus_offset-IsRound zone target at h near = elim (Bool-cases (ltb at h.change)) [
  | inl t ↦
      let lt = ltb→lt at h.change t in
      inl (lt, omega (arith, h.before at near lt, h.east_bound, h.west_bound, h.far, near.0))
  | inr f ↦
      let le : h.change ≤ at = ground arith in
      inr (
        le,
        omega (arith, h.from at near le, h.later_east_bound, h.later_west_bound, h.far, near.0),
      )
]

-- Any round stays within a day of the target.
IsRound-IsNear :
    (zone : Zone) (target at next : Instant) (h : HasOneChange zone target)
    → target % 1000 ≡ 0
    → IsRound zone target h at next
    → IsNear target next
unfolding IsRound
IsRound-IsNear zone target at next h whole (inl (lt, e)) = (
  omega (arith, e, h.east_bound, h.west_bound),
  omega (arith, e, h.east_bound, h.west_bound),
  omega (arith, e, whole),
)
IsRound-IsNear zone target at next h whole (inr (le, e)) = (
  omega (arith, e, h.later_east_bound, h.later_west_bound),
  omega (arith, e, h.later_east_bound, h.later_west_bound),
  omega (arith, e, whole),
)

-- A round that leads back to its candidate is one whose candidate shows the target.
wall-IsRound :
    (zone : Zone) (target at : Instant) (h : HasOneChange zone target)
    → IsNear target at
    → IsRound zone target h at at
    → wall zone at ≡ target
unfolding IsRound
wall-IsRound zone target at h near (inl (lt, e)) = omega (arith, e, h.before at near lt)
wall-IsRound zone target at h near (inr (le, e)) = omega (arith, e, h.from at near le)

IsRound-wall :
    (zone : Zone) (target at : Instant) (h : HasOneChange zone target)
    → IsNear target at
    → wall zone at ≡ target
    → IsRound zone target h at at
unfolding IsRound
IsRound-wall zone target at h near e = elim (Bool-cases (ltb at h.change)) [
  | inl t ↦ let lt = ltb→lt at h.change t in inl (lt, omega (arith, e, h.before at near lt))
  | inr f ↦ let le : h.change ≤ at = ground arith in inr (le, omega (arith, e, h.from at near le))
]

-- Two rounds lead to a candidate that the next round keeps, if there is one.
two_rounds_kept :
    (zone : Zone) (target at first second : Instant) (h : HasOneChange zone target)
    → IsRound zone target h at at
    → IsRound zone target h target first
    → IsRound zone target h first second
    → IsRound zone target h second second
unfolding IsRound
two_rounds_kept zone target at first second h kept one (inl (lt, e)) = elim kept [
  | inl (lt2, e2) ↦ inl (omega (arith, lt2, e2, e), e)
  | inr (le2, e2) ↦ elim one [
    | inl (lt1, e1) ↦ inl (omega (arith, e1, e, lt), e)
    | inr (le1, e1) ↦ absurd (omega (arith, e1, e2, le2, lt))
  ]
]
two_rounds_kept zone target at first second h kept one (inr (le, e)) = elim kept [
  | inr (le2, e2) ↦ inr (omega (arith, le2, e2, e), e)
  | inl (lt2, e2) ↦ elim one [
    | inr (le1, e1) ↦ inr (omega (arith, e1, e, le), e)
    | inl (lt1, e1) ↦ absurd (omega (arith, e1, e2, le, lt2))
  ]
]

pub two_rounds :
    (zone : Zone) (target at : Instant) (h : HasOneChange zone target)
    → target % 1000 ≡ 0
    → IsNear target at
    → wall zone at ≡ target
    → wall zone (minus_offset target zone (minus_offset target zone target)) ≡ target
two_rounds zone target at h whole near e =
    let first = minus_offset target zone target in
    let second = minus_offset target zone first in
    let one = minus_offset-IsRound zone target target h (omega arith, omega arith, whole) in
    let near1 = IsRound-IsNear zone target target first h whole one in
    let two = minus_offset-IsRound zone target first h near1 in
    wall-IsRound zone target second h (IsRound-IsNear zone target first second h whole two)
      (two_rounds_kept zone target at first second h (IsRound-wall zone target at h near e) one two)

-- The loop stays at a candidate that shows the target.
settle_stays :
    (zone : Zone) (target candidate attempts : ℕ)
    → wall zone candidate ≡ target
    → settle zone target attempts candidate ≡ candidate
unfolding settle get_calendar_date_time_parts
settle_stays zone target candidate ℕ.zero e = refl
settle_stays zone target candidate (ℕ.suc n) e = ground (arith, e)

fixed :
    (zone : Zone) (target candidate : Instant)
    → wall zone candidate ≡ target
    → minus_offset target zone candidate ≡ candidate
unfolding minus_offset
fixed zone target candidate e = omega (arith, e)

settle_round :
    (zone : Zone) (target candidate n : ℕ)
    → settle zone target (suc n) candidate ≡ (
        if wall zone candidate == target
        then candidate
        else settle zone target n (minus_offset target zone candidate))
unfolding settle minus_offset get_calendar_date_time_parts
settle_round zone target candidate n = refl

-- Two rounds or more end where two rounds lead, if that instant shows the target.
pub settle_two :
    (zone : Zone) (target candidate n : ℕ)
    → wall zone (minus_offset target zone (minus_offset target zone candidate)) ≡ target
    → settle zone target (suc (suc n)) candidate
      ≡ minus_offset target zone (minus_offset target zone candidate)
settle_two zone target candidate n e =
    let first = minus_offset target zone candidate in
    let second = minus_offset target zone first in
    rw settle_round (elim (Bool-cases (wall zone candidate == target)) [
      | inl t ↦
          let one : first ≡ candidate = fixed zone target candidate (ground arith) in
          rw t (sym (ap (minus_offset target zone) one ∙ one))
      | inr f ↦
          rw (f, settle_round zone target first n)
            (elim (Bool-cases (wall zone first == target)) [
              | inl t ↦ rw t (sym (fixed zone target first (ground arith)))
              | inr f2 ↦ rw f2 (settle_stays zone target second n e)
            ])
    ])
