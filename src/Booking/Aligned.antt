-- ===== src/Booking/Aligned.antt =====
-- About `createClockAlignedTimeOptions` and `isMinuteOfDayAligned`
-- (shared/booking-slot-interval.ts).
use barber_bookings.Common.{ℕ, ◌+◌, ◌-◌, ◌*◌, ◌/◌, ◌%◌, ◌≤◌, ◌<◌, min, true, ◌≡◌, ◌↔◌, arith}
use barber_bookings.Common.Sort.{In}
use barber_bookings.Common.Steps.{steps_complete, steps_sound}
use barber_bookings.Booking.{
  BookingSlotIntervalMinutes, create_clock_aligned_time_options, fifteen,
  first_clock_aligned_minute, is_minute_of_day_aligned, sixty, thirty,
}

-- A minute of the day in a range at which a booking may start.
abbrev pub IsOffered : ℕ → ℕ → BookingSlotIntervalMinutes → ℕ → Type 0
IsOffered start end interval m =
    (start ≤ m) × (m < end) × (is_minute_of_day_aligned (m / 60) (m % 60) interval ≡ true)

min_lt : (m end : ℕ) → m < min end 1440 → (m < end) × (m < 1440)
min_lt m end h = ground arith

lt_min : (m end : ℕ) → m < end → m < 1440 → m < min end 1440
lt_min m end h k = ground arith

aligned_15 :
    (m : ℕ) → m < 1440 → m % 15 ≡ 0 → is_minute_of_day_aligned (m / 60) (m % 60) fifteen ≡ true
unfolding is_minute_of_day_aligned
aligned_15 m lt e = ground arith

of_aligned_15 :
    (m : ℕ) → is_minute_of_day_aligned (m / 60) (m % 60) fifteen ≡ true → (m < 1440) × (m % 15 ≡ 0)
unfolding is_minute_of_day_aligned
of_aligned_15 m h = (ground arith, ground arith)

aligned_30 :
    (m : ℕ) → m < 1440 → m % 30 ≡ 0 → is_minute_of_day_aligned (m / 60) (m % 60) thirty ≡ true
unfolding is_minute_of_day_aligned
aligned_30 m lt e = ground arith

of_aligned_30 :
    (m : ℕ) → is_minute_of_day_aligned (m / 60) (m % 60) thirty ≡ true → (m < 1440) × (m % 30 ≡ 0)
unfolding is_minute_of_day_aligned
of_aligned_30 m h = (ground arith, ground arith)

aligned_60 :
    (m : ℕ) → m < 1440 → m % 60 ≡ 0 → is_minute_of_day_aligned (m / 60) (m % 60) sixty ≡ true
unfolding is_minute_of_day_aligned
aligned_60 m lt e = ground arith

of_aligned_60 :
    (m : ℕ) → is_minute_of_day_aligned (m / 60) (m % 60) sixty ≡ true → (m < 1440) × (m % 60 ≡ 0)
unfolding is_minute_of_day_aligned
of_aligned_60 m h = (ground arith, ground arith)

-- The times on offer are exact: a minute is among them if and only if it lies in the range, is a
-- minute of the day, and is aligned to the interval as `isMinuteOfDayAligned` tests it. So the loop
-- misses no aligned time and offers none that the server would refuse.
pub create_clock_aligned_time_options-IsExact :
    (start end : ℕ) (interval : BookingSlotIntervalMinutes) (m : ℕ)
    → In m (create_clock_aligned_time_options start end interval) ↔ IsOffered start end interval m
unfolding create_clock_aligned_time_options first_clock_aligned_minute is_minute_of_day_aligned
create_clock_aligned_time_options-IsExact start end fifteen m = (
  (λ i.
      let (k, (e, lt)) = steps_sound end 15 _ (min end 1440) m i in
      let (before, in_day) = min_lt m end lt in
      (omega (arith, e), before, aligned_15 m in_day (omega (arith, e)))),
  λ (from, before, aligned).
      let (in_day, e) = of_aligned_15 m aligned in
      steps_complete end 15 _ (min end 1440) ((m - (start + 14) / 15 * 15) / 15) m (omega arith)
        (omega arith) (omega (arith, e, from)) (lt_min m end before in_day),
)
create_clock_aligned_time_options-IsExact start end thirty m = (
  (λ i.
      let (k, (e, lt)) = steps_sound end 30 _ (min end 1440) m i in
      let (before, in_day) = min_lt m end lt in
      (omega (arith, e), before, aligned_30 m in_day (omega (arith, e)))),
  λ (from, before, aligned).
      let (in_day, e) = of_aligned_30 m aligned in
      steps_complete end 30 _ (min end 1440) ((m - (start + 29) / 30 * 30) / 30) m (omega arith)
        (omega arith) (omega (arith, e, from)) (lt_min m end before in_day),
)
create_clock_aligned_time_options-IsExact start end sixty m = (
  (λ i.
      let (k, (e, lt)) = steps_sound end 60 _ (min end 1440) m i in
      let (before, in_day) = min_lt m end lt in
      (omega (arith, e), before, aligned_60 m in_day (omega (arith, e)))),
  λ (from, before, aligned).
      let (in_day, e) = of_aligned_60 m aligned in
      steps_complete end 60 _ (min end 1440) ((m - (start + 59) / 60 * 60) / 60) m (omega arith)
        (omega arith) (omega (arith, e, from)) (lt_min m end before in_day),
)
