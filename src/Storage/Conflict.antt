-- ===== src/Storage/Conflict.antt =====
-- `getDurationMinutes`, `getAppointmentEndTime`, `shouldProtectAppointment` and
-- `assertNoAppointmentConflict` of server/storage.ts.
use barber_bookings.Common.{
  ℕ, ◌+◌, ◌*◌, ◌≤◌, Bool, false, not, ◌&&◌, List, [], ◌∷◌, Option, none, some, ◌≡◌, ◌≢◌, ◌⊎◌, arith,
  ltb, ◌==◌, if◌then◌else◌, All, find?,
}
use barber_bookings.Schema.{Appointment, Instant}
use barber_bookings.Schema.Enums.{AppointmentStatus, booked, is_booked}
use barber_bookings.Storage.State.{Action, finished, threw, appointment_conflict}

abbrev pub default_appointment_duration_minutes : ℕ
default_appointment_duration_minutes = 30

unfoldable pub get_duration_minutes : ℕ → ℕ
get_duration_minutes d = if ltb 0 d then d else default_appointment_duration_minutes

unfoldable pub get_appointment_end_time : Instant → ℕ → Instant
get_appointment_end_time start duration = start + get_duration_minutes duration * 60000

abbrev pub should_protect_appointment : AppointmentStatus → Bool
should_protect_appointment status = is_booked status

abbrev pub is_ignored : Option ℕ → ℕ → Bool
is_ignored none id = false
is_ignored (some ignored) id = id == ignored

-- The callback of the `find`.
unfoldable pub conflicts_with : Appointment → Option ℕ → Appointment → Bool
conflicts_with candidate ignore_id a =
    let end_time = get_appointment_end_time candidate.start_time candidate.duration_minutes in
    let appointment_end = get_appointment_end_time a.start_time a.duration_minutes in
    is_booked a.status
    && (a.barber_id == candidate.barber_id)
    && not (is_ignored ignore_id a.id)
    && ltb candidate.start_time appointment_end
    && ltb a.start_time end_time

unfoldable pub assert_no_appointment_conflict : Appointment → Option ℕ → Action (Unit {0})
assert_no_appointment_conflict candidate ignore_id s =
    if not (should_protect_appointment candidate.status)
    then finished tt s
    else elim (find? (conflicts_with candidate ignore_id) s.appointments) [
      | none ↦ finished tt s
      | some conflicting ↦ threw appointment_conflict s
    ]

abbrev pub end_of : Appointment → Instant
end_of a = get_appointment_end_time a.start_time a.duration_minutes

-- Two appointments that are both booked with one barber do not overlap: one ends before the other
-- starts.
abbrev pub Compatible : Appointment → Appointment → Type 0
Compatible a b =
    a.status ≡ booked
    → b.status ≡ booked
    → a.barber_id ≡ b.barber_id
    → (end_of a ≤ b.start_time) ⊎ (end_of b ≤ a.start_time)

-- Rows of a table of appointments: distinct, and never double-booked.
abbrev pub Separate : Appointment → Appointment → Type 0
Separate a b = (a.id ≢ b.id) × Compatible a b

pub find?-none {ℓ} :
    {A : Type ℓ} (p : A → Bool) (xs : List A) → find? p xs ≡ none → All (λ x. p x ≡ false) xs
find?-none p [] e = tt
find?-none p (x ∷ xs) e = (ground arith, find?-none p xs (ground arith))

pub Compatible-of_no_conflict :
    (c : Appointment) (ignore_id : Option ℕ) (a : Appointment)
    → conflicts_with c ignore_id a ≡ false
    → is_ignored ignore_id a.id ≡ false
    → Compatible c a
unfolding conflicts_with
Compatible-of_no_conflict c ignore_id a h k p q r = ground arith
