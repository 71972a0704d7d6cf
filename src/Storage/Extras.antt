-- ===== src/Storage/Extras.antt =====
-- Extras of an appointment (server/storage.ts): `validateAppointmentExtraInputs`,
-- `appointmentExtrasSelectionChanged` and `resolveAppointmentExtraSnapshots`.
use barber_bookings.Common.{
  ℕ, ◌+◌, Bool, true, false, not, ◌&&◌, ◌||◌, List, [], ◌∷◌, map, Option, none, some, ltb, ◌==◌,
  if◌then◌else◌, any, has, find?, length,
}
use barber_bookings.Schema.{Instant, AppointmentExtra, ExtraDefinition}
use barber_bookings.Schema.Enums.{is_fixed}
use barber_bookings.Storage.State.{
  Action, finished, threw, ◌>>=◌, ◌>>◌, pure, throw_if, ExtraSnapshot, AppointmentExtraInput,
  extra_ids_invalid, extra_amount_invalid, extra_unavailable,
}

-- `new Set(ids).size !== ids.length`
pub has_duplicates : List ℕ → Bool
has_duplicates [] = false
has_duplicates (x ∷ xs) = has x xs || has_duplicates xs

abbrev pub extra_ids : List AppointmentExtraInput → List ℕ
extra_ids extras = map (λ x. x.extra_id) extras

abbrev pub amount_invalid : Option ℕ → Bool
amount_invalid none = false
amount_invalid (some cents) = (cents == 0) || ltb 1000000 cents

unfoldable pub validate_appointment_extra_inputs : List AppointmentExtraInput → Action (Unit {0})
unfolding has_duplicates
validate_appointment_extra_inputs extras = do
  throw_if (any (λ x. x.extra_id == 0) extras || has_duplicates (extra_ids extras))
      extra_ids_invalid
  throw_if (any (λ x. amount_invalid x.amount_cents) extras) extra_amount_invalid

abbrev amount_changed : Option ℕ → ℕ → Bool
amount_changed none cents = false
amount_changed (some wanted) cents = not (wanted == cents)

-- The `some` of the comparison: each requested extra against the one in its place.
pub differs_from : List AppointmentExtraInput → List AppointmentExtra → Bool
differs_from [] current = false
differs_from (x ∷ xs) [] = true
differs_from (x ∷ xs) (c ∷ cs) =
    not (x.extra_id == c.extra_definition_id)
    || amount_changed x.amount_cents c.amount_cents_snapshot
    || differs_from xs cs

unfoldable pub appointment_extras_selection_changed :
    List AppointmentExtraInput → List AppointmentExtra → Bool
unfolding differs_from
appointment_extras_selection_changed requested current =
    not (length requested == length current) || differs_from requested current

-- `existingByDefinitionId.get(id)`: the last of the entries with a key.
pub existing_by_definition_id : ℕ → List AppointmentExtra → Option AppointmentExtra
existing_by_definition_id id [] = none
existing_by_definition_id id (x ∷ xs) = elim (existing_by_definition_id id xs) [
  | some later ↦ some later
  | none ↦ if x.extra_definition_id == id then some x else none
]

abbrev pub keeps : Option ℕ → AppointmentExtra → Bool
keeps none existing = true
keeps (some cents) existing = cents == existing.amount_cents_snapshot

abbrev pub is_offered : ℕ → ℕ → ExtraDefinition → Bool
is_offered id location_id candidate =
    (candidate.id == id) && (candidate.location_id == location_id) && candidate.is_active

abbrev pub priced : Option ℕ → Option ℕ
priced none = none
priced (some cents) = if cents == 0 then none else some cents

-- The snapshot of an extra that is on offer, at its own price or at the one asked for.
unfoldable pub from_definition :
    Instant → ℕ → AppointmentExtraInput → ExtraDefinition → Action ExtraSnapshot
from_definition now position selected definition s =
    let asked =
      if is_fixed definition.pricing_mode then definition.amount_cents else selected.amount_cents in
    elim (priced asked) [
      | none ↦ threw extra_amount_invalid s
      | some cents ↦
          finished
            (record {
              extra_definition_id = selected.extra_id;
              name_snapshot = definition.name;
              amount_cents_snapshot = cents;
              financial_rule_snapshot = definition.financial_rule;
              position = position;
              created_at = now;
            })
            s
    ]

-- `{ ...snapshot, position }` of an extra that the appointment already has.
abbrev pub preserved : ℕ → AppointmentExtra → ExtraSnapshot
preserved position existing = record {
  extra_definition_id = existing.extra_definition_id;
  name_snapshot = existing.name_snapshot;
  amount_cents_snapshot = existing.amount_cents_snapshot;
  financial_rule_snapshot = existing.financial_rule_snapshot;
  position = position;
  created_at = existing.created_at;
}

-- An extra that is not kept as it was.
unfoldable pub resolve_new : Instant → ℕ → ℕ → AppointmentExtraInput → Action ExtraSnapshot
resolve_new now location_id position selected s =
    elim (find? (is_offered selected.extra_id location_id) s.extra_definitions) [
      | none ↦ threw extra_unavailable s
      | some definition ↦ from_definition now position selected definition s
    ]

-- The callback of the `map`.
unfoldable pub resolve_one :
    Instant → ℕ → List AppointmentExtra → ℕ → AppointmentExtraInput → Action ExtraSnapshot
unfolding existing_by_definition_id
resolve_one now location_id existing position selected s =
    elim (existing_by_definition_id selected.extra_id existing) [
      | none ↦ resolve_new now location_id position selected s
      | some found ↦
          if keeps selected.amount_cents found
          then finished (preserved position found) s
          else resolve_new now location_id position selected s
    ]

unfoldable pub resolve_from :
    Instant
    → ℕ
    → List AppointmentExtra
    → ℕ
    → List AppointmentExtraInput
    → Action (List ExtraSnapshot)
resolve_from now location_id existing position [] = pure []
resolve_from now location_id existing position (x ∷ xs) = do
  snapshot ← resolve_one now location_id existing position x
  rest ← resolve_from now location_id existing (position + 1) xs
  pure (snapshot ∷ rest)

abbrev pub resolve_at :
    Instant
    → Option ℕ
    → List AppointmentExtra
    → List AppointmentExtraInput
    → Action (List ExtraSnapshot)
resolve_at now location_id existing [] s = finished [] s
resolve_at now none existing (x ∷ xs) s = threw extra_unavailable s
resolve_at now (some location_id) existing (x ∷ xs) s =
    if location_id == 0
    then threw extra_unavailable s
    else resolve_from now location_id existing 0 (x ∷ xs) s

unfoldable pub resolve_appointment_extra_snapshots :
    Instant
    → Option ℕ
    → List AppointmentExtraInput
    → List AppointmentExtra
    → Action (List ExtraSnapshot)
resolve_appointment_extra_snapshots now location_id extras existing = do
  validate_appointment_extra_inputs extras
  resolve_at now location_id existing extras
