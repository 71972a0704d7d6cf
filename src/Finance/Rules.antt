-- ===== src/Finance/Rules.antt =====
-- Which compensation rule applies to an appointment, and its snapshot
-- (server/appointment-finance.ts, the first part).
use barber_bookings.Common.{
  ℕ, ◌≤◌, Bool, true, ◌&&◌, List, [], ◌∷◌, Option, none, some, ◌≡◌, refl, ◌⊎◌, inl, inr, arith, leb,
  ltb, ◌==◌, if◌then◌else◌, All, All-map, find?, filter, get_or, Option-cases,
}
use barber_bookings.Common.Sort.{
  In, sort_by, later_first, In-sort_by, In-filter, In-find?, All-sort_by, All-filter,
  sort_by-IsDescending, find?-max,
}
use barber_bookings.Schema.{Appointment, BarberCompensationRule, CompensationSnapshot}
use barber_bookings.Schema.Enums.{BarberCompensationModel, is_commission, is_chair_rent}

unfoldable pub create_default_compensation_rule : ℕ → ℕ → BarberCompensationRule
create_default_compensation_rule barber_id location_id = record {
  id = 0;
  barber_id = barber_id;
  location_id = location_id;
  model = BarberCompensationModel.none;
  commission_percent = none;
  chair_rent_cents = none;
  chair_rent_period = none;
  effective_from = 0;
  created_at = 0;
}

abbrev pub effective : BarberCompensationRule → ℕ
effective rule = rule.effective_from

-- The test of the `filter`.
abbrev pub is_for : ℕ → ℕ → BarberCompensationRule → Bool
is_for barber_id location_id candidate =
    (candidate.barber_id == barber_id) && (candidate.location_id == location_id)

-- The rules of the barber at the location, the latest first, and the first in force at `date`.
abbrev pub in_force : List BarberCompensationRule → ℕ → ℕ → ℕ → Option BarberCompensationRule
in_force rules barber_id location_id date =
    find? (λ c. leb (effective c) date)
      (sort_by (later_first effective) (filter (is_for barber_id location_id) rules))

unfoldable pub get_compensation_rule_for_date :
    List BarberCompensationRule → ℕ → ℕ → ℕ → BarberCompensationRule
get_compensation_rule_for_date rules barber_id location_id date =
    get_or (in_force rules barber_id location_id date)
      (create_default_compensation_rule barber_id location_id)

-- The rule that a snapshot on the appointment stands for; the date is only read without one.
unfoldable pub get_compensation_rule_for_appointment :
    List BarberCompensationRule → Appointment → BarberCompensationRule
get_compensation_rule_for_appointment rules a = elim a.compensation.compensation_model_snapshot [
  | none ↦ get_compensation_rule_for_date rules a.barber_id a.location_id a.start_time
  | some model ↦ record {
    id = get_or a.compensation.compensation_rule_id_snapshot 0;
    barber_id = a.barber_id;
    location_id = a.location_id;
    model = model;
    commission_percent = a.compensation.commission_percent_snapshot;
    chair_rent_cents = a.compensation.chair_rent_cents_snapshot;
    chair_rent_period = a.compensation.chair_rent_period_snapshot;
    effective_from = 0;
    created_at = 0;
  }
]

unfoldable pub create_appointment_compensation_snapshot :
    BarberCompensationRule → CompensationSnapshot
create_appointment_compensation_snapshot rule = record {
  compensation_rule_id_snapshot = if ltb 0 rule.id then some rule.id else none;
  compensation_model_snapshot = some rule.model;
  commission_percent_snapshot = if is_commission rule.model then rule.commission_percent else none;
  chair_rent_cents_snapshot = if is_chair_rent rule.model then rule.chair_rent_cents else none;
  chair_rent_period_snapshot = if is_chair_rent rule.model then rule.chair_rent_period else none;
}

-- A rule that the search may choose for `date`.
abbrev pub Applies : ℕ → ℕ → ℕ → BarberCompensationRule → Type 0
Applies b l date c = (c.barber_id ≡ b) × (c.location_id ≡ l) × (c.effective_from ≤ date)

-- The rule chosen is one of the list that applies, and none that applies took effect later; or no
-- rule of the list applies and it is the default.
abbrev pub IsChosen : List BarberCompensationRule → ℕ → ℕ → ℕ → BarberCompensationRule → Type 0
IsChosen rules b l date r =
    (In r rules
      × Applies b l date r
      × All (λ c. Applies b l date c → effective c ≤ effective r) rules)
    ⊎ ((r ≡ create_default_compensation_rule b l) × All (λ c. ¬ Applies b l date c) rules)

find?-none :
    (date : ℕ) (xs : List BarberCompensationRule)
    → find? (λ c. leb (effective c) date) xs ≡ none
    → All (λ c. ¬ (effective c ≤ date)) xs
find?-none date [] e = tt
find?-none date (x ∷ xs) e = (ground arith, find?-none date xs (ground arith))

module _ (rules : List BarberCompensationRule) (b l date : ℕ) where
  -- A fact of every rule in the sorted list holds of the rules for the barber at the location.
  of_sorted :
      (P : BarberCompensationRule → Type 0)
      → All P (sort_by (later_first effective) (filter (is_for b l) rules))
      → All (λ c. is_for b l c ≡ true → P c) rules
  of_sorted P h = All-filter P (is_for b l) rules (All-sort_by P _ _ h)

  none-Applies : in_force rules b l date ≡ none → All (λ c. ¬ Applies b l date c) rules
  none-Applies e =
      All-map (λ c h a. h (ground arith) a.2) rules
        (of_sorted (λ c. ¬ (effective c ≤ date)) (find?-none date _ e))

  some-Applies :
      (r : BarberCompensationRule)
      → in_force rules b l date ≡ some r
      → In r rules
        × Applies b l date r
        × All (λ c. Applies b l date c → effective c ≤ effective r) rules
  some-Applies r e =
      (kept.0, (ground (arith, kept.1), ground (arith, kept.1), ground (arith, found.1)), latest)
    where
      found :
          In r (sort_by (later_first effective) (filter (is_for b l) rules))
          × (leb (effective r) date ≡ true)
      found = In-find? (λ c. leb (effective c) date) r _ e

      kept : In r rules × (is_for b l r ≡ true)
      kept = In-filter (is_for b l) r rules (In-sort_by (later_first effective) r _ found.0)

      latest : All (λ c. Applies b l date c → effective c ≤ effective r) rules
      latest =
          All-map (λ c h a. h (ground arith) a.2) rules
            (of_sorted (λ c. effective c ≤ date → effective c ≤ effective r)
              (find?-max effective date _ r (sort_by-IsDescending effective _) e))

-- The rule that pays for a date: the latest that applies, or the default if none does.
pub get_compensation_rule_for_date-IsChosen :
    (rules : List BarberCompensationRule) (b l date : ℕ)
    → IsChosen rules b l date (get_compensation_rule_for_date rules b l date)
unfolding get_compensation_rule_for_date
get_compensation_rule_for_date-IsChosen rules b l date =
    elim (Option-cases (in_force rules b l date)) [
      | inl e ↦ rw e (inr (refl, none-Applies rules b l date e))
      | inr (r, e) ↦ rw e (inl (some-Applies rules b l date r e))
    ]
