-- ===== src/Examples/Finance.antt =====
-- Amounts, compensation rules and chair rents at concrete inputs (server/appointment-finance.ts).
use barber_bookings.Common.{
  ℕ, ◌+◌, ◌*◌, ◌/◌, ◌≤◌, ◌<◌, false, [], ◌∷◌, map, none, some, ◌≡◌, ◌⊎◌, arith, All, if◌then◌else◌,
}
use barber_bookings.Common.Int.{pos, ◌+ℤ◌, ◌≤ℤ◌}
use barber_bookings.Calendar.{CalendarDate, civil}
use barber_bookings.Schema.{Appointment, BarberCompensationRule, Instant}
use barber_bookings.Schema.Enums.{
  BarberCompensationModel, card, cash, chair_rent, commission, completed, follow_compensation,
  is_completed, week,
}
use barber_bookings.Storage.Create.{no_compensation}
use barber_bookings.Storage.Table.{Pairwise}
use barber_bookings.Finance.Rules.{get_compensation_rule_for_date}
use barber_bookings.Finance.Rules as Rules
use barber_bookings.Finance.Amounts.{
  get_appointment_payment_amounts, round_percentage_cents, split_realized_amount,
}
use barber_bookings.Finance.Rounding as Rounding
use barber_bookings.Finance.Rounding.{on_account}
use barber_bookings.Finance.ChairRent.{rent_loop}
use barber_bookings.Finance.Totals.{calculate_appointments_financials}
use barber_bookings.Finance.Conservation.{Balanced, calculate_appointments_financials-Conserves}
use barber_bookings.Finance.Once.{Differ, charge_all, key_of, payers, rent_loop-charge_all}

abbrev rule : BarberCompensationModel → BarberCompensationRule
rule model = record {
  id = 1;
  barber_id = 1;
  location_id = 1;
  model = model;
  commission_percent = some 45;
  chair_rent_cents = some 5000;
  chair_rent_period = some week;
  effective_from = 0;
  created_at = 0;
}

-- A cut at 15.55, paid in cash.
abbrev cut : ℕ → Instant → Appointment
cut id start_time = record {
  id = id;
  location_id = 1;
  barber_id = 1;
  service_id = some 1;
  start_time = start_time;
  customer_name = "Ana";
  customer_email = none;
  customer_phone = "";
  duration_minutes = 30;
  service_name_snapshot = some "Corte";
  service_price_cents_snapshot = some 1555;
  compensation = no_compensation;
  manual_outside_hours = false;
  status = completed;
  cancel_token = "";
  cancelled_at = none;
  payment_method = cash;
  deposit_required = false;
  deposit_reason = none;
  reschedule_revision = 0;
  notification_revision = 0;
  whatsapp_opt_in = false;
  whatsapp_opt_in_at = none;
  series_id = none;
  series_occurrence_index = none;
  created_at = 0;
}

-- Days of UTC; 1970-01-01 is day 719163.
abbrev utc : Instant → CalendarDate
utc instant = civil (719163 + instant / 86400000)

round_percentage_cents-IsNearest_example :
    (100 * round_percentage_cents 1555 45 ≤ 1555 * 45 + 50)
    × (1555 * 45 + 50 < 100 * round_percentage_cents 1555 45 + 100)
round_percentage_cents-IsNearest_example = Rounding.round_percentage_cents-IsNearest 1555 45

split_realized_amount-IsFair_example :
    (pos 0
      ≤ℤ (split_realized_amount 1555 follow_compensation (rule commission)).barber_amount_cents)
    × (pos 0
        ≤ℤ (split_realized_amount 1555 follow_compensation
            (rule commission)).establishment_amount_cents)
split_realized_amount-IsFair_example =
    Rounding.split_realized_amount-IsFair 1555 follow_compensation (rule commission) (omega arith)

get_appointment_payment_amounts-Partition_example :
    (let p = get_appointment_payment_amounts completed cash 1555 in
      (on_account p cash ≡ (if is_completed completed then 1555 else 0))
      × ((card ≡ cash) ⊎ (on_account p card ≡ 0))
      × (p.received_amount_cents ≡ on_account p cash + on_account p card))
get_appointment_payment_amounts-Partition_example =
    Rounding.get_appointment_payment_amounts-Partition completed cash card 1555

calculate_appointments_financials-Conserves_example :
    (let t =
        calculate_appointments_financials utc
          (cut 1 0 ∷ cut 2 3600000 ∷ [])
          []
          (λ _. none)
          (rule chair_rent ∷ [])
          none in
      All Balanced t.appointments
      × (t.barber_amount_cents +ℤ t.establishment_amount_cents ≡ pos t.realized_amount_cents))
calculate_appointments_financials-Conserves_example =
    calculate_appointments_financials-Conserves utc (rule chair_rent ∷ []) none
      (cut 1 0 ∷ cut 2 3600000 ∷ []) [] (λ _. none)

-- Two cuts of a week, of which the first pays the rent.
rent_loop-charge_all_example :
    (let xs = cut 1 0 ∷ cut 2 3600000 ∷ [] in
      let rules = rule chair_rent ∷ [] in
      ((rent_loop utc rules none (record { keys = []; results = [] }) xs).results
        ≡ charge_all utc rules none (payers utc rules none xs) [])
      × Pairwise Differ (map (key_of utc rules none) (payers utc rules none xs)))
rent_loop-charge_all_example =
    rent_loop-charge_all utc (rule chair_rent ∷ []) none [] (cut 1 0 ∷ cut 2 3600000 ∷ [])

get_compensation_rule_for_date-IsChosen_example :
    Rules.IsChosen
      (rule chair_rent ∷ [])
      1
      1
      5
      (get_compensation_rule_for_date (rule chair_rent ∷ []) 1 1 5)
get_compensation_rule_for_date-IsChosen_example =
    Rules.get_compensation_rule_for_date-IsChosen (rule chair_rent ∷ []) 1 1 5
