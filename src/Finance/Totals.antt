-- ===== src/Finance/Totals.antt =====
-- `calculateAppointmentsFinancials`, `calculateAppointmentFinancials` and `loadAppointmentsFinancials`
-- (server/appointment-finance.ts). The last reads its data from a source, whose answers are arguments.
use barber_bookings.Common.{ℕ, ◌&&◌, List, [], ◌∷◌, map, Option, none, some, ◌==◌, any, filter}
use barber_bookings.Common.Int.{ℤ}
use barber_bookings.Calendar.{CalendarDate}
use barber_bookings.Schema.{Appointment, AppointmentExtra, BarberCompensationRule, Instant}
use barber_bookings.Finance.Rules.{get_compensation_rule_for_appointment}
use barber_bookings.Finance.Base.{
  FinancialResult, calculate_base_appointment_financials, sum, sum_ℤ,
}
use barber_bookings.Finance.ChairRent.{
  chronological, get_chair_rent_anchor_appointment_ids, rent_loop,
}

-- `AppointmentsFinancialResult`; the map by id is left to a search of `appointments`.
pub record FinancialTotals : Type 0 where
  pub appointments : List FinancialResult
  pub service_amount_cents : ℕ
  pub extras_amount_cents : ℕ
  pub total_amount_cents : ℕ
  pub received_amount_cents : ℕ
  pub cash_amount_cents : ℕ
  pub card_amount_cents : ℕ
  pub voucher_amount_cents : ℕ
  pub gift_amount_cents : ℕ
  pub pending_payment_amount_cents : ℕ
  pub projected_amount_cents : ℕ
  pub realized_amount_cents : ℕ
  pub barber_amount_cents : ℤ
  pub establishment_amount_cents : ℤ
  pub commission_amount_cents : ℕ
  pub chair_rent_amount_cents : ℕ

-- `extrasByAppointment.get(id) ?? []`
abbrev pub extras_of : ℕ → List AppointmentExtra → List AppointmentExtra
extras_of id extras = filter (λ x. x.appointment_id == id) extras

abbrev pub base_results :
    List Appointment
    → List AppointmentExtra
    → (ℕ → Option ℕ)
    → List BarberCompensationRule
    → List FinancialResult
base_results appointments extras service_prices rules =
    map
      (λ a.
        calculate_base_appointment_financials a (extras_of a.id extras) service_prices
          (get_compensation_rule_for_appointment rules a))
      appointments

abbrev pub totals : List FinancialResult → FinancialTotals
totals results = record {
  appointments = results;
  service_amount_cents = sum results (λ r. r.service_amount_cents);
  extras_amount_cents = sum results (λ r. r.extras_amount_cents);
  total_amount_cents = sum results (λ r. r.total_amount_cents);
  received_amount_cents = sum results (λ r. r.payment.received_amount_cents);
  cash_amount_cents = sum results (λ r. r.payment.cash_amount_cents);
  card_amount_cents = sum results (λ r. r.payment.card_amount_cents);
  voucher_amount_cents = sum results (λ r. r.payment.voucher_amount_cents);
  gift_amount_cents = sum results (λ r. r.payment.gift_amount_cents);
  pending_payment_amount_cents = sum results (λ r. r.payment.pending_payment_amount_cents);
  projected_amount_cents = sum results (λ r. r.projected_amount_cents);
  realized_amount_cents = sum results (λ r. r.realized_amount_cents);
  barber_amount_cents = sum_ℤ results (λ r. r.barber_amount_cents);
  establishment_amount_cents = sum_ℤ results (λ r. r.establishment_amount_cents);
  commission_amount_cents = sum results (λ r. r.commission_amount_cents);
  chair_rent_amount_cents = sum results (λ r. r.chair_rent_amount_cents);
}

unfoldable pub calculate_appointments_financials :
    (Instant → CalendarDate)
    → List Appointment
    → List AppointmentExtra
    → (ℕ → Option ℕ)
    → List BarberCompensationRule
    → Option (List ℕ)
    → FinancialTotals
calculate_appointments_financials zone appointments extras service_prices rules anchors =
    let results = base_results appointments extras service_prices rules in
    totals
      (rent_loop zone rules anchors (record { keys = []; results = results })
        (chronological appointments)).results

-- The appointments at the locations, of the barbers that the given ones have.
abbrev pub relevant : List Appointment → List Appointment → List Appointment
relevant appointments stored =
    filter
      (λ b.
        any (λ a. a.location_id == b.location_id) appointments
        && any (λ a. a.barber_id == b.barber_id) appointments)
      stored

unfoldable pub load_appointments_financials :
    (Instant → CalendarDate)
    → List Appointment
    → (ℕ → Option ℕ)
    → List AppointmentExtra
    → List BarberCompensationRule
    → Option (List Appointment)
    → FinancialTotals
load_appointments_financials zone [] service_prices extras rules stored =
    calculate_appointments_financials zone [] [] service_prices [] none
load_appointments_financials zone (a ∷ rest) service_prices extras rules none =
    calculate_appointments_financials zone (a ∷ rest) extras service_prices rules none
load_appointments_financials zone (a ∷ rest) service_prices extras rules (some stored) =
    calculate_appointments_financials zone (a ∷ rest) extras service_prices rules
      (some (get_chair_rent_anchor_appointment_ids zone (relevant (a ∷ rest) stored) rules))
