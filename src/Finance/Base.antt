-- ===== src/Finance/Base.antt =====
-- `sum` and `calculateBaseAppointmentFinancials` (server/appointment-finance.ts).
use barber_bookings.Common.{
  ℕ, ◌+◌, Bool, not, ◌&&◌, List, [], ◌∷◌, map, Option, none, some, leb, ltb, if◌then◌else◌,
}
use barber_bookings.Common.Int.{ℤ, pos, ◌+ℤ◌}
use barber_bookings.Common.Sort.{sort_by}
use barber_bookings.Schema.{Appointment, AppointmentExtra, BarberCompensationRule}
use barber_bookings.Schema.Enums.{
  BarberCompensationModel, ChairRentPeriod, follow_compensation, is_booked, is_completed, is_gift,
}
use barber_bookings.Finance.Amounts.{
  FinancialLine, PaymentAmounts, create_financial_line, extra, get_appointment_payment_amounts,
  get_appointment_price_cents, service,
}

-- `sum(values, select)` for amounts that are never negative, and for those that may be.
abbrev pub sum {ℓ} : {A : Type ℓ} → List A → (A → ℕ) → ℕ
sum [] select = 0
sum (x ∷ xs) select = select x + sum xs select

abbrev pub sum_ℤ {ℓ} : {A : Type ℓ} → List A → (A → ℤ) → ℤ
sum_ℤ [] select = pos 0
sum_ℤ (x ∷ xs) select = select x +ℤ sum_ℤ xs select

-- `AppointmentFinancialResult`, whose six amounts of the payment are the field `payment`.
pub record FinancialResult : Type 0 where
  pub appointment_id : ℕ
  pub location_id : ℕ
  pub barber_id : ℕ
  pub compensation_rule_id : Option ℕ
  pub compensation_model : BarberCompensationModel
  pub commission_percent : Option ℕ
  pub chair_rent_cents : Option ℕ
  pub chair_rent_period : Option ChairRentPeriod
  pub service_amount_cents : ℕ
  pub extras_amount_cents : ℕ
  pub total_amount_cents : ℕ
  pub payment : PaymentAmounts
  pub projected_amount_cents : ℕ
  pub realized_amount_cents : ℕ
  pub barber_amount_cents : ℤ
  pub establishment_amount_cents : ℤ
  pub commission_amount_cents : ℕ
  pub chair_rent_amount_cents : ℕ
  pub lines : List FinancialLine

abbrev pub is_realized : Appointment → Bool
is_realized a = is_completed a.status && not (is_gift a.payment_method)

abbrev pub extra_line : Bool → BarberCompensationRule → AppointmentExtra → FinancialLine
extra_line realized rule x =
    create_financial_line extra (some x.extra_definition_id) (some x.name_snapshot) (x.position + 1)
      x.financial_rule_snapshot x.amount_cents_snapshot realized rule

abbrev pub ordered_extras : List AppointmentExtra → List AppointmentExtra
ordered_extras extras = sort_by (λ x y. leb x.position y.position) extras

-- The line of the service, and one for each extra.
abbrev pub financial_lines :
    Appointment → List AppointmentExtra → ℕ → BarberCompensationRule → List FinancialLine
financial_lines a extras price rule =
    create_financial_line service a.service_id a.service_name_snapshot 0 follow_compensation price
      (is_realized a) rule
    ∷ map (extra_line (is_realized a) rule) (ordered_extras extras)

unfoldable pub calculate_base_appointment_financials :
    Appointment → List AppointmentExtra → (ℕ → Option ℕ) → BarberCompensationRule → FinancialResult
calculate_base_appointment_financials a extras service_prices rule =
    let price = get_appointment_price_cents a service_prices in
    let lines = financial_lines a extras price rule in
    let extras_amount = sum (ordered_extras extras) (λ x. x.amount_cents_snapshot) in
    let total = price + extras_amount in
    record {
      appointment_id = a.id;
      location_id = a.location_id;
      barber_id = a.barber_id;
      compensation_rule_id = if ltb 0 rule.id then some rule.id else none;
      compensation_model = rule.model;
      commission_percent = rule.commission_percent;
      chair_rent_cents = rule.chair_rent_cents;
      chair_rent_period = rule.chair_rent_period;
      service_amount_cents = price;
      extras_amount_cents = extras_amount;
      total_amount_cents = total;
      payment = get_appointment_payment_amounts a.status a.payment_method total;
      projected_amount_cents = if is_booked a.status then total else 0;
      realized_amount_cents = sum lines (λ line. line.realized_amount_cents);
      barber_amount_cents = sum_ℤ lines (λ line. line.split.barber_amount_cents);
      establishment_amount_cents = sum_ℤ lines (λ line. line.split.establishment_amount_cents);
      commission_amount_cents = sum lines (λ line. line.split.commission_amount_cents);
      chair_rent_amount_cents = 0;
      lines = lines;
    }
