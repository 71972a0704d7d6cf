-- ===== src/Finance/Amounts.antt =====
-- How one amount is rounded, split and paid (server/appointment-finance.ts), and
-- `getAppointmentPriceCents` (shared/appointment-service-terms.ts). Money is whole cents; what a chair
-- rent or a rule can make negative is an integer.
use barber_bookings.Common.{
  ℕ, String, ◌+◌, ◌*◌, ◌/◌, Bool, Option, none, some, if◌then◌else◌, get_or, ◌==◌,
}
use barber_bookings.Common.Int.{ℤ, pos, ◌-ℤ◌}
use barber_bookings.Schema.{Appointment, BarberCompensationRule}
use barber_bookings.Schema.Enums.{
  AppointmentPaymentMethod, AppointmentStatus, BarberCompensationModel, ExtraFinancialRule, pending,
  cash, card, voucher, gift, barber, establishment, follow_compensation, commission, chair_rent,
  is_completed,
}

pub record Split : Type 0 where
  pub barber_amount_cents : ℤ
  pub establishment_amount_cents : ℤ
  pub commission_amount_cents : ℕ

unfoldable pub round_percentage_cents : ℕ → ℕ → ℕ
round_percentage_cents amount_cents percent = (amount_cents * percent + 50) / 100

abbrev pub to_barber : ℕ → Split
to_barber amount = record {
  barber_amount_cents = pos amount;
  establishment_amount_cents = pos 0;
  commission_amount_cents = 0;
}

abbrev pub to_establishment : ℕ → Split
to_establishment amount = record {
  barber_amount_cents = pos 0;
  establishment_amount_cents = pos amount;
  commission_amount_cents = 0;
}

-- The share of the barber, and the rest.
abbrev pub share : ℕ → ℕ → Split
share amount barber_amount = record {
  barber_amount_cents = pos barber_amount;
  establishment_amount_cents = pos amount -ℤ pos barber_amount;
  commission_amount_cents = barber_amount;
}

abbrev pub split_by_model : ℕ → BarberCompensationModel → Option ℕ → Split
split_by_model amount commission percent =
    share amount (round_percentage_cents amount (get_or percent 0))
split_by_model amount chair_rent percent = to_barber amount
split_by_model amount BarberCompensationModel.none percent = to_establishment amount

unfoldable pub split_realized_amount : ℕ → ExtraFinancialRule → BarberCompensationRule → Split
split_realized_amount amount barber rule = to_barber amount
split_realized_amount amount establishment rule = to_establishment amount
split_realized_amount amount follow_compensation rule =
    split_by_model amount rule.model rule.commission_percent

pub data LineKind : Type 0 where
  service extra : LineKind

-- `AppointmentFinancialLine`, whose three amounts of the split are the field `split`.
pub record FinancialLine : Type 0 where
  pub kind : LineKind
  pub reference_id : Option ℕ
  pub name_snapshot : Option String
  pub position : ℕ
  pub financial_rule : ExtraFinancialRule
  pub amount_cents : ℕ
  pub realized_amount_cents : ℕ
  pub split : Split

unfoldable pub create_financial_line :
    LineKind
    → Option ℕ
    → Option String
    → ℕ
    → ExtraFinancialRule
    → ℕ
    → Bool
    → BarberCompensationRule
    → FinancialLine
create_financial_line kind reference_id name position financial_rule amount is_realized rule =
    let realized = if is_realized then amount else 0 in
    record {
      kind = kind;
      reference_id = reference_id;
      name_snapshot = name;
      position = position;
      financial_rule = financial_rule;
      amount_cents = amount;
      realized_amount_cents = realized;
      split = split_realized_amount realized financial_rule rule;
    }

pub record PaymentAmounts : Type 0 where
  pub received_amount_cents : ℕ
  pub cash_amount_cents : ℕ
  pub card_amount_cents : ℕ
  pub voucher_amount_cents : ℕ
  pub gift_amount_cents : ℕ
  pub pending_payment_amount_cents : ℕ

abbrev pub no_amounts : PaymentAmounts
no_amounts = record {
  received_amount_cents = 0;
  cash_amount_cents = 0;
  card_amount_cents = 0;
  voucher_amount_cents = 0;
  gift_amount_cents = 0;
  pending_payment_amount_cents = 0;
}

abbrev pub amounts_of : AppointmentPaymentMethod → ℕ → PaymentAmounts
amounts_of cash total = record no_amounts {
  cash_amount_cents = total;
  received_amount_cents = total;
}
amounts_of card total = record no_amounts {
  card_amount_cents = total;
  received_amount_cents = total;
}
amounts_of voucher total = record no_amounts { voucher_amount_cents = total }
amounts_of gift total = record no_amounts { gift_amount_cents = total }
amounts_of pending total = record no_amounts { pending_payment_amount_cents = total }

unfoldable pub get_appointment_payment_amounts :
    AppointmentStatus → AppointmentPaymentMethod → ℕ → PaymentAmounts
get_appointment_payment_amounts status method total =
    if is_completed status then amounts_of method total else no_amounts

-- The price in force when the appointment was made, or that of its service.
unfoldable pub get_appointment_price_cents : Appointment → (ℕ → Option ℕ) → ℕ
get_appointment_price_cents a service_prices = elim a.service_price_cents_snapshot [
  | some price ↦ price
  | none ↦ elim a.service_id [
    | none ↦ 0
    | some id ↦ if id == 0 then 0 else get_or (service_prices id) 0
  ]
]
