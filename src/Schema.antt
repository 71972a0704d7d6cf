-- ===== src/Schema.antt =====
-- The rows of shared/schema.ts that the modelled code reads and writes. Instants are milliseconds
-- since 1970 (a stored `Date` is valid and not earlier), money is whole cents, identifiers are
-- positive integers. `Option` stands for a nullable column.
pub mod Enums
pub mod Events
use barber_bookings.Common.{ℕ, String, Bool, Option}
use Enums.{
  AppointmentStatus, AppointmentPaymentMethod, BarberCompensationModel, ChairRentPeriod,
  ExtraFinancialRule, ExtraPricingMode,
}

abbrev pub Instant : Type 0
Instant = ℕ

-- The five columns that `createAppointmentCompensationSnapshot` fills.
pub record CompensationSnapshot : Type 0 where
  pub compensation_rule_id_snapshot : Option ℕ
  pub compensation_model_snapshot : Option BarberCompensationModel
  pub commission_percent_snapshot : Option ℕ
  pub chair_rent_cents_snapshot : Option ℕ
  pub chair_rent_period_snapshot : Option ChairRentPeriod

pub record Appointment : Type 0 where
  pub id : ℕ
  pub location_id : ℕ
  pub barber_id : ℕ
  pub service_id : Option ℕ
  pub start_time : Instant
  pub customer_name : String
  pub customer_email : Option String
  pub customer_phone : String
  pub duration_minutes : ℕ
  pub service_name_snapshot : Option String
  pub service_price_cents_snapshot : Option ℕ
  pub compensation : CompensationSnapshot
  pub manual_outside_hours : Bool
  pub status : AppointmentStatus
  pub cancel_token : String
  pub cancelled_at : Option Instant
  pub payment_method : AppointmentPaymentMethod
  pub deposit_required : Bool
  pub deposit_reason : Option String
  pub reschedule_revision : ℕ
  pub notification_revision : ℕ
  pub whatsapp_opt_in : Bool
  pub whatsapp_opt_in_at : Option Instant
  pub series_id : Option String
  pub series_occurrence_index : Option ℕ
  pub created_at : Instant

pub record ExtraDefinition : Type 0 where
  pub id : ℕ
  pub location_id : ℕ
  pub name : String
  pub pricing_mode : ExtraPricingMode
  pub amount_cents : Option ℕ
  pub financial_rule : ExtraFinancialRule
  pub is_active : Bool

pub record AppointmentExtra : Type 0 where
  pub appointment_id : ℕ
  pub extra_definition_id : ℕ
  pub name_snapshot : String
  pub amount_cents_snapshot : ℕ
  pub financial_rule_snapshot : ExtraFinancialRule
  pub position : ℕ
  pub created_at : Instant

pub record BarberCompensationRule : Type 0 where
  pub id : ℕ
  pub barber_id : ℕ
  pub location_id : ℕ
  pub model : BarberCompensationModel
  pub commission_percent : Option ℕ
  pub chair_rent_cents : Option ℕ
  pub chair_rent_period : Option ChairRentPeriod
  pub effective_from : Instant
  pub created_at : Instant

pub record AppointmentSeries : Type 0 where
  pub id : String
  pub location_id : ℕ
  pub barber_id : ℕ
  pub service_id : ℕ
  pub customer_name : String
  pub customer_email : Option String
  pub customer_phone : String
  pub whatsapp_opt_in : Bool
  pub whatsapp_opt_in_at : Option Instant
  pub interval_weeks : ℕ
  pub duration_months : ℕ
  pub occurrence_count : ℕ
  pub first_start_time : Instant
  pub notification_revision : ℕ
  pub status : String
  pub created_at : Instant
  pub updated_at : Instant
