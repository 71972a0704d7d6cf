-- ===== src/Schema/Enums.antt =====
-- The enumerations of shared/schema.ts, and their `===` tests.
use barber_bookings.Common.{ℕ, Bool, true, false, ◌==◌, ◌≡◌, ◌↔◌, arith}

pub data AppointmentStatus : Type 0 where
  booked completed cancelled late_cancelled no_show : AppointmentStatus

pub data AppointmentPaymentMethod : Type 0 where
  pending cash card voucher gift : AppointmentPaymentMethod

pub data BarberCompensationModel : Type 0 where
  none commission chair_rent : BarberCompensationModel

pub data ChairRentPeriod : Type 0 where
  day week month : ChairRentPeriod

pub data ExtraFinancialRule : Type 0 where
  follow_compensation barber establishment : ExtraFinancialRule

pub data ExtraPricingMode : Type 0 where
  fixed variable : ExtraPricingMode

abbrev status_rank : AppointmentStatus → ℕ
status_rank booked = 0
status_rank completed = 1
status_rank cancelled = 2
status_rank late_cancelled = 3
status_rank no_show = 4

unfoldable pub status_eq : AppointmentStatus → AppointmentStatus → Bool
status_eq s t = status_rank s == status_rank t

pub status_eq_iff : (s t : AppointmentStatus) → (status_eq s t ≡ true) ↔ (s ≡ t)
unfolding status_eq
status_eq_iff s t = ground arith

abbrev method_rank : AppointmentPaymentMethod → ℕ
method_rank pending = 0
method_rank cash = 1
method_rank card = 2
method_rank voucher = 3
method_rank gift = 4

unfoldable pub method_eq : AppointmentPaymentMethod → AppointmentPaymentMethod → Bool
method_eq s t = method_rank s == method_rank t

abbrev pub period_rank : ChairRentPeriod → ℕ
period_rank day = 0
period_rank week = 1
period_rank month = 2

abbrev pub is_booked : AppointmentStatus → Bool
is_booked booked = true
is_booked _ = false

abbrev pub is_completed : AppointmentStatus → Bool
is_completed completed = true
is_completed _ = false

abbrev pub is_gift : AppointmentPaymentMethod → Bool
is_gift gift = true
is_gift _ = false

abbrev pub is_chair_rent : BarberCompensationModel → Bool
is_chair_rent chair_rent = true
is_chair_rent _ = false

abbrev pub is_commission : BarberCompensationModel → Bool
is_commission commission = true
is_commission _ = false

abbrev pub is_fixed : ExtraPricingMode → Bool
is_fixed fixed = true
is_fixed variable = false

abbrev pub model_rank : BarberCompensationModel → ℕ
model_rank none = 0
model_rank commission = 1
model_rank chair_rent = 2
