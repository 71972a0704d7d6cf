-- ===== src/Storage/Patch.antt =====
-- `Partial<Omit<Appointment, "id">>`, the spread of such a patch, and `getAppointmentUpdateChanges`
-- (server/storage.ts). `none` stands for a key that the patch does not have.
use barber_bookings.Common.{
  ℕ, String, Bool, true, false, not, ◌&&◌, ◌||◌, Option, none, some, ◌==◌, if◌then◌else◌, get_or,
  opt_eq, str_eq,
}
use barber_bookings.Schema.{Appointment, CompensationSnapshot, Instant}
use barber_bookings.Schema.Enums.{
  AppointmentPaymentMethod, AppointmentStatus, BarberCompensationModel, ChairRentPeriod, is_booked,
  status_eq, method_eq, period_rank, model_rank, cancelled, late_cancelled,
}
use barber_bookings.Schema.Events.{
  AppointmentNotificationEventType, appointment_cancelled, appointment_rescheduled,
  appointment_updated,
}

pub record Patch : Type 0 where
  pub location_id : Option ℕ
  pub barber_id : Option ℕ
  pub service_id : Option (Option ℕ)
  pub start_time : Option Instant
  pub customer_name : Option String
  pub customer_email : Option (Option String)
  pub customer_phone : Option String
  pub duration_minutes : Option ℕ
  pub service_name_snapshot : Option (Option String)
  pub service_price_cents_snapshot : Option (Option ℕ)
  pub compensation_rule_id_snapshot : Option (Option ℕ)
  pub compensation_model_snapshot : Option (Option BarberCompensationModel)
  pub commission_percent_snapshot : Option (Option ℕ)
  pub chair_rent_cents_snapshot : Option (Option ℕ)
  pub chair_rent_period_snapshot : Option (Option ChairRentPeriod)
  pub manual_outside_hours : Option Bool
  pub status : Option AppointmentStatus
  pub cancel_token : Option String
  pub cancelled_at : Option (Option Instant)
  pub payment_method : Option AppointmentPaymentMethod
  pub deposit_required : Option Bool
  pub deposit_reason : Option (Option String)
  pub reschedule_revision : Option ℕ
  pub notification_revision : Option ℕ
  pub whatsapp_opt_in : Option Bool
  pub whatsapp_opt_in_at : Option (Option Instant)
  pub series_id : Option (Option String)
  pub series_occurrence_index : Option (Option ℕ)
  pub created_at : Option Instant

abbrev pub no_patch : Patch
no_patch = record {
  location_id = none;
  barber_id = none;
  service_id = none;
  start_time = none;
  customer_name = none;
  customer_email = none;
  customer_phone = none;
  duration_minutes = none;
  service_name_snapshot = none;
  service_price_cents_snapshot = none;
  compensation_rule_id_snapshot = none;
  compensation_model_snapshot = none;
  commission_percent_snapshot = none;
  chair_rent_cents_snapshot = none;
  chair_rent_period_snapshot = none;
  manual_outside_hours = none;
  status = none;
  cancel_token = none;
  cancelled_at = none;
  payment_method = none;
  deposit_required = none;
  deposit_reason = none;
  reschedule_revision = none;
  notification_revision = none;
  whatsapp_opt_in = none;
  whatsapp_opt_in_at = none;
  series_id = none;
  series_occurrence_index = none;
  created_at = none;
}

-- `{ ...current, ...patch }`
unfoldable pub apply_patch : Patch → Appointment → Appointment
apply_patch p a = record {
  id = a.id;
  location_id = get_or p.location_id a.location_id;
  barber_id = get_or p.barber_id a.barber_id;
  service_id = get_or p.service_id a.service_id;
  start_time = get_or p.start_time a.start_time;
  customer_name = get_or p.customer_name a.customer_name;
  customer_email = get_or p.customer_email a.customer_email;
  customer_phone = get_or p.customer_phone a.customer_phone;
  duration_minutes = get_or p.duration_minutes a.duration_minutes;
  service_name_snapshot = get_or p.service_name_snapshot a.service_name_snapshot;
  service_price_cents_snapshot =
      get_or p.service_price_cents_snapshot a.service_price_cents_snapshot;
  compensation = record {
    compensation_rule_id_snapshot =
        get_or p.compensation_rule_id_snapshot a.compensation.compensation_rule_id_snapshot;
    compensation_model_snapshot =
        get_or p.compensation_model_snapshot a.compensation.compensation_model_snapshot;
    commission_percent_snapshot =
        get_or p.commission_percent_snapshot a.compensation.commission_percent_snapshot;
    chair_rent_cents_snapshot =
        get_or p.chair_rent_cents_snapshot a.compensation.chair_rent_cents_snapshot;
    chair_rent_period_snapshot =
        get_or p.chair_rent_period_snapshot a.compensation.chair_rent_period_snapshot;
  };
  manual_outside_hours = get_or p.manual_outside_hours a.manual_outside_hours;
  status = get_or p.status a.status;
  cancel_token = get_or p.cancel_token a.cancel_token;
  cancelled_at = get_or p.cancelled_at a.cancelled_at;
  payment_method = get_or p.payment_method a.payment_method;
  deposit_required = get_or p.deposit_required a.deposit_required;
  deposit_reason = get_or p.deposit_reason a.deposit_reason;
  reschedule_revision = get_or p.reschedule_revision a.reschedule_revision;
  notification_revision = get_or p.notification_revision a.notification_revision;
  whatsapp_opt_in = get_or p.whatsapp_opt_in a.whatsapp_opt_in;
  whatsapp_opt_in_at = get_or p.whatsapp_opt_in_at a.whatsapp_opt_in_at;
  series_id = get_or p.series_id a.series_id;
  series_occurrence_index = get_or p.series_occurrence_index a.series_occurrence_index;
  created_at = get_or p.created_at a.created_at;
}

abbrev pub bool_eq : Bool → Bool → Bool
bool_eq true b = b
bool_eq false b = not b

abbrev pub opt_str_eq : Option String → Option String → Bool
opt_str_eq none none = true
opt_str_eq none (some t) = false
opt_str_eq (some s) none = false
opt_str_eq (some s) (some t) = str_eq s t

abbrev opt_rank : {A : Type 0} → (A → ℕ) → Option A → Option ℕ
opt_rank rank none = none
opt_rank rank (some a) = some (rank a)

same_compensation : CompensationSnapshot → CompensationSnapshot → Bool
same_compensation a b =
    opt_eq a.compensation_rule_id_snapshot b.compensation_rule_id_snapshot
    && opt_eq (opt_rank model_rank a.compensation_model_snapshot)
        (opt_rank model_rank b.compensation_model_snapshot)
    && opt_eq a.commission_percent_snapshot b.commission_percent_snapshot
    && opt_eq a.chair_rent_cents_snapshot b.chair_rent_cents_snapshot
    && opt_eq (opt_rank period_rank a.chair_rent_period_snapshot)
        (opt_rank period_rank b.chair_rent_period_snapshot)

abbrev pub same_contact : Appointment → Appointment → Bool
same_contact a b =
    str_eq a.customer_name b.customer_name
    && opt_str_eq a.customer_email b.customer_email
    && str_eq a.customer_phone b.customer_phone

abbrev pub same_delivery_preference : Appointment → Appointment → Bool
same_delivery_preference a b =
    bool_eq a.whatsapp_opt_in b.whatsapp_opt_in && opt_eq a.whatsapp_opt_in_at b.whatsapp_opt_in_at

-- `changedFields.length === 0`: no field but the notification revision differs.
unfoldable pub unchanged : Appointment → Appointment → Bool
unfolding same_compensation
unchanged a b =
    (a.location_id == b.location_id)
    && (a.barber_id == b.barber_id)
    && opt_eq a.service_id b.service_id
    && (a.start_time == b.start_time)
    && same_contact a b
    && (a.duration_minutes == b.duration_minutes)
    && opt_str_eq a.service_name_snapshot b.service_name_snapshot
    && opt_eq a.service_price_cents_snapshot b.service_price_cents_snapshot
    && same_compensation a.compensation b.compensation
    && bool_eq a.manual_outside_hours b.manual_outside_hours
    && status_eq a.status b.status
    && str_eq a.cancel_token b.cancel_token
    && opt_eq a.cancelled_at b.cancelled_at
    && method_eq a.payment_method b.payment_method
    && bool_eq a.deposit_required b.deposit_required
    && opt_str_eq a.deposit_reason b.deposit_reason
    && (a.reschedule_revision == b.reschedule_revision)
    && same_delivery_preference a b
    && opt_str_eq a.series_id b.series_id
    && opt_eq a.series_occurrence_index b.series_occurrence_index
    && (a.created_at == b.created_at)

-- The fields of the result that the callers read.
pub record Changes : Type 0 where
  pub candidate : Appointment
  pub any_changed : Bool
  pub start_changed : Bool
  pub barber_changed : Bool
  pub service_changed : Bool
  pub service_name_changed : Bool
  pub duration_changed : Bool
  pub contact_changed : Bool
  pub delivery_preference_changed : Bool
  pub status_changed : Bool
  pub notification_event_type : Option AppointmentNotificationEventType

abbrev is_cancellation : AppointmentStatus → Bool
is_cancellation cancelled = true
is_cancellation late_cancelled = true
is_cancellation _ = false

unfoldable pub get_appointment_update_changes : Appointment → Patch → Changes
get_appointment_update_changes current patch =
    let candidate = apply_patch patch current in
    let start_changed = not (current.start_time == candidate.start_time) in
    let barber_changed = not (current.barber_id == candidate.barber_id) in
    let service_changed = not (opt_eq current.service_id candidate.service_id) in
    let name_changed =
      not (opt_str_eq current.service_name_snapshot candidate.service_name_snapshot) in
    let duration_changed = not (current.duration_minutes == candidate.duration_minutes) in
    let status_changed = not (status_eq current.status candidate.status) in
    let both_booked = is_booked current.status && is_booked candidate.status in
    record {
      candidate = candidate;
      any_changed = not (unchanged current candidate);
      start_changed = start_changed;
      barber_changed = barber_changed;
      service_changed = service_changed;
      service_name_changed = name_changed;
      duration_changed = duration_changed;
      contact_changed = not (same_contact current candidate);
      delivery_preference_changed = not (same_delivery_preference current candidate);
      status_changed = status_changed;
      notification_event_type =
          if is_booked current.status && status_changed && is_cancellation candidate.status
          then some appointment_cancelled
          else if both_booked && start_changed
          then some appointment_rescheduled
          else if both_booked
              && (barber_changed || service_changed || name_changed || duration_changed)
          then some appointment_updated
          else none;
    }
