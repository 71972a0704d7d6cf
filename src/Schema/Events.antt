-- ===== src/Schema/Events.antt =====
-- Rows of `appointmentNotificationEvents` (shared/schema.ts). The columns that report on a delivery
-- are null when the storage creates an event; `whatsapp_status` is then "pending" and
-- `email_status` "not_needed". They are in the rows of Delivery.
use barber_bookings.Common.{ℕ, String, Bool, Option, List}

pub data AppointmentNotificationEventType : Type 0 where
  appointment_confirmation appointment_rescheduled appointment_updated appointment_cancelled :
      AppointmentNotificationEventType
  appointment_recurring_confirmation appointment_reminder_day_before :
      AppointmentNotificationEventType

pub data KeyLabel : Type 0 where
  confirmation reminder_day_before rescheduled updated cancelled : KeyLabel

-- `appointment:${id}:${label}:${revision}` and `series:${id}:recurring_confirmation:${revision}`.
pub data EventKey : Type 0 where
  appointment_key : ℕ → KeyLabel → ℕ → EventKey
  series_key : String → ℕ → EventKey

pub record Place : Type 0 where
  pub id : ℕ
  pub name : String
  pub address : String
  pub timezone : String

pub record Named : Type 0 where
  pub id : ℕ
  pub name : String

pub record Recurrence : Type 0 where
  pub interval_weeks : ℕ
  pub duration_months : ℕ
  pub occurrence_count : ℕ

pub record Occurrence : Type 0 where
  pub appointment_id : ℕ
  pub occurrence_index : ℕ
  pub start_time : ℕ

-- The snapshot without `seriesId` and `occurrences`, as a request carries it.
pub record NotificationSnapshot : Type 0 where
  pub customer_name : String
  pub customer_email : Option String
  pub customer_phone : String
  pub whatsapp_opt_in : Bool
  pub location : Place
  pub service : Named
  pub barber : Named
  pub recurrence : Recurrence

-- `startTime` is kept as an instant in place of its ISO text.
pub record RecurringNotificationSnapshot : Type 0 where
  pub snapshot : NotificationSnapshot
  pub series_id : String
  pub occurrences : List Occurrence

pub record AppointmentNotificationEvent : Type 0 where
  pub id : ℕ
  pub appointment_id : Option ℕ
  pub series_id : Option String
  pub event_type : AppointmentNotificationEventType
  pub event_revision : ℕ
  pub event_key : EventKey
  pub available_at : ℕ
  pub appointment_start_time : ℕ
  pub previous_start_time : Option ℕ
  pub new_start_time : Option ℕ
  pub payload_snapshot : Option RecurringNotificationSnapshot
  pub created_at : ℕ
  pub updated_at : ℕ
