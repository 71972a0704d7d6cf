-- ===== src/Delivery/Columns.antt =====
-- The columns of an event that report on its delivery (shared/schema.ts), and the change of a row.
use barber_bookings.Common.{
  ℕ, String, Bool, List, [], ◌∷◌, Option, none, some, get_or, if◌then◌else◌,
}
use barber_bookings.Schema.{Instant}
use barber_bookings.Schema.Events.{AppointmentNotificationEvent}

pub data WhatsappStatus : Type 0 where
  pending accepted sent delivered read failed unknown skipped : WhatsappStatus

pub data EmailStatus : Type 0 where
  not_needed sending email_sent email_failed email_skipped : EmailStatus

-- A row: the event, and its columns on the delivery.
pub record DeliveryRow : Type 0 where
  pub event : AppointmentNotificationEvent
  pub provider : Option String
  pub template_name : Option String
  pub whatsapp_status : WhatsappStatus
  pub provider_message_id : Option String
  pub provider_status : Option String
  pub response_status : Option ℕ
  pub error_code : Option String
  pub processing_started_at : Option Instant
  pub processing_completed_at : Option Instant
  pub whatsapp_attempted_at : Option Instant
  pub whatsapp_accepted_at : Option Instant
  pub sent_at : Option Instant
  pub delivered_at : Option Instant
  pub read_at : Option Instant
  pub failed_at : Option Instant
  pub last_provider_timestamp : Option Instant
  pub webhook_fallback_claimed_at : Option Instant
  pub email_status : EmailStatus
  pub email_provider_message_id : Option String
  pub email_error_code : Option String
  pub email_attempted_at : Option Instant
  pub email_sent_at : Option Instant

-- The columns on the delivery that a patch may hold; `none` for one that it leaves out.
pub record DeliveryPatch : Type 0 where
  pub provider : Option (Option String)
  pub template_name : Option (Option String)
  pub whatsapp_status : Option WhatsappStatus
  pub provider_message_id : Option (Option String)
  pub provider_status : Option (Option String)
  pub response_status : Option (Option ℕ)
  pub error_code : Option (Option String)
  pub processing_started_at : Option (Option Instant)
  pub processing_completed_at : Option (Option Instant)
  pub whatsapp_attempted_at : Option (Option Instant)
  pub whatsapp_accepted_at : Option (Option Instant)
  pub sent_at : Option (Option Instant)
  pub delivered_at : Option (Option Instant)
  pub read_at : Option (Option Instant)
  pub failed_at : Option (Option Instant)
  pub last_provider_timestamp : Option (Option Instant)
  pub webhook_fallback_claimed_at : Option (Option Instant)
  pub email_status : Option EmailStatus
  pub email_provider_message_id : Option (Option String)
  pub email_error_code : Option (Option String)
  pub email_attempted_at : Option (Option Instant)
  pub email_sent_at : Option (Option Instant)

abbrev pub no_patch : DeliveryPatch
no_patch = record {
  provider = none;
  template_name = none;
  whatsapp_status = none;
  provider_message_id = none;
  provider_status = none;
  response_status = none;
  error_code = none;
  processing_started_at = none;
  processing_completed_at = none;
  whatsapp_attempted_at = none;
  whatsapp_accepted_at = none;
  sent_at = none;
  delivered_at = none;
  read_at = none;
  failed_at = none;
  last_provider_timestamp = none;
  webhook_fallback_claimed_at = none;
  email_status = none;
  email_provider_message_id = none;
  email_error_code = none;
  email_attempted_at = none;
  email_sent_at = none;
}

abbrev pub updated : Instant → AppointmentNotificationEvent → AppointmentNotificationEvent
updated now event = record event { updated_at = now }

-- `{ ...row, ...patch, updatedAt: new Date() }`
unfoldable pub apply_patch : Instant → DeliveryPatch → DeliveryRow → DeliveryRow
apply_patch now p row = record {
  event = updated now row.event;
  provider = get_or p.provider row.provider;
  template_name = get_or p.template_name row.template_name;
  whatsapp_status = get_or p.whatsapp_status row.whatsapp_status;
  provider_message_id = get_or p.provider_message_id row.provider_message_id;
  provider_status = get_or p.provider_status row.provider_status;
  response_status = get_or p.response_status row.response_status;
  error_code = get_or p.error_code row.error_code;
  processing_started_at = get_or p.processing_started_at row.processing_started_at;
  processing_completed_at = get_or p.processing_completed_at row.processing_completed_at;
  whatsapp_attempted_at = get_or p.whatsapp_attempted_at row.whatsapp_attempted_at;
  whatsapp_accepted_at = get_or p.whatsapp_accepted_at row.whatsapp_accepted_at;
  sent_at = get_or p.sent_at row.sent_at;
  delivered_at = get_or p.delivered_at row.delivered_at;
  read_at = get_or p.read_at row.read_at;
  failed_at = get_or p.failed_at row.failed_at;
  last_provider_timestamp = get_or p.last_provider_timestamp row.last_provider_timestamp;
  webhook_fallback_claimed_at =
      get_or p.webhook_fallback_claimed_at row.webhook_fallback_claimed_at;
  email_status = get_or p.email_status row.email_status;
  email_provider_message_id = get_or p.email_provider_message_id row.email_provider_message_id;
  email_error_code = get_or p.email_error_code row.email_error_code;
  email_attempted_at = get_or p.email_attempted_at row.email_attempted_at;
  email_sent_at = get_or p.email_sent_at row.email_sent_at;
}

abbrev pub Rows : Type 0
Rows = List DeliveryRow

-- The row that a call returns, and the table after it.
pub record Claimed : Type 0 where
  pub row : Option DeliveryRow
  pub rows : Rows

abbrev pub found : DeliveryRow → Rows → Claimed
found row rest = record { row = some row; rows = row ∷ rest }

abbrev pub behind : DeliveryRow → Claimed → Claimed
behind row c = record { row = c.row; rows = row ∷ c.rows }

-- `find` or `findIndex`, then a change of the row that was found.
unfoldable pub change_first : (DeliveryRow → Bool) → (DeliveryRow → DeliveryRow) → Rows → Claimed
change_first test change [] = record { row = none; rows = [] }
change_first test change (row ∷ rest) =
    let later = change_first test change rest in
    if test row then found (change row) rest else behind row later
