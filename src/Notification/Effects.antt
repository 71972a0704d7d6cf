-- ===== src/Notification/Effects.antt =====
-- What the notification worker (server/appointment-notifications.ts) asks of its surroundings, and the
-- worker as the tree of its runs. A run stops at each `await`: others may act on the storage before the
-- answer comes. `none` is the answer of a sender that throws.
use barber_bookings.Common.{ℕ, String, Bool, List, Option}
use barber_bookings.Schema.{Appointment, AppointmentSeries, Instant}
use barber_bookings.Schema.Events.{
  AppointmentNotificationEventType, EventKey, NotificationSnapshot, Occurrence, Place,
}
use barber_bookings.Delivery.Calls.{Call}
use barber_bookings.Delivery.Columns.{DeliveryRow, WhatsappStatus}
use barber_bookings.Delivery.Receipts.{Receipt}

-- `MetaAppointmentTemplateParams`, and the event in whose name the message is sent. The text of the
-- periodicity is made from the weeks.
pub record WhatsappMessage : Type 0 where
  pub event_id : ℕ
  pub recipient : String
  pub event_type : AppointmentNotificationEventType
  pub customer_name : String
  pub location_name : String
  pub service_name : String
  pub barber_name : String
  pub start_time : Instant
  pub last_start_time : Option Instant
  pub time_zone : String
  pub address : String
  pub management_token : Option String
  pub interval_weeks : Option ℕ
  pub total_appointments : Option ℕ

-- `MetaTemplateDeliveryResult`; its provider is "meta".
pub record WhatsappResult : Type 0 where
  pub outcome : WhatsappStatus
  pub template_name : String
  pub provider_message_id : Option String
  pub provider_status : String
  pub response_status : Option ℕ
  pub error_code : Option String

-- The `common` part of an e-mail.
pub record EmailCommon : Type 0 where
  pub event_id : ℕ
  pub customer_name : String
  pub customer_email : Option String
  pub barber_name : String
  pub service_name : String
  pub start_time : Instant
  pub location_name : String
  pub location_time_zone : String
  pub idempotency_key : EventKey

-- The token, the minutes and the address of a management e-mail.
pub record EmailManagement : Type 0 where
  pub cancel_token : String
  pub duration_minutes : ℕ
  pub location_address : String

pub data EmailMessage : Type 0 where
  confirmation_email : EmailCommon → EmailManagement → Bool → Option String → EmailMessage
  reschedule_email : EmailCommon → EmailManagement → EmailMessage
  updated_email : EmailCommon → EmailManagement → EmailMessage
  reminder_email : EmailCommon → EmailManagement → EmailMessage
  cancellation_email : EmailCommon → Bool → EmailMessage
  recurring_email : ℕ → NotificationSnapshot → List Occurrence → EventKey → EmailMessage

pub record EmailResult : Type 0 where
  pub sent : Bool
  pub provider_message_id : Option String
  pub error_code : Option String

-- The names of the barber and of the service, and the location, where they are found.
pub record LookedUp : Type 0 where
  pub barber_name : Option String
  pub service_name : Option String
  pub location : Option Place

-- What the storage has of a series: its row, and its appointments in their order.
pub record SeriesFound : Type 0 where
  pub series : Option AppointmentSeries
  pub appointments : List Appointment

pub data Effect : Type 0 where
  clock : Effect
  outbox : Call → Effect
  get_event get_appointment : ℕ → Effect
  look_up : Appointment → Effect
  get_series : String → Effect
  link_receipts : String → ℕ → Effect
  get_event_by_provider_id get_receipts : String → Effect
  send_whatsapp : WhatsappMessage → Effect
  send_email : EmailMessage → Effect

abbrev pub Answer : Effect → Type 0
Answer clock = Instant
Answer (outbox call) = Option DeliveryRow
Answer (get_event id) = Option DeliveryRow
Answer (get_appointment id) = Option Appointment
Answer (look_up a) = LookedUp
Answer (get_series id) = SeriesFound
Answer (link_receipts message id) = Unit {0}
Answer (get_event_by_provider_id message) = Option DeliveryRow
Answer (get_receipts message) = List Receipt
Answer (send_whatsapp m) = Option WhatsappResult
Answer (send_email m) = Option EmailResult

pub data Program (A : Type 0) : Type 0 where
  pure : A → Program A
  await : (e : Effect) → (Answer e → Program A) → Program A

infixl 5 ◌>>=◌ ◌>>◌
abbrev pub ◌>>=◌ : {A B : Type 0} → Program A → (A → Program B) → Program B
pure a >>= f = f a
await e k >>= f = await e (λ a. k a >>= f)

abbrev pub ◌>>◌ : {A B : Type 0} → Program A → Program B → Program B
m >> n = m >>= λ _. n

abbrev pub ask : (e : Effect) → Program (Answer e)
ask e = await e pure
