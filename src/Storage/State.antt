-- ===== src/Storage/State.antt =====
-- `MemoryStorage` (server/storage.ts): the tables that the appointment operations use, the requests
-- that they take, the errors that they throw, and a method call as a computation that may throw.
-- What was written before a throw stays written unless the method takes it back. A call reads the
-- clock (`new Date()`) once, as an argument.
use barber_bookings.Common.{
  ℕ, String, ◌+◌, Bool, false, not, List, [], ◌∷◌, ◌++◌, Option, none, some, ◌==◌, if◌then◌else◌,
  str_eq,
}
use barber_bookings.Schema.{
  Instant, Appointment, AppointmentExtra, AppointmentSeries, BarberCompensationRule,
  ExtraDefinition,
}
use barber_bookings.Schema.Enums.{AppointmentPaymentMethod, AppointmentStatus, ExtraFinancialRule}
use barber_bookings.Schema.Events.{
  AppointmentNotificationEvent, AppointmentNotificationEventType, EventKey,
}

pub data StorageError : Type 0 where
  appointment_conflict : StorageError
  extra_ids_invalid extra_amount_invalid extra_unavailable extras_not_editable : StorageError
  extras_not_allowed_for_recurring duplicate_series too_few_occurrences : StorageError
  snapshot_mismatch occurrences_mismatch first_occurrence_mismatch : StorageError
  service_has_future_appointments : StorageError

pub record MemoryStorage : Type 0 where
  pub extra_definitions : List ExtraDefinition
  pub appointment_extras : List AppointmentExtra
  pub appointments : List Appointment
  pub appointment_series : List AppointmentSeries
  pub barber_compensation_rules : List BarberCompensationRule
  pub appointment_notification_events : List AppointmentNotificationEvent
  pub next_appointment : ℕ
  pub next_event : ℕ

-- Fields that are no integer, or one below 1, are refused alike; 0 stands for them.
pub record AppointmentExtraInput : Type 0 where
  pub extra_id : ℕ
  pub amount_cents : Option ℕ

-- `Omit<AppointmentExtra, "appointmentId">`
pub record ExtraSnapshot : Type 0 where
  pub extra_definition_id : ℕ
  pub name_snapshot : String
  pub amount_cents_snapshot : ℕ
  pub financial_rule_snapshot : ExtraFinancialRule
  pub position : ℕ
  pub created_at : Instant

-- `CreateAppointmentStorageRequest`; an absent and a null field are both `none`.
pub record CreateRequest : Type 0 where
  pub location_id : Option ℕ
  pub barber_id : ℕ
  pub service_id : Option ℕ
  pub start_time : Instant
  pub customer_name : String
  pub customer_email : Option String
  pub customer_phone : String
  pub duration_minutes : ℕ
  pub service_name_snapshot : Option String
  pub service_price_cents_snapshot : Option ℕ
  pub manual_outside_hours : Option Bool
  pub status : Option AppointmentStatus
  pub payment_method : Option AppointmentPaymentMethod
  pub cancel_token : String
  pub deposit_required : Option Bool
  pub deposit_reason : Option String
  pub whatsapp_opt_in : Option Bool
  pub whatsapp_opt_in_at : Option Instant
  pub notify_confirmation : Bool
  pub reminder_available_at : Option Instant
  pub series_id : Option String
  pub series_occurrence_index : Option ℕ
  pub extras : List AppointmentExtraInput

pub data Run (A : Type 0) : Type 0 where
  finished : A → MemoryStorage → Run A
  threw : StorageError → MemoryStorage → Run A

abbrev pub Action : Type 0 → Type 0
Action A = MemoryStorage → Run A

-- What follows a call is skipped if the call threw.
abbrev pub after : {A B : Type 0} → Run A → (A → Action B) → Run B
after (finished a s) k = k a s
after (threw e s) k = threw e s

infixl 5 ◌>>=◌ ◌>>◌
abbrev pub ◌>>=◌ : {A B : Type 0} → Action A → (A → Action B) → Action B
◌>>=◌ m k s = after (m s) k

abbrev pub ◌>>◌ : {B : Type 0} → Action (Unit {0}) → Action B → Action B
m >> k = m >>= λ _. k

abbrev pub pure : {A : Type 0} → A → Action A
pure a s = finished a s

abbrev pub throw_if : Bool → StorageError → Action (Unit {0})
throw_if b e s = if b then threw e s else finished tt s

abbrev pub gets : {A : Type 0} → (MemoryStorage → A) → Action A
gets f s = finished (f s) s

abbrev pub modify : (MemoryStorage → MemoryStorage) → Action (Unit {0})
modify f s = finished tt (f s)

-- A string that is truthy: neither null nor empty.
abbrev pub has_text : Option String → Bool
has_text none = false
has_text (some t) = not (str_eq t "")

-- `item.id === id`
abbrev pub has_id : ℕ → Appointment → Bool
has_id id a = a.id == id

-- `appointments[index] = updated`, where `index` is the first with the id.
unfoldable pub replace_appointment : ℕ → Appointment → List Appointment → List Appointment
replace_appointment id updated [] = []
replace_appointment id updated (a ∷ rest) =
    if a.id == id then updated ∷ rest else a ∷ replace_appointment id updated rest

-- The literal of a new event: its columns that report on a delivery are null.
unfoldable pub new_event :
    ℕ
    → ℕ
    → AppointmentNotificationEventType
    → ℕ
    → EventKey
    → Instant
    → Instant
    → Option Instant
    → Option Instant
    → Instant
    → AppointmentNotificationEvent
new_event id appointment_id event_type revision key available_at start previous new now = record {
  id = id;
  appointment_id = some appointment_id;
  series_id = none;
  event_type = event_type;
  event_revision = revision;
  event_key = key;
  available_at = available_at;
  appointment_start_time = start;
  previous_start_time = previous;
  new_start_time = new;
  payload_snapshot = none;
  created_at = now;
  updated_at = now;
}

-- `appointmentNotificationEvents.push({ id: nextIds.appointmentNotificationEvent++, … })`
abbrev pub push_event : (ℕ → AppointmentNotificationEvent) → MemoryStorage → MemoryStorage
push_event make s = record s {
  appointment_notification_events = s.appointment_notification_events ++ make s.next_event ∷ [];
  next_event = s.next_event + 1;
}

-- A series whose appointment changed counts one more revision.
abbrev touch : Instant → AppointmentSeries → AppointmentSeries
touch now series = record series {
  notification_revision = series.notification_revision + 1;
  updated_at = now;
}

unfoldable pub touch_series : Instant → String → List AppointmentSeries → List AppointmentSeries
touch_series now id [] = []
touch_series now id (series ∷ rest) =
    if str_eq series.id id then touch now series ∷ rest else series ∷ touch_series now id rest

abbrev pub bump_series : Instant → Option String → MemoryStorage → MemoryStorage
bump_series now none s = s
bump_series now (some id) s =
    if has_text (some id)
    then record s { appointment_series = touch_series now id s.appointment_series }
    else s
