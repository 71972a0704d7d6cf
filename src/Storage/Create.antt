-- ===== src/Storage/Create.antt =====
-- `createAppointment` and `createAppointments` of `MemoryStorage` (server/storage.ts).
use barber_bookings.Common.{
  ℕ, ◌+◌, Bool, true, false, ◌&&◌, ◌||◌, List, [], ◌∷◌, ◌++◌, map, Option, none, some,
  if◌then◌else◌, length, take, get_or, is_some,
}
use barber_bookings.Schema.{Instant, Appointment, AppointmentExtra, CompensationSnapshot}
use barber_bookings.Schema.Enums.{booked, AppointmentPaymentMethod, AppointmentStatus, is_completed}
use barber_bookings.Schema.Events.{
  appointment_confirmation, appointment_reminder_day_before, appointment_key, confirmation,
  reminder_day_before,
}
use barber_bookings.Finance.Rules.{
  create_appointment_compensation_snapshot, get_compensation_rule_for_date,
}
use barber_bookings.Storage.State.{
  MemoryStorage, Action, Run, finished, threw, ◌>>=◌, ◌>>◌, pure, throw_if, gets, modify, has_text,
  CreateRequest, ExtraSnapshot, extras_not_editable, push_event, new_event,
}
use barber_bookings.Storage.Conflict.{assert_no_appointment_conflict}
use barber_bookings.Storage.Extras.{resolve_appointment_extra_snapshots}

unfoldable pub resolve_appointment_compensation_snapshot :
    MemoryStorage → ℕ → ℕ → Instant → CompensationSnapshot
resolve_appointment_compensation_snapshot s barber_id location_id start_time =
    create_appointment_compensation_snapshot
      (get_compensation_rule_for_date s.barber_compensation_rules barber_id location_id start_time)

abbrev pub no_compensation : CompensationSnapshot
no_compensation = record {
  compensation_rule_id_snapshot = none;
  compensation_model_snapshot = none;
  commission_percent_snapshot = none;
  chair_rent_cents_snapshot = none;
  chair_rent_period_snapshot = none;
}

abbrev pub is_completed_request : Option AppointmentStatus → Bool
is_completed_request none = false
is_completed_request (some status) = is_completed status

abbrev pub opt_in_at : Bool → Option Instant → Instant → Option Instant
opt_in_at opted given now = if opted then some (get_or given now) else none

-- The row of a request, under the id that it is given.
unfoldable pub new_appointment :
    Instant → ℕ → CompensationSnapshot → ℕ → CreateRequest → Appointment
new_appointment now id compensation revision r = record {
  id = id;
  location_id = get_or r.location_id 1;
  barber_id = r.barber_id;
  service_id = r.service_id;
  start_time = r.start_time;
  customer_name = r.customer_name;
  customer_email = r.customer_email;
  customer_phone = r.customer_phone;
  duration_minutes = r.duration_minutes;
  service_name_snapshot = r.service_name_snapshot;
  service_price_cents_snapshot = r.service_price_cents_snapshot;
  compensation = compensation;
  manual_outside_hours = get_or r.manual_outside_hours false;
  status = get_or r.status booked;
  cancel_token = r.cancel_token;
  cancelled_at = none;
  payment_method = get_or r.payment_method AppointmentPaymentMethod.pending;
  deposit_required = get_or r.deposit_required false;
  deposit_reason = r.deposit_reason;
  reschedule_revision = 0;
  notification_revision = revision;
  whatsapp_opt_in = get_or r.whatsapp_opt_in false;
  whatsapp_opt_in_at = opt_in_at (get_or r.whatsapp_opt_in false) r.whatsapp_opt_in_at now;
  series_id = r.series_id;
  series_occurrence_index = r.series_occurrence_index;
  created_at = now;
}

abbrev pub not_empty {ℓ} : {A : Type ℓ} → List A → Bool
not_empty [] = false
not_empty (x ∷ xs) = true

-- `nextIds.appointment++`
abbrev pub take_appointment_id : Action ℕ
take_appointment_id s =
    finished s.next_appointment (record s { next_appointment = s.next_appointment + 1 })

abbrev pub attach : ℕ → ExtraSnapshot → AppointmentExtra
attach id snapshot = record {
  appointment_id = id;
  extra_definition_id = snapshot.extra_definition_id;
  name_snapshot = snapshot.name_snapshot;
  amount_cents_snapshot = snapshot.amount_cents_snapshot;
  financial_rule_snapshot = snapshot.financial_rule_snapshot;
  position = snapshot.position;
  created_at = snapshot.created_at;
}

-- The two pushes that put the appointment and its extras into the tables.
abbrev pub add_rows : Appointment → List ExtraSnapshot → MemoryStorage → MemoryStorage
add_rows a snapshots s = record s {
  appointments = s.appointments ++ a ∷ [];
  appointment_extras = s.appointment_extras ++ map (attach a.id) snapshots;
}

abbrev pub confirmation_event : Instant → Appointment → Bool → MemoryStorage → MemoryStorage
confirmation_event now a false s = s
confirmation_event now a true s =
    push_event
      (λ id.
        new_event id a.id appointment_confirmation a.notification_revision
          (appointment_key a.id confirmation a.notification_revision) now a.start_time none
          (some a.start_time) now)
      s

abbrev pub reminder_event : Instant → Appointment → Option Instant → MemoryStorage → MemoryStorage
reminder_event now a none s = s
reminder_event now a (some available_at) s =
    push_event
      (λ id.
        new_event id a.id appointment_reminder_day_before a.notification_revision
          (appointment_key a.id reminder_day_before a.notification_revision) available_at
          a.start_time none none now)
      s

-- The second half of a round: the row takes an id, is checked, and is pushed with its extras and
-- events.
unfoldable pub insert_row :
    Instant → CreateRequest → CompensationSnapshot → List ExtraSnapshot → Action Appointment
insert_row now r compensation snapshots = do
  id ← take_appointment_id
  let revision = if r.notify_confirmation || is_some r.reminder_available_at then 1 else 0
  let a = new_appointment now id compensation revision r
  assert_no_appointment_conflict a none
  modify (add_rows a snapshots)
  modify (confirmation_event now a r.notify_confirmation)
  modify (reminder_event now a r.reminder_available_at)
  pure a

-- One round of the loop.
unfoldable pub create_one : Instant → CreateRequest → Action Appointment
create_one now r = do
  throw_if (has_text r.series_id && not_empty r.extras) extras_not_editable
  snapshots ← resolve_appointment_extra_snapshots now r.location_id r.extras []
  compensation ← gets (λ s.
      if is_completed_request r.status
      then resolve_appointment_compensation_snapshot s r.barber_id (get_or r.location_id 1)
          r.start_time
      else no_compensation)
  insert_row now r compensation snapshots

unfoldable pub create_loop : Instant → List CreateRequest → Action (List Appointment)
create_loop now [] = pure []
create_loop now (r ∷ rs) = do a ← create_one now r; created ← create_loop now rs; pure (a ∷ created)

-- The `catch`: the tables are cut to the lengths that they had, and the counters set back.
unfoldable pub roll_back : MemoryStorage → MemoryStorage → MemoryStorage
roll_back original s = record s {
  appointments = take (length original.appointments) s.appointments;
  appointment_extras = take (length original.appointment_extras) s.appointment_extras;
  next_appointment = original.next_appointment;
  appointment_notification_events =
      take (length original.appointment_notification_events) s.appointment_notification_events;
  next_event = original.next_event;
}

abbrev pub recover : {A : Type 0} → MemoryStorage → Run A → Run A
recover original (finished a s) = finished a s
recover original (threw e s) = threw e (roll_back original s)

unfoldable pub create_appointments : Instant → List CreateRequest → Action (List Appointment)
create_appointments now [] s = finished [] s
create_appointments now (r ∷ rs) s = recover s (create_loop now (r ∷ rs) s)

-- `[createdAppointment]`: a request that is alone gives one row.
unfoldable pub create_appointment : Instant → CreateRequest → Action (Option Appointment)
create_appointment now r = do created ← create_appointments now (r ∷ []); pure (first created)
  where
    first : List Appointment → Option Appointment
    first [] = none
    first (a ∷ rest) = some a
