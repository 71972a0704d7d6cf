-- ===== src/Notification/Messages.antt =====
-- The patches of the worker and the messages that it sends by WhatsApp
-- (server/appointment-notifications.ts; `buildMetaRecurringTemplateParams` of server/whatsapp.ts).
use barber_bookings.Common.{
  ℕ, String, not, ◌&&◌, ◌||◌, List, [], ◌∷◌, Option, none, some, ltb, ◌==◌, get_or, length,
  if◌then◌else◌,
}
use barber_bookings.Common.Sort.{sort_by}
use barber_bookings.Schema.{Appointment, Instant}
use barber_bookings.Schema.Events.{
  Occurrence, RecurringNotificationSnapshot, appointment_recurring_confirmation,
}
use barber_bookings.Storage.State.{has_text}
use barber_bookings.Delivery.Columns.{
  DeliveryPatch, DeliveryRow, email_skipped, failed, no_patch, skipped, unknown,
}
use barber_bookings.Notification.Effects.{
  Program, WhatsappMessage, WhatsappResult, pure, ◌>>=◌, ◌>>◌,
}
use barber_bookings.Notification.{
  Channel, CoreResult, Details, is_accepted_now, no_channel, update_event, went,
}

abbrev pub skip_both : String → Instant → DeliveryPatch
skip_both reason now = record no_patch {
  whatsapp_status = some skipped;
  error_code = some (some reason);
  email_status = some email_skipped;
  email_error_code = some (some reason);
}

abbrev pub skipped_both : ℕ → String → Program CoreResult
skipped_both id reason = update_event id (skip_both reason) >> pure (went no_channel)

abbrev pub skip_whatsapp : Option String → String → Instant → DeliveryPatch
skip_whatsapp template reason now = record no_patch {
  provider = some (some "meta");
  template_name = some template;
  whatsapp_status = some skipped;
  error_code = some (some reason);
}

abbrev pub interrupted : Instant → DeliveryPatch
interrupted now = record no_patch {
  whatsapp_status = some unknown;
  provider_status = some (some "META_ATTEMPT_INTERRUPTED");
  error_code = some (some "META_ATTEMPT_INTERRUPTED");
}

abbrev pub whatsapp_result : Option String → Option WhatsappResult → WhatsappResult
whatsapp_result template (some result) = result
whatsapp_result template none = record {
  outcome = failed;
  template_name = get_or template "";
  provider_message_id = none;
  provider_status = "META_UNEXPECTED_ERROR";
  response_status = none;
  error_code = some "META_UNEXPECTED_ERROR";
}

abbrev pub whatsapp_outcome : WhatsappResult → Instant → DeliveryPatch
whatsapp_outcome result now = record no_patch {
  provider = some (some "meta");
  template_name = some (some result.template_name);
  whatsapp_status = some result.outcome;
  provider_message_id = some result.provider_message_id;
  provider_status = some (some result.provider_status);
  response_status = some result.response_status;
  error_code = some result.error_code;
  whatsapp_accepted_at = some (if is_accepted_now result.outcome then some now else none);
}

-- `result.outcome === "accepted" && result.providerMessageId`
abbrev pub accepted_id : WhatsappResult → Option String
accepted_id result =
    if is_accepted_now result.outcome && has_text result.provider_message_id
    then result.provider_message_id
    else none

-- The occurrence with the least index, and with the greatest.
abbrev in_order : List Occurrence → List Occurrence
in_order = sort_by (λ a b. ltb a.occurrence_index b.occurrence_index)

last_of : Occurrence → List Occurrence → Occurrence
last_of o [] = o
last_of o (next ∷ rest) = last_of next rest

unfoldable pub recurring_message :
    ℕ → RecurringNotificationSnapshot → List Occurrence → Option WhatsappMessage
unfolding last_of
recurring_message id snapshot [] = none
recurring_message id snapshot (first ∷ rest) = some (record {
  event_id = id;
  recipient = snapshot.snapshot.customer_phone;
  event_type = appointment_recurring_confirmation;
  customer_name = snapshot.snapshot.customer_name;
  location_name = snapshot.snapshot.location.name;
  service_name = snapshot.snapshot.service.name;
  barber_name = snapshot.snapshot.barber.name;
  start_time = first.start_time;
  last_start_time = some ((last_of first rest).start_time);
  time_zone = snapshot.snapshot.location.timezone;
  address = snapshot.snapshot.location.address;
  management_token = none;
  interval_weeks = some snapshot.snapshot.recurrence.interval_weeks;
  total_appointments = some snapshot.snapshot.recurrence.occurrence_count;
})

-- `none` if it throws.
unfoldable pub build_meta_recurring_template_params :
    ℕ → RecurringNotificationSnapshot → Option WhatsappMessage
unfolding recurring_message
build_meta_recurring_template_params id snapshot =
    if ltb (length snapshot.occurrences) 2
      || not (length snapshot.occurrences == snapshot.snapshot.recurrence.occurrence_count)
    then none
    else recurring_message id snapshot (in_order snapshot.occurrences)

unfoldable pub single_message : Appointment → DeliveryRow → Details → WhatsappMessage
single_message a row details = record {
  event_id = row.event.id;
  recipient = a.customer_phone;
  event_type = row.event.event_type;
  customer_name = a.customer_name;
  location_name = details.location_name;
  service_name = details.service_name;
  barber_name = details.barber_name;
  start_time = row.event.appointment_start_time;
  last_start_time = none;
  time_zone = details.location_time_zone;
  address = details.location_address;
  management_token = some a.cancel_token;
  interval_weeks = none;
  total_appointments = none;
}

abbrev pub to_core : Program Channel → Program CoreResult
to_core m = m >>= λ channel. pure (went channel)
