-- ===== src/Storage/Series/Requests.antt =====
-- `CreateRecurringAppointmentSeriesRequest` and its checks (server/storage.ts:
-- `validateRecurringAppointmentSeriesRequest`).
use barber_bookings.Common.{
  ℕ, String, Bool, true, false, not, ◌&&◌, ◌||◌, List, [], ◌∷◌, Option, none, some, ltb, ◌==◌,
  if◌then◌else◌, any, length, get_or, str_eq, opt_eq,
}
use barber_bookings.Schema.{Instant}
use barber_bookings.Schema.Enums.{booked, is_booked}
use barber_bookings.Schema.Events.{NotificationSnapshot}
use barber_bookings.Storage.State.{
  StorageError, CreateRequest, too_few_occurrences, snapshot_mismatch, occurrences_mismatch,
  first_occurrence_mismatch, extras_not_allowed_for_recurring,
}
use barber_bookings.Storage.Create.{not_empty}
use barber_bookings.Storage.Patch.{bool_eq, opt_str_eq}

pub record SeriesRequest : Type 0 where
  pub id : String
  pub location_id : ℕ
  pub barber_id : ℕ
  pub service_id : ℕ
  pub customer_name : String
  pub customer_email : Option String
  pub customer_phone : String
  pub whatsapp_opt_in : Bool
  pub whatsapp_opt_in_at : Option Instant
  pub interval_weeks : ℕ
  pub duration_months : ℕ
  pub occurrence_count : ℕ
  pub first_start_time : Instant

-- `CreateRecurringAppointmentSeriesRequest`
pub record RecurringRequest : Type 0 where
  pub series : SeriesRequest
  pub appointments : List CreateRequest
  pub notification_snapshot : NotificationSnapshot

unfoldable pub snapshot_matches : SeriesRequest → NotificationSnapshot → Bool
snapshot_matches series snapshot =
    (snapshot.location.id == series.location_id)
    && (snapshot.barber.id == series.barber_id)
    && (snapshot.service.id == series.service_id)
    && str_eq snapshot.customer_name series.customer_name
    && opt_str_eq snapshot.customer_email series.customer_email
    && str_eq snapshot.customer_phone series.customer_phone
    && bool_eq snapshot.whatsapp_opt_in series.whatsapp_opt_in
    && (snapshot.recurrence.interval_weeks == series.interval_weeks)
    && (snapshot.recurrence.duration_months == series.duration_months)
    && (snapshot.recurrence.occurrence_count == series.occurrence_count)

-- An occurrence is one of its series.
unfoldable pub belongs : SeriesRequest → CreateRequest → Bool
belongs series r =
    opt_eq r.location_id (some series.location_id)
    && (r.barber_id == series.barber_id)
    && opt_eq r.service_id (some series.service_id)
    && str_eq r.customer_name series.customer_name
    && opt_str_eq r.customer_email series.customer_email
    && str_eq r.customer_phone series.customer_phone
    && bool_eq (get_or r.whatsapp_opt_in false) series.whatsapp_opt_in
    && is_booked (get_or r.status booked)
    && not r.notify_confirmation

-- `start > previousStart`, where `none` is minus infinity.
abbrev pub is_after : Option Instant → Instant → Bool
is_after none start = true
is_after (some previous) start = ltb previous start

abbrev pub has_token : String → List String → Bool
has_token t tokens = any (str_eq t) tokens

-- The loop over the occurrences, with the tokens so far and the start before.
unfoldable pub occurrences_match :
    SeriesRequest → List String → Option Instant → List CreateRequest → Bool
occurrences_match series tokens previous [] = true
occurrences_match series tokens previous (r ∷ rs) =
    belongs series r
    && not (has_token r.cancel_token tokens)
    && is_after previous r.start_time
    && occurrences_match series (r.cancel_token ∷ tokens) (some r.start_time) rs

abbrev pub starts_at : Instant → List CreateRequest → Bool
starts_at first_start_time [] = false
starts_at first_start_time (r ∷ rs) = r.start_time == first_start_time

-- The error of the first check that fails.
unfoldable pub validate_recurring_appointment_series_request :
    RecurringRequest → Option StorageError
validate_recurring_appointment_series_request request =
    let series = request.series in
    let occurrences = request.appointments in
    if ltb (length occurrences) 2
      || not (series.occurrence_count == length occurrences)
      || (series.interval_weeks == 0)
      || (series.duration_months == 0)
    then some too_few_occurrences
    else if not (snapshot_matches series request.notification_snapshot)
    then some snapshot_mismatch
    else if any (λ r. not_empty r.extras) occurrences
    then some extras_not_allowed_for_recurring
    else if not (occurrences_match series [] none occurrences)
    then some occurrences_mismatch
    else if not (starts_at series.first_start_time occurrences)
    then some first_occurrence_mismatch
    else none
