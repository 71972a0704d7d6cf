-- ===== src/Terms.antt =====
-- What service, price and duration an appointment stands for (shared/appointment-service-terms.ts,
-- beyond the price, which the finances have), what a service is at a location
-- (shared/service-location-terms.ts), and when an appointment may be completed
-- (shared/appointment-completion.ts). A read-only `Map` is a function into `Option`;
-- `String.prototype.trim` is a parameter.
use barber_bookings.Common.{
  ℕ, String, ◌+◌, ◌*◌, Bool, false, not, ◌&&◌, Option, none, some, ltb, ◌==◌, get_or, is_some,
  str_eq, if◌then◌else◌,
}
use barber_bookings.Schema.{Appointment, Instant}

abbrev pub default_appointment_duration_minutes : ℕ
default_appointment_duration_minutes = 30

unfoldable pub has_appointment_service_terms_snapshot : Appointment → Bool
has_appointment_service_terms_snapshot a =
    is_some a.service_name_snapshot && is_some a.service_price_cents_snapshot

-- A text, or the fallback for none and for the empty text.
abbrev pub or_text : Option String → String → String
or_text none fallback = fallback
or_text (some t) fallback = if str_eq t "" then fallback else t

-- The name from the catalogue, for an id that is neither null nor 0.
unfoldable pub catalogue_name : Option ℕ → (ℕ → Option String) → String → String
catalogue_name none names fallback = fallback
catalogue_name (some id) names fallback = if id == 0 then fallback else or_text (names id) fallback

unfoldable pub get_appointment_service_name :
    (String → String) → Appointment → (ℕ → Option String) → String → String
unfolding catalogue_name
get_appointment_service_name trim a names fallback = elim a.service_name_snapshot [
  | none ↦ catalogue_name a.service_id names fallback
  | some t ↦ or_text (some (trim t)) (catalogue_name a.service_id names fallback)
]

unfoldable pub service_duration : Option ℕ → (ℕ → Option ℕ) → ℕ
service_duration none durations = default_appointment_duration_minutes
service_duration (some id) durations =
    if id == 0
    then default_appointment_duration_minutes
    else get_or (durations id) default_appointment_duration_minutes

-- `appointment.serviceId` is truthy.
abbrev pub has_service : Option ℕ → Bool
has_service none = false
has_service (some id) = not (id == 0)

-- A stored duration that is no positive number counts as 0.
unfoldable pub get_effective_appointment_duration_minutes : Appointment → (ℕ → Option ℕ) → ℕ
unfolding service_duration has_appointment_service_terms_snapshot
get_effective_appointment_duration_minutes a durations =
    let catalogue = service_duration a.service_id durations in
    let stored = a.duration_minutes in
    if not (ltb 0 stored)
    then catalogue
    else if has_appointment_service_terms_snapshot a
    then stored
    else if has_service a.service_id
        && (stored == default_appointment_duration_minutes)
        && not (catalogue == default_appointment_duration_minutes)
    then catalogue
    else stored

pub record ServiceIdentityTerms : Type 0 where
  pub id : ℕ
  pub name : String
  pub price : ℕ
  pub duration : ℕ

pub record ServiceLocationTerms : Type 0 where
  pub service_id : ℕ
  pub location_id : ℕ
  pub is_active : Bool
  pub price_override : Option ℕ
  pub duration_override : Option ℕ

pub record ResolvedTerms : Type 0 where
  pub service_id : ℕ
  pub location_id : ℕ
  pub name : String
  pub is_active : Bool
  pub price_cents : ℕ
  pub duration_minutes : ℕ
  pub price_override : Option ℕ
  pub duration_override : Option ℕ
  pub base_price : ℕ
  pub base_duration : ℕ

unfoldable pub resolve_service_location_terms :
    ℕ → ServiceIdentityTerms → Option ServiceLocationTerms → Option ResolvedTerms
resolve_service_location_terms location_id service none = none
resolve_service_location_terms location_id service (some offer) =
    if (offer.service_id == service.id) && (offer.location_id == location_id)
    then some (record {
      service_id = service.id;
      location_id = location_id;
      name = service.name;
      is_active = offer.is_active;
      price_cents = get_or offer.price_override service.price;
      duration_minutes = get_or offer.duration_override service.duration;
      price_override = offer.price_override;
      duration_override = offer.duration_override;
      base_price = service.price;
      base_duration = service.duration;
    })
    else none

unfoldable pub get_appointment_completion_end : Instant → ℕ → Instant
get_appointment_completion_end start_time duration_minutes = start_time + duration_minutes * 60000

-- `true` stands for the message of the error, `false` for null.
unfoldable pub get_appointment_completion_timing_error : Instant → ℕ → Instant → Bool
unfolding get_appointment_completion_end
get_appointment_completion_timing_error start_time duration_minutes now =
    ltb now (get_appointment_completion_end start_time duration_minutes)

unfoldable pub can_complete_appointment : Instant → ℕ → Instant → Bool
unfolding get_appointment_completion_timing_error
can_complete_appointment start_time duration_minutes now =
    not (get_appointment_completion_timing_error start_time duration_minutes now)
