-- ===== src/Examples/Storage.antt =====
-- Bookings on a concrete storage (server/storage.ts).
use barber_bookings.Common.{
  ℕ, ◌*◌, ◌≤◌, true, false, List, [], ◌∷◌, none, some, ◌≡◌, ◌⊎◌, inl, inr, refl, arith,
}
use barber_bookings.Schema.{Appointment, Instant}
use barber_bookings.Storage.State.{
  MemoryStorage, finished, CreateRequest, new_event, replace_appointment, touch_series,
}
use barber_bookings.Storage.Conflict.{
  assert_no_appointment_conflict, conflicts_with, end_of, get_appointment_end_time,
  get_duration_minutes,
}
use barber_bookings.Storage.Extras.{
  resolve_appointment_extra_snapshots, validate_appointment_extra_inputs,
}
use barber_bookings.Storage.Create.{
  create_appointments, create_loop, create_one, insert_row, new_appointment, roll_back,
  no_compensation,
}
use barber_bookings.Storage.Change.{
  cancel_appointment, cancelled_event, reschedule_appointment, rescheduled_event,
  update_appointment, update_appointment_status, write_checked,
}
use barber_bookings.Storage.Calls.{
  Call, Reachable-IsConsistent, cancel, create, called, update, empty_storage, end_state,
  never_double_booked, opened, perform,
}
use barber_bookings.Storage.Invariant.{IsConsistent}
use barber_bookings.Storage.Patch.{Patch, no_patch}
use barber_bookings.Storage.Notify.{update_appointment_with_notification}
use barber_bookings.Storage.Series.{create_recurring_appointment_series}
use barber_bookings.Storage.Series.Requests.{RecurringRequest}
use barber_bookings.Storage.Change.{ChangeResult, called_off, moved}
use barber_bookings.Storage.Safety.{
  Creates, CreatesSeries, IsSafe, create_appointments-Creates,
  create_recurring_appointment_series-CreatesSeries, reschedule_appointment-IsSafe,
  update_appointment_with_notification-IsSafe,
}
use barber_bookings.Storage.History.Runs.{perform_all}
use barber_bookings.Storage.Lock.{reschedule_appointment-IsLocked}
use barber_bookings.Storage.Lock.Cancelled.{cancel_appointment-IsFinal}

-- Names all that a run of the storage unfolds.
unfoldable running : Unit {0}
unfolding perform create_appointments create_loop create_one insert_row new_appointment roll_back
    resolve_appointment_extra_snapshots validate_appointment_extra_inputs
    assert_no_appointment_conflict conflicts_with get_appointment_end_time get_duration_minutes
    new_event replace_appointment touch_series cancel_appointment cancelled_event
    reschedule_appointment rescheduled_event update_appointment update_appointment_status
    write_checked
running = tt

abbrev hour : Instant
hour = 3600000

-- A booking of half an hour with barber 1.
abbrev request : Instant → CreateRequest
request start_time = record {
  location_id = some 1;
  barber_id = 1;
  service_id = some 1;
  start_time = start_time;
  customer_name = "Ana";
  customer_email = none;
  customer_phone = "+351910000000";
  duration_minutes = 30;
  service_name_snapshot = some "Corte";
  service_price_cents_snapshot = some 1500;
  manual_outside_hours = none;
  status = none;
  payment_method = none;
  cancel_token = "token";
  deposit_required = none;
  deposit_reason = none;
  whatsapp_opt_in = none;
  whatsapp_opt_in_at = none;
  notify_confirmation = true;
  reminder_available_at = none;
  series_id = none;
  series_occurrence_index = none;
  extras = [];
}

abbrev pub row : ℕ → Instant → Appointment
row id start_time = new_appointment 0 id no_compensation 1 (request start_time)

abbrev bookings : Call
bookings = create (request (10 * hour) ∷ request (11 * hour) ∷ [])

abbrev shop : MemoryStorage
shop = perform 0 bookings (empty_storage [] [])

both_booked : shop.appointments ≡ row 1 (10 * hour) ∷ row 2 (11 * hour) ∷ []
unfolding running
both_booked = refl

-- The second request is at the time of the first, so neither is booked.
abbrev twice : MemoryStorage
twice = perform 0 (create (request (10 * hour) ∷ request (10 * hour) ∷ [])) (empty_storage [] [])

none_booked : twice ≡ empty_storage [] []
unfolding running
none_booked = refl

never_double_booked_example :
    (end_of (row 1 (10 * hour)) ≤ 11 * hour) ⊎ (end_of (row 2 (11 * hour)) ≤ 10 * hour)
unfolding running
never_double_booked_example =
    never_double_booked shop (row 1 (10 * hour)) (row 2 (11 * hour))
      (called 0 bookings (empty_storage [] []) (opened [] [])) (inl refl) (inr (inl refl))
      (λ e. omega (arith, e)) refl refl refl

empty-IsConsistent : IsConsistent (empty_storage [] [])
empty-IsConsistent = Reachable-IsConsistent (empty_storage [] []) (opened [] [])

shop-IsConsistent : IsConsistent shop
shop-IsConsistent =
    Reachable-IsConsistent shop (called 0 bookings (empty_storage [] []) (opened [] []))

create_appointments-Creates_example :
    (let rs = request (10 * hour) ∷ request (11 * hour) ∷ [] in
      Creates (empty_storage [] []) rs (create_appointments 0 rs (empty_storage [] [])))
create_appointments-Creates_example =
    create_appointments-Creates 0 (request (10 * hour) ∷ request (11 * hour) ∷ [])
      (empty_storage [] []) empty-IsConsistent

-- Row 1 from ten to eleven, where row 2 is.
reschedule_appointment-IsSafe_example :
    IsSafe shop (reschedule_appointment 5 1 0 (11 * hour) none shop)
reschedule_appointment-IsSafe_example =
    reschedule_appointment-IsSafe 5 1 0 (11 * hour) none shop shop-IsConsistent

abbrev to_noon : Patch
to_noon = record no_patch { start_time = some (12 * hour) }

update_appointment_with_notification-IsSafe_example :
    IsSafe shop (update_appointment_with_notification 5 2 to_noon true none (some []) none shop)
update_appointment_with_notification-IsSafe_example =
    update_appointment_with_notification-IsSafe 5 2 to_noon true none (some []) none shop
      shop-IsConsistent

-- Every week for a month, twice.
abbrev weekly : RecurringRequest
weekly = record {
  series = record {
    id = "s1";
    location_id = 1;
    barber_id = 1;
    service_id = 1;
    customer_name = "Ana";
    customer_email = none;
    customer_phone = "+351910000000";
    whatsapp_opt_in = false;
    whatsapp_opt_in_at = none;
    interval_weeks = 1;
    duration_months = 1;
    occurrence_count = 2;
    first_start_time = 13 * hour;
  };
  appointments =
      record (request (13 * hour)) { notify_confirmation = false }
      ∷ record (request (181 * hour)) { notify_confirmation = false; cancel_token = "other" }
      ∷ [];
  notification_snapshot = record {
    customer_name = "Ana";
    customer_email = none;
    customer_phone = "+351910000000";
    whatsapp_opt_in = false;
    location = record { id = 1; name = "Baixa"; address = "Rua 1"; timezone = "Europe/Lisbon" };
    service = record { id = 1; name = "Corte" };
    barber = record { id = 1; name = "Rui" };
    recurrence = record { interval_weeks = 1; duration_months = 1; occurrence_count = 2 };
  };
}

create_recurring_appointment_series-CreatesSeries_example :
    CreatesSeries shop weekly (create_recurring_appointment_series 5 weekly shop)
create_recurring_appointment_series-CreatesSeries_example =
    create_recurring_appointment_series-CreatesSeries 5 weekly shop shop-IsConsistent

abbrev first_move : ChangeResult
first_move = record {
  appointment = moved (12 * hour) (row 1 (10 * hour));
  notification_event =
      some (rescheduled_event 5 (row 1 (10 * hour)) (moved (12 * hour) (row 1 (10 * hour))) 3);
}

abbrev moved_shop : MemoryStorage
moved_shop = end_state (reschedule_appointment 5 1 0 (12 * hour) none shop)

-- Row 1 is patched, and row 2 is cancelled.
abbrev between : List (Instant × Call)
between = (6, update 1 to_noon none) ∷ (7, cancel 2 false) ∷ []

reschedule_appointment-IsLocked_example :
    reschedule_appointment 8 1 0 (14 * hour) none (perform_all between moved_shop)
    ≡ finished none (perform_all between moved_shop)
unfolding running
reschedule_appointment-IsLocked_example =
    reschedule_appointment-IsLocked 5 1 0 (12 * hour) none shop first_move moved_shop refl between
      ((λ own. refl), (tt, tt)) 8 (14 * hour) none

abbrev first_cancel : ChangeResult
first_cancel = record {
  appointment = called_off 5 false (row 1 (10 * hour));
  notification_event =
      some (cancelled_event 5 (row 1 (10 * hour)) (called_off 5 false (row 1 (10 * hour))) 3);
}

abbrev shop_after : MemoryStorage
shop_after = end_state (cancel_appointment 5 1 false shop)

cancel_appointment-IsFinal_example :
    (cancel_appointment 8 1 true (perform_all between shop_after)
      ≡ finished none (perform_all between shop_after))
    × (reschedule_appointment 8 1 0 (14 * hour) none (perform_all between shop_after)
        ≡ finished none (perform_all between shop_after))
unfolding running
cancel_appointment-IsFinal_example =
    cancel_appointment-IsFinal 5 1 false shop first_cancel shop_after refl between
      ((λ own. refl), (tt, tt)) 8 true 0 (14 * hour) none
