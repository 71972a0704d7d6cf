-- ===== src/Notification/Spending.antt =====
-- The courses of an event (server/appointment-notifications.ts) keep to the budget: a WhatsApp message
-- follows a granted claim of the attempt of the event.
pub mod Series
use barber_bookings.Common.{
  ℕ, zero, suc, String, ◌+◌, ◌≤◌, Bool, true, false, not, ◌&&◌, List, [], ◌∷◌, Option, none, some,
  ◌≡◌, refl, arith, ◌==◌, length, is_some, if◌then◌else◌,
}
use barber_bookings.Schema.{Appointment, Instant}
use barber_bookings.Schema.Events.{RecurringNotificationSnapshot, Occurrence}
use barber_bookings.Delivery.Claims.{one_if}
use barber_bookings.Delivery.Columns.{DeliveryRow}
use barber_bookings.Delivery.Receipts.{Receipt}
use barber_bookings.Notification.Effects.{
  EmailMessage, Program, WhatsappMessage, WhatsappResult, pure, ◌>>=◌,
}
use barber_bookings.Notification.{
  Channel, CoreResult, Details, NotificationDependencies, current_by, deferred, is_accepted,
  is_recurring, in_progress, is_current_recurring_event, threw, went, recurring_snapshot,
}
use barber_bookings.Notification.Email.{
  appointment_of, deliver_email, deliver_in_time, email_fallback, email_message, late_by,
  late_claimed, late_recurring, late_reminder_by, late_single,
  process_meta_late_failure_email_fallback, recurring_email_fallback,
}
use barber_bookings.Notification.Messages.{
  accepted_id, build_meta_recurring_template_params, recurring_message, single_message,
  skipped_both, to_core,
}
use barber_bookings.Notification.Reconcile.{
  apply_all, apply_found, apply_to_event, reconcile_by, reconcile_meta_status_receipts,
}
use barber_bookings.Notification.Recurring.{
  is_deferred, link_accepted, process_recurring_confirmation, recurring_claimed, recurring_current,
  recurring_known, recurring_send, recurring_whatsapp, recurring_without, settle_whatsapp,
  settle_by,
}
use barber_bookings.Notification.Worker.{
  finish_claimed, go_on, process_appointment_notification, process_claimed_appointment_notification,
  process_claimed_core, process_if, process_pending_appointment_notifications, process_rounds,
  round_by, single_attempted, single_claimed, single_current, single_due, single_found,
  single_in_time, single_send, single_with, single_without,
}
use barber_bookings.Notification.Guarded.{
  Guarded, Guarded-await, Guarded-bind, Guarded-if, Guarded-more, Guarded-last, Guarded-pure,
  Guarded-update,
}
use barber_bookings.Notification.Budget.{
  appointment_of-Guarded, current_by-Guarded, email_fallback-Guarded,
  recurring_email_fallback-Guarded, settle_whatsapp-Guarded,
}
use barber_bookings.Notification.Spending.Series.{paid, recurring_known-Guarded, to_core-Guarded}

module _ (id : ℕ) (deps : NotificationDependencies) where
  single_claimed-Guarded :
      (a : Appointment) (row : DeliveryRow) (details : Details) (attempt : Option DeliveryRow)
      → Guarded id
          (0 + one_if ((row.event.id == id) && is_some attempt))
          (single_claimed deps a row details attempt)
  unfolding single_claimed single_message
  single_claimed-Guarded a row details none = Guarded-pure id _ _
  single_claimed-Guarded a row details (some attempt) =
      Guarded-update id _ _ _ _ (λ now. refl)
        (Guarded-await id _ _ _ (
          0,
          paid (row.event.id == id),
          λ answer. settle_whatsapp-Guarded id deps row.event.id _ _ (
              to_core-Guarded id deps 0 (email_fallback deps a row details)
                (email_fallback-Guarded id deps 0 a row details)),
        ))

  single_send-Guarded :
      (a : Appointment) (row : DeliveryRow) (details : Details)
      → Guarded id 0 (single_send deps a row details)
  unfolding single_send
  single_send-Guarded a row details = Guarded-await id _ _ _ (λ latest.
      Guarded-if id _ _ _ _
        (Guarded-await id _ _ _
          (λ now. Guarded-await id _ _ _ (λ attempt. single_claimed-Guarded a row details attempt)))
        (Guarded-last id _ _ _ _ (λ now. refl)))

  fallback-Guarded :
      (a : Appointment) (row : DeliveryRow) (details : Details)
      → Guarded id 0 (to_core (email_fallback deps a row details))
  fallback-Guarded a row details =
      to_core-Guarded id deps 0 (email_fallback deps a row details)
        (email_fallback-Guarded id deps 0 a row details)

  single_without-Guarded :
      (a : Appointment) (row : DeliveryRow) (details : Details) (reason : String)
      → Guarded id 0 (single_without deps a row details reason)
  unfolding single_without
  single_without-Guarded a row details reason =
      Guarded-update id _ _ _ _ (λ now. refl) (fallback-Guarded a row details)

  single_attempted-Guarded :
      (a : Appointment) (row : DeliveryRow) (details : Details)
      → Guarded id 0 (single_attempted deps a row details)
  unfolding single_attempted
  single_attempted-Guarded a row details =
      Guarded-if id _ _ _ _
        (Guarded-update id _ _ _ _ (λ now. refl) (fallback-Guarded a row details))
        (fallback-Guarded a row details)

  single_due-Guarded :
      (a : Appointment) (row : DeliveryRow) (details : Details)
      → Guarded id 0 (single_due deps a row details)
  unfolding single_due
  single_due-Guarded a row details =
      Guarded-if id 0 (is_deferred deps a.whatsapp_opt_in row) _ _ (Guarded-pure id _ _) (
        Guarded-if id 0 (is_accepted row.whatsapp_status) _ _ (Guarded-pure id _ _) (
          Guarded-if id 0 (is_some row.whatsapp_attempted_at) _ _
            (single_attempted-Guarded a row details)
            (Guarded-if id 0 (a.whatsapp_opt_in && not deps.whatsapp_enabled) _ _
              (single_without-Guarded a row details "WHATSAPP_DISABLED")
              (Guarded-if id 0 (not a.whatsapp_opt_in) _ _
                (single_without-Guarded a row details "WHATSAPP_OPT_IN_MISSING")
                (single_send-Guarded a row details)))))

  single_in_time-Guarded :
      (a : Appointment) (row : DeliveryRow) (details : Details) (o : Option String)
      → Guarded id 0 (single_in_time deps a row details o)
  single_in_time-Guarded a row details none = single_due-Guarded a row details
  single_in_time-Guarded a row details (some reason) = Guarded-last id _ _ _ _ (λ now. refl)

  single_found-Guarded :
      (row : DeliveryRow) (o : Option Appointment) → Guarded id 0 (single_found deps row o)
  unfolding single_found single_current single_with
  single_found-Guarded row none = Guarded-last id _ _ _ _ (λ now. refl)
  single_found-Guarded row (some a) =
      Guarded-if id _ _ _ _
        (Guarded-await id _ _ _ (λ found.
          Guarded-if id _ _ _ _ (Guarded-await id _ _ _ (λ now. single_in_time-Guarded a row _ _))
            (single_due-Guarded a row _)))
        (Guarded-last id _ _ _ _ (λ now. refl))

  process_claimed_core-Guarded : (row : DeliveryRow) → Guarded id 0 (process_claimed_core deps row)
  unfolding process_claimed_core process_recurring_confirmation
  process_claimed_core-Guarded row =
      Guarded-if id 0 (not deps.processing_enabled) _ _ (Guarded-pure id _ _) (
        Guarded-if id 0 (is_recurring row.event.event_type) _ _
          (recurring_known-Guarded id deps row (recurring_snapshot row))
          (Guarded-bind id 0 (appointment_of deps row.event.appointment_id) _
            (appointment_of-Guarded id deps 0 row.event.appointment_id) (single_found-Guarded row)))

  finish_claimed-Guarded :
      (other : ℕ) (result : CoreResult) → Guarded id 0 (finish_claimed other result)
  unfolding finish_claimed
  finish_claimed-Guarded other (went taken) = Guarded-last id _ _ _ _ (λ now. refl)
  finish_claimed-Guarded other deferred = Guarded-last id _ _ _ _ (λ now. refl)
  finish_claimed-Guarded other in_progress = Guarded-pure id _ _
  finish_claimed-Guarded other threw = Guarded-pure id _ _

  claimed-Guarded :
      (row : DeliveryRow) → Guarded id 0 (process_claimed_appointment_notification deps row)
  unfolding process_claimed_appointment_notification
  claimed-Guarded row =
      Guarded-bind id 0 (process_claimed_core deps row) _ (process_claimed_core-Guarded row)
        (finish_claimed-Guarded row.event.id)

  process_if-Guarded : (o : Option DeliveryRow) → Guarded id 0 (process_if deps o)
  process_if-Guarded none = Guarded-pure id _ _
  process_if-Guarded (some row) = claimed-Guarded row

  pub process_appointment_notification-Guarded :
      (other : ℕ) → Guarded id 0 (process_appointment_notification deps other)
  unfolding process_appointment_notification
  process_appointment_notification-Guarded other =
      Guarded-if id _ _ _ _ (Guarded-pure id _ _)
        (Guarded-await id _ _ _ (λ now. Guarded-await id _ _ _ (λ row. process_if-Guarded row)))

  go_on-Guarded :
      (next : Program (Option ℕ)) (o : Option Channel)
      → Guarded id 0 next
      → Guarded id 0 (go_on deps next o)
  go_on-Guarded next none g = Guarded-pure id _ _
  go_on-Guarded next (some _) g = g

  round_by-Guarded :
      (processed : ℕ) (next : Program (Option ℕ)) (o : Option DeliveryRow)
      → Guarded id 0 next
      → Guarded id 0 (round_by deps processed next o)
  round_by-Guarded processed next none g = Guarded-pure id _ _
  round_by-Guarded processed next (some row) g =
      Guarded-bind id 0 (process_claimed_appointment_notification deps row) _ (claimed-Guarded row)
        (λ o. go_on-Guarded next o g)

  process_rounds-Guarded :
      (lease_ms : ℕ) (opted_in : Instant → Option ℕ → Bool) (rounds processed : ℕ)
      → Guarded id 0 (process_rounds deps lease_ms opted_in rounds processed)
  unfolding process_rounds
  process_rounds-Guarded lease_ms opted_in zero processed = Guarded-pure id _ _
  process_rounds-Guarded lease_ms opted_in (suc rounds) processed = Guarded-await id _ _ _ (λ now.
      Guarded-await id _ _ _ (λ row.
        round_by-Guarded processed _ row
          (process_rounds-Guarded lease_ms opted_in rounds (processed + 1))))

  pub process_pending_appointment_notifications-Guarded :
      (lease_ms : ℕ) (opted_in : Instant → Option ℕ → Bool)
      → Guarded id 0 (process_pending_appointment_notifications deps lease_ms opted_in)
  unfolding process_pending_appointment_notifications
  process_pending_appointment_notifications-Guarded lease_ms opted_in =
      Guarded-if id _ _ _ _ (Guarded-pure id _ _) (process_rounds-Guarded lease_ms opted_in 25 0)
