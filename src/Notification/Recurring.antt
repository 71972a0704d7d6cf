-- ===== src/Notification/Recurring.antt =====
-- The course of the event of a series (`processRecurringConfirmation` of
-- server/appointment-notifications.ts).
use barber_bookings.Common.{ℕ, String, Bool, not, ◌&&◌, Option, none, some, is_some, if◌then◌else◌}
use barber_bookings.Schema.Events.{
  RecurringNotificationSnapshot, appointment_recurring_confirmation,
}
use barber_bookings.Delivery.Calls.{attempt_whatsapp}
use barber_bookings.Delivery.Columns.{DeliveryRow}
use barber_bookings.Notification.Effects.{
  Program, WhatsappMessage, WhatsappResult, ask, clock, link_receipts, outbox, pure, send_whatsapp,
  ◌>>=◌, ◌>>◌,
}
use barber_bookings.Notification.{
  CoreResult, NotificationDependencies, is_accepted, is_current_recurring_event, no_channel,
  recurring_snapshot, threw, update_event, went, whatsapp,
}
use barber_bookings.Notification.Email.{recurring_email_fallback}
use barber_bookings.Notification.Messages.{
  accepted_id, build_meta_recurring_template_params, skip_whatsapp, skipped_both, to_core,
  whatsapp_outcome, whatsapp_result,
}
use barber_bookings.Notification.Reconcile.{reconcile_meta_status_receipts}

module _ (deps : NotificationDependencies) where
  abbrev pub delivered_unless_threw : Bool → CoreResult
  delivered_unless_threw ok = if ok then went whatsapp else threw

  -- An accepted message is linked to its receipts.
  unfoldable pub link_accepted : ℕ → String → Program CoreResult
  unfolding reconcile_meta_status_receipts
  link_accepted id message =
      ask (link_receipts message id)
      >> (reconcile_meta_status_receipts deps message >>= λ ok. pure (delivered_unless_threw ok))

  -- After an answer: the row says what it was, and an accepted message ends the course.
  unfoldable pub settle_by : ℕ → Option String → Program CoreResult → Program CoreResult
  unfolding link_accepted
  settle_by id none next = next
  settle_by id (some message) next = link_accepted id message

  unfoldable pub settle_whatsapp : ℕ → WhatsappResult → Program CoreResult → Program CoreResult
  unfolding settle_by
  settle_whatsapp id result next =
      update_event id (whatsapp_outcome result) >> settle_by id (accepted_id result) next

  unfoldable pub recurring_reason : RecurringNotificationSnapshot → String
  recurring_reason snapshot =
      if snapshot.snapshot.whatsapp_opt_in && not deps.whatsapp_enabled
      then "WHATSAPP_DISABLED"
      else if not deps.recurring_whatsapp_enabled
      then "WHATSAPP_RECURRING_TEMPLATE_DISABLED"
      else "WHATSAPP_OPT_IN_MISSING"

  unfoldable pub recurring_without :
      DeliveryRow → RecurringNotificationSnapshot → Program CoreResult
  unfolding recurring_email_fallback recurring_reason
  recurring_without row snapshot =
      update_event row.event.id (
        skip_whatsapp (deps.template_name appointment_recurring_confirmation)
          (recurring_reason snapshot))
      >> to_core (recurring_email_fallback deps row snapshot)

  unfoldable pub recurring_send :
      DeliveryRow → RecurringNotificationSnapshot → Option WhatsappMessage → Program CoreResult
  unfolding settle_whatsapp recurring_without
  recurring_send row snapshot none = pure threw
  recurring_send row snapshot (some message) = ask (send_whatsapp message) >>= λ answer.
      settle_whatsapp row.event.id
        (whatsapp_result (deps.template_name appointment_recurring_confirmation) answer)
        (recurring_without row snapshot)

  unfoldable pub recurring_claimed :
      DeliveryRow → RecurringNotificationSnapshot → Option DeliveryRow → Program CoreResult
  unfolding recurring_send build_meta_recurring_template_params
  recurring_claimed row snapshot none = pure (went no_channel)
  recurring_claimed row snapshot (some attempt) =
      recurring_send row snapshot (build_meta_recurring_template_params row.event.id snapshot)

  unfoldable pub recurring_whatsapp :
      DeliveryRow → RecurringNotificationSnapshot → Program CoreResult
  unfolding recurring_claimed recurring_without
  recurring_whatsapp row snapshot =
      if is_accepted row.whatsapp_status
      then pure (went whatsapp)
      else if is_some row.whatsapp_attempted_at
      then recurring_without row snapshot
      else is_current_recurring_event row snapshot >>= λ current.
          if current
          then (ask clock >>= λ now. ask (outbox (attempt_whatsapp now row.event.id)) >>= λ attempt.
              recurring_claimed row snapshot attempt)
          else recurring_without row snapshot

  abbrev pub is_deferred : Bool → DeliveryRow → Bool
  is_deferred opt_in row =
      opt_in
      && not deps.whatsapp_enabled
      && not (is_some row.whatsapp_attempted_at)
      && deps.defer_whatsapp_when_disabled

  unfoldable pub recurring_current :
      DeliveryRow → RecurringNotificationSnapshot → Program CoreResult
  unfolding recurring_whatsapp recurring_without
  recurring_current row snapshot =
      if is_deferred snapshot.snapshot.whatsapp_opt_in row
      then pure (went no_channel)
      else if snapshot.snapshot.whatsapp_opt_in && deps.whatsapp_enabled
          && deps.recurring_whatsapp_enabled
      then recurring_whatsapp row snapshot
      else recurring_without row snapshot

  unfoldable pub recurring_known :
      DeliveryRow → Option RecurringNotificationSnapshot → Program CoreResult
  unfolding recurring_current
  recurring_known row none = skipped_both row.event.id "STALE_EVENT"
  recurring_known row (some snapshot) = is_current_recurring_event row snapshot >>= λ current.
      if current then recurring_current row snapshot else skipped_both row.event.id "STALE_EVENT"

  unfoldable pub process_recurring_confirmation : DeliveryRow → Program CoreResult
  unfolding recurring_known
  process_recurring_confirmation row = recurring_known row (recurring_snapshot row)
