-- ===== src/Notification/Budget.antt =====
-- The worker (server/appointment-notifications.ts) keeps to the budget: it sends a WhatsApp message only
-- after a granted claim of the attempt of the event.
use barber_bookings.Common.{ℕ, String, Bool, List, [], ◌∷◌, Option, none, some, refl}
use barber_bookings.Schema.{Appointment}
use barber_bookings.Schema.Events.{RecurringNotificationSnapshot}
use barber_bookings.Delivery.Columns.{DeliveryRow}
use barber_bookings.Delivery.Receipts.{Receipt}
use barber_bookings.Notification.Effects.{EmailMessage, Program, WhatsappResult}
use barber_bookings.Notification.{
  Channel, CoreResult, Details, NotificationDependencies, current_by, is_current_recurring_event,
  recurring_snapshot,
}
use barber_bookings.Notification.Email.{
  appointment_of, deliver_email, deliver_in_time, email_fallback, late_by, late_claimed,
  late_recurring, late_reminder_by, late_single, process_meta_late_failure_email_fallback,
  recurring_email_fallback,
}
use barber_bookings.Notification.Messages.{accepted_id}
use barber_bookings.Notification.Reconcile.{
  apply_all, apply_found, apply_to_event, reconcile_by, reconcile_meta_status_receipts,
}
use barber_bookings.Notification.Recurring.{link_accepted, settle_whatsapp, settle_by}
use barber_bookings.Notification.Guarded.{
  Guarded, Guarded-await, Guarded-bind, Guarded-if, Guarded-last, Guarded-pure, Guarded-update,
}

module _ (id : ℕ) where
  deliver_email-Guarded :
      (n other : ℕ) (message : EmailMessage) → Guarded id n (deliver_email other message)
  unfolding deliver_email
  deliver_email-Guarded n other message =
      Guarded-update id _ _ _ _ (λ now. refl)
        (Guarded-await id _ _ _ (λ answer. Guarded-last id _ _ _ _ (λ now. refl)))

  late_reminder_by-Guarded :
      (n : ℕ) (row : DeliveryRow) (o : Option String) (p : Program Channel)
      → Guarded id n p
      → Guarded id n (late_reminder_by row o p)
  late_reminder_by-Guarded n row none p g = g
  late_reminder_by-Guarded n row (some reason) p g = Guarded-last id _ _ _ _ (λ now. refl)

  pub current_by-Guarded :
      (n : ℕ) (row : DeliveryRow) (snapshot : RecurringNotificationSnapshot) (o : Option String)
      → Guarded id n (current_by row snapshot o)
  current_by-Guarded n row snapshot none = Guarded-pure id _ _
  current_by-Guarded n row snapshot (some other) =
      Guarded-if id _ _ _ _ (Guarded-pure id _ _)
        (Guarded-await id _ _ _ (λ found. Guarded-pure id _ _))

  pub appointment_of-Guarded :
      (deps : NotificationDependencies) (n : ℕ) (o : Option ℕ)
      → Guarded id n (appointment_of deps o)
  appointment_of-Guarded deps n none = Guarded-pure id _ _
  appointment_of-Guarded deps n (some other) = Guarded-await id _ _ _ (λ found. Guarded-pure id _ _)

  module _ (deps : NotificationDependencies) where
    deliver_in_time-Guarded :
        (n : ℕ) (a : Appointment) (row : DeliveryRow) (details : Details)
        → Guarded id n (deliver_in_time deps a row details)
    unfolding deliver_in_time
    deliver_in_time-Guarded n a row details =
        Guarded-if id _ _ _ _
          (Guarded-await id _ _ _
            (λ now. late_reminder_by-Guarded n row _ _ (deliver_email-Guarded n _ _)))
          (deliver_email-Guarded n _ _)

    pub email_fallback-Guarded :
        (n : ℕ) (a : Appointment) (row : DeliveryRow) (details : Details)
        → Guarded id n (email_fallback deps a row details)
    unfolding email_fallback
    email_fallback-Guarded n a row details = Guarded-if id _ _ _ _ (Guarded-pure id _ _) (
        Guarded-if id _ _ _ _ (Guarded-last id _ _ _ _ (λ now. refl)) (
          Guarded-await id _ _ _ (λ latest.
            Guarded-if id _ _ _ _ (Guarded-last id _ _ _ _ (λ now. refl))
              (deliver_in_time-Guarded n a row details))))

    pub recurring_email_fallback-Guarded :
        (n : ℕ) (row : DeliveryRow) (snapshot : RecurringNotificationSnapshot)
        → Guarded id n (recurring_email_fallback deps row snapshot)
    unfolding recurring_email_fallback
    recurring_email_fallback-Guarded n row snapshot = Guarded-if id _ _ _ _ (Guarded-pure id _ _) (
        Guarded-if id _ _ _ _ (Guarded-last id _ _ _ _ (λ now. refl)) (
          Guarded-bind id n (is_current_recurring_event row snapshot) _
            (current_by-Guarded n row snapshot row.event.series_id)
            (λ current.
              Guarded-if id _ _ _ _ (Guarded-last id _ _ _ _ (λ now. refl))
                (deliver_email-Guarded 0 _ _))))

    late_recurring-Guarded :
        (row : DeliveryRow) (o : Option RecurringNotificationSnapshot)
        → Guarded id 0 (late_recurring deps row o)
    unfolding late_recurring
    late_recurring-Guarded row none = Guarded-last id _ _ _ _ (λ now. refl)
    late_recurring-Guarded row (some snapshot) = recurring_email_fallback-Guarded 0 row snapshot

    late_single-Guarded :
        (row : DeliveryRow) (o : Option Appointment) → Guarded id 0 (late_single deps row o)
    unfolding late_single
    late_single-Guarded row none = Guarded-last id _ _ _ _ (λ now. refl)
    late_single-Guarded row (some a) =
        Guarded-await id _ _ _ (λ found. email_fallback-Guarded 0 a row _)

    late_claimed-Guarded : (row : DeliveryRow) → Guarded id 0 (late_claimed deps row)
    unfolding late_claimed
    late_claimed-Guarded row =
        Guarded-if id _ _ _ _ (late_recurring-Guarded row (recurring_snapshot row)) (
          Guarded-bind id 0 (appointment_of deps row.event.appointment_id) _
            (appointment_of-Guarded deps 0 row.event.appointment_id) (late_single-Guarded row))

    late_by-Guarded : (other : ℕ) (o : Option DeliveryRow) → Guarded id 0 (late_by deps other o)
    unfolding late_by
    late_by-Guarded other none = Guarded-await id _ _ _ (λ existing. Guarded-pure id _ _)
    late_by-Guarded other (some row) = late_claimed-Guarded row

    pub process_meta_late_failure_email_fallback-Guarded :
        (other : ℕ) → Guarded id 0 (process_meta_late_failure_email_fallback deps other)
    unfolding process_meta_late_failure_email_fallback
    process_meta_late_failure_email_fallback-Guarded other =
        Guarded-await id _ _ _ (λ now. Guarded-await id _ _ _ (λ row. late_by-Guarded other row))

    apply_to_event-Guarded :
        (receipt : Receipt) (row : DeliveryRow) → Guarded id 0 (apply_to_event deps receipt row)
    unfolding apply_to_event
    apply_to_event-Guarded receipt row =
        Guarded-if id _ _ _ _
          (Guarded-if id _ _ _ _ (Guarded-pure id _ _) (
            Guarded-update id _ _ _ _ (λ now. refl)
              (Guarded-bind id 0 (process_meta_late_failure_email_fallback deps row.event.id) _
                (process_meta_late_failure_email_fallback-Guarded row.event.id)
                (λ channel. Guarded-pure id _ _))))
          (Guarded-if id _ _ _ _ (Guarded-pure id _ _) (Guarded-last id _ _ _ _ (λ now. refl)))

    apply_found-Guarded :
        (receipt : Receipt) (others : Program Bool) (o : Option DeliveryRow)
        → Guarded id 0 others
        → Guarded id 0 (apply_found deps receipt others o)
    unfolding apply_found
    apply_found-Guarded receipt others none g = Guarded-pure id _ _
    apply_found-Guarded receipt others (some row) g =
        Guarded-bind id 0 (apply_to_event deps receipt row) _ (apply_to_event-Guarded receipt row)
          (λ done. g)

    apply_all-Guarded :
        (message : String) (receipts : List Receipt)
        → Guarded id 0 (apply_all deps message receipts)
    unfolding apply_all
    apply_all-Guarded message [] = Guarded-pure id _ _
    apply_all-Guarded message (receipt ∷ rest) =
        Guarded-await id _ _ _
          (λ row. apply_found-Guarded receipt _ row (apply_all-Guarded message rest))

    reconcile_by-Guarded :
        (message : String) (o : Option DeliveryRow) → Guarded id 0 (reconcile_by deps message o)
    reconcile_by-Guarded message none = Guarded-pure id _ _
    reconcile_by-Guarded message (some row) =
        Guarded-await id _ _ _
          (λ linked. Guarded-await id _ _ _ (λ receipts. apply_all-Guarded message receipts))

    link_accepted-Guarded :
        (other : ℕ) (message : String) → Guarded id 0 (link_accepted deps other message)
    unfolding link_accepted reconcile_meta_status_receipts
    link_accepted-Guarded other message = Guarded-await id _ _ _ (λ linked.
        Guarded-bind id 0 (reconcile_meta_status_receipts deps message) _
          (Guarded-await id _ _ _ (λ row. reconcile_by-Guarded message row))
          (λ ok. Guarded-pure id _ _))

    settle_by-Guarded :
        (other : ℕ) (o : Option String) (next : Program CoreResult)
        → Guarded id 0 next
        → Guarded id 0 (settle_by deps other o next)
    unfolding settle_by
    settle_by-Guarded other none next g = g
    settle_by-Guarded other (some message) next g = link_accepted-Guarded other message

    pub settle_whatsapp-Guarded :
        (other : ℕ) (result : WhatsappResult) (next : Program CoreResult)
        → Guarded id 0 next
        → Guarded id 0 (settle_whatsapp deps other result next)
    unfolding settle_whatsapp
    settle_whatsapp-Guarded other result next g =
        Guarded-update id _ _ _ _ (λ now. refl)
          (settle_by-Guarded other (accepted_id result) next g)
