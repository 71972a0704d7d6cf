-- ===== src/Notification/Spending/Series.antt =====
-- The course of the event of a series (server/appointment-notifications.ts) keeps to the budget.
use barber_bookings.Common.{
  ℕ, ◌+◌, ◌≤◌, Bool, true, false, ◌&&◌, List, [], ◌∷◌, Option, none, some, ◌≡◌, refl, arith, ◌==◌,
  is_some, if◌then◌else◌,
}
use barber_bookings.Schema.Events.{RecurringNotificationSnapshot, Occurrence}
use barber_bookings.Delivery.Claims.{one_if}
use barber_bookings.Delivery.Columns.{DeliveryRow}
use barber_bookings.Notification.Effects.{Program, WhatsappMessage}
use barber_bookings.Notification.{Channel, NotificationDependencies, is_current_recurring_event}
use barber_bookings.Notification.Email.{recurring_email_fallback}
use barber_bookings.Notification.Messages.{
  build_meta_recurring_template_params, recurring_message, to_core,
}
use barber_bookings.Notification.Recurring.{
  recurring_claimed, recurring_current, recurring_known, recurring_send, recurring_whatsapp,
  recurring_without,
}
use barber_bookings.Notification.Guarded.{
  Guarded, Guarded-await, Guarded-bind, Guarded-if, Guarded-last, Guarded-pure, Guarded-update,
}
use barber_bookings.Notification.Budget.{
  current_by-Guarded, recurring_email_fallback-Guarded, settle_whatsapp-Guarded,
}

-- The message that is built is in the name of the event.
unfoldable IsOf : ℕ → Option WhatsappMessage → Type 0
IsOf other none = Unit
IsOf other (some message) = message.event_id ≡ other

recurring_message-IsOf :
    (other : ℕ) (snapshot : RecurringNotificationSnapshot) (occurrences : List Occurrence)
    → IsOf other (recurring_message other snapshot occurrences)
unfolding recurring_message IsOf
recurring_message-IsOf other snapshot [] = tt
recurring_message-IsOf other snapshot (first ∷ rest) = refl

IsOf-if :
    (other : ℕ) (b : Bool) (o : Option WhatsappMessage)
    → IsOf other o
    → IsOf other (if b then none else o)
unfolding IsOf
IsOf-if other true o h = tt
IsOf-if other false o h = h

build_meta_recurring_template_params-IsOf :
    (other : ℕ) (snapshot : RecurringNotificationSnapshot)
    → IsOf other (build_meta_recurring_template_params other snapshot)
unfolding build_meta_recurring_template_params
build_meta_recurring_template_params-IsOf other snapshot =
    IsOf-if other _ _ (recurring_message-IsOf other snapshot _)

pub paid : (b : Bool) → 0 + one_if b ≤ 0 + one_if (b && true)
paid true = omega arith
paid false = omega arith

module _ (id : ℕ) (deps : NotificationDependencies) where
  pub to_core-Guarded : (n : ℕ) (m : Program Channel) → Guarded id n m → Guarded id n (to_core m)
  to_core-Guarded n m g = Guarded-bind id n m _ g (λ channel. Guarded-pure id _ _)

  without-Guarded :
      (n : ℕ) (row : DeliveryRow) (snapshot : RecurringNotificationSnapshot)
      → Guarded id n (recurring_without deps row snapshot)
  unfolding recurring_without
  without-Guarded n row snapshot =
      Guarded-update id _ _ _ _ (λ now. refl)
        (to_core-Guarded n (recurring_email_fallback deps row snapshot)
          (recurring_email_fallback-Guarded id deps n row snapshot))

  recurring_send-Guarded :
      (row : DeliveryRow) (snapshot : RecurringNotificationSnapshot) (o : Option WhatsappMessage)
      → IsOf row.event.id o
      → Guarded id (0 + one_if ((row.event.id == id) && true)) (recurring_send deps row snapshot o)
  unfolding recurring_send IsOf
  recurring_send-Guarded row snapshot none e = Guarded-pure id _ _
  recurring_send-Guarded row snapshot (some message) e = Guarded-await id _ _ _ (
    0,
    rw e (paid (row.event.id == id)),
    λ answer. settle_whatsapp-Guarded id deps row.event.id _ _ (without-Guarded 0 row snapshot),
  )

  recurring_claimed-Guarded :
      (row : DeliveryRow) (snapshot : RecurringNotificationSnapshot) (attempt : Option DeliveryRow)
      → Guarded id
          (0 + one_if ((row.event.id == id) && is_some attempt))
          (recurring_claimed deps row snapshot attempt)
  unfolding recurring_claimed
  recurring_claimed-Guarded row snapshot none = Guarded-pure id _ _
  recurring_claimed-Guarded row snapshot (some attempt) =
      recurring_send-Guarded row snapshot _
        (build_meta_recurring_template_params-IsOf row.event.id snapshot)

  recurring_whatsapp-Guarded :
      (row : DeliveryRow) (snapshot : RecurringNotificationSnapshot)
      → Guarded id 0 (recurring_whatsapp deps row snapshot)
  unfolding recurring_whatsapp
  recurring_whatsapp-Guarded row snapshot = Guarded-if id _ _ _ _ (Guarded-pure id _ _) (
      Guarded-if id _ _ _ _ (without-Guarded 0 row snapshot) (
        Guarded-bind id 0 (is_current_recurring_event row snapshot) _
          (current_by-Guarded id 0 row snapshot row.event.series_id)
          (λ current.
            Guarded-if id _ _ _ _
              (Guarded-await id _ _ _ (λ now.
                Guarded-await id _ _ _ (λ attempt. recurring_claimed-Guarded row snapshot attempt)))
              (without-Guarded 0 row snapshot))))

  recurring_current-Guarded :
      (row : DeliveryRow) (snapshot : RecurringNotificationSnapshot)
      → Guarded id 0 (recurring_current deps row snapshot)
  unfolding recurring_current
  recurring_current-Guarded row snapshot = Guarded-if id _ _ _ _ (Guarded-pure id _ _) (
      Guarded-if id _ _ _ _ (recurring_whatsapp-Guarded row snapshot)
        (without-Guarded 0 row snapshot))

  pub recurring_known-Guarded :
      (row : DeliveryRow) (o : Option RecurringNotificationSnapshot)
      → Guarded id 0 (recurring_known deps row o)
  unfolding recurring_known
  recurring_known-Guarded row none = Guarded-last id _ _ _ _ (λ now. refl)
  recurring_known-Guarded row (some snapshot) =
      Guarded-bind id 0 (is_current_recurring_event row snapshot) _
        (current_by-Guarded id 0 row snapshot row.event.series_id)
        (λ current.
          Guarded-if id _ _ _ _ (recurring_current-Guarded row snapshot)
            (Guarded-last id _ _ _ _ (λ now. refl)))
