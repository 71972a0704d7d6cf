-- ===== src/Notification/System.antt =====
-- The workers, the webhooks and the storage of server/appointment-notifications.ts side by side: runs
-- stop at each `await`, and any of them may go on next.
use barber_bookings.Common.{ℕ, ◌+◌, Bool, List, [], ◌∷◌, ◌++◌, Option, none, ◌≡◌, ◌⊎◌, ◌==◌}
use barber_bookings.Schema.{Instant}
use barber_bookings.Delivery.Calls.{Call, IsPatch, perform}
use barber_bookings.Delivery.Claims.{one_if}
use barber_bookings.Delivery.Columns.{DeliveryRow, Rows}
use barber_bookings.Notification.Effects.{
  Answer, Effect, Program, await, outbox, pure, send_whatsapp, ◌>>◌,
}
use barber_bookings.Notification.{NotificationDependencies}
use barber_bookings.Notification.Email.{process_meta_late_failure_email_fallback}
use barber_bookings.Notification.Worker.{
  process_appointment_notification, process_pending_appointment_notifications,
}

-- The outbox, and the events in whose names WhatsApp messages were sent.
pub record World : Type 0 where
  pub rows : Rows
  pub sent : List ℕ

-- The runs that the server starts: after a request, by the timer, and after a late failure.
pub data Start : Type 0 where
  of_event : ℕ → Start
  of_timer : ℕ → (Instant → Option ℕ → Bool) → Start
  of_failure : ℕ → Start

unfoldable pub started : NotificationDependencies → Start → Program (Unit {0})
started deps (of_event id) = process_appointment_notification deps id >> pure tt
started deps (of_timer lease_ms opted_in) =
    process_pending_appointment_notifications deps lease_ms opted_in >> pure tt
started deps (of_failure id) = process_meta_late_failure_email_fallback deps id >> pure tt

-- What an `await` does to the world. A call on the outbox is answered by its row; any other answer may
-- come.
abbrev pub Happens : (e : Effect) → Answer e → World → World → Type 0
Happens (outbox call) row w v =
    (row ≡ (perform call w.rows).row) × (v ≡ record w { rows = (perform call w.rows).rows })
Happens (send_whatsapp m) a w v = v ≡ record w { sent = m.event_id ∷ w.sent }
Happens e a w v = v ≡ w

-- A run goes on from its `await`.
abbrev pub Step : World → Program (Unit {0}) → World → Program (Unit {0}) → Type 0
Step w (pure a) v q = ⊥
Step w (await e k) v q = (a : Answer e) × Happens e a w v × (q ≡ k a)

-- One of the runs takes a step.
abbrev pub Moves : World → List (Program (Unit {0})) → World → List (Program (Unit {0})) → Type 0
Moves w [] v qs = ⊥
Moves w (p ∷ ps) v qs =
    ((q : Program (Unit {0})) × Step w p v q × (qs ≡ q ∷ ps))
    ⊎ ((rest : List (Program (Unit {0}))) × Moves w ps v rest × (qs ≡ p ∷ rest))

-- A call from elsewhere, or a new event without an attempt.
abbrev pub Outside : World → World → Type 0
Outside w v =
    ((call : Call) × IsPatch call × (v ≡ record w { rows = (perform call w.rows).rows }))
    ⊎ ((row : DeliveryRow) × (row.whatsapp_attempted_at ≡ none)
        × (v ≡ record w { rows = w.rows ++ row ∷ [] }))

-- What can come of an outbox: runs start with dependencies of their own, and go on in any order.
pub data Reach (rows : Rows) : World → List (Program (Unit {0})) → Type 0 where
  here : Reach rows (record { rows = rows; sent = [] }) []
  starts :
      {w : World} {ps : List (Program (Unit {0}))} (deps : NotificationDependencies) (s : Start)
      → Reach rows w ps
      → Reach rows w (started deps s ∷ ps)
  moves :
      {w v : World} {ps qs : List (Program (Unit {0}))}
      → Reach rows w ps
      → Moves w ps v qs
      → Reach rows v qs
  outside :
      {w v : World} {ps : List (Program (Unit {0}))}
      → Reach rows w ps
      → Outside w v
      → Reach rows v ps

-- How many messages were sent in the name of an event.
unfoldable pub sent_count : ℕ → List ℕ → ℕ
sent_count id [] = 0
sent_count id (other ∷ rest) = one_if (other == id) + sent_count id rest
