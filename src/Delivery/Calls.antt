-- ===== src/Delivery/Calls.antt =====
-- Sequences of calls on the outbox (server/storage.ts), as workers and webhooks interleave them.
use barber_bookings.Common.{
  ℕ, ◌≡◌, Bool, false, List, [], ◌∷◌, Option, none, is_some, ◌==◌, ◌+◌, ◌&&◌, if◌then◌else◌,
}
use barber_bookings.Schema.{Instant}
use barber_bookings.Delivery.{
  claim_appointment_notification_event, claim_appointment_notification_webhook_fallback,
  claim_appointment_notification_whatsapp_attempt, claim_next_appointment_notification_event,
  update_appointment_notification_event,
}
use barber_bookings.Delivery.Columns.{Claimed, DeliveryPatch, Rows}

pub data Call : Type 0 where
  claim : Instant → ℕ → Instant → Bool → Call
  claim_next : Instant → Instant → Bool → Instant → Bool → (Option ℕ → Bool) → Call
  attempt_whatsapp : Instant → ℕ → Call
  update : Instant → ℕ → DeliveryPatch → Call
  fallback : Instant → ℕ → Call

unfoldable pub perform : Call → Rows → Claimed
unfolding claim_appointment_notification_event claim_next_appointment_notification_event
    claim_appointment_notification_whatsapp_attempt update_appointment_notification_event
    claim_appointment_notification_webhook_fallback
perform (claim now id available include) rows =
    claim_appointment_notification_event now id available include rows
perform (claim_next now lease unattempted available include opted_in) rows =
    claim_next_appointment_notification_event now lease unattempted available include opted_in rows
perform (attempt_whatsapp now id) rows = claim_appointment_notification_whatsapp_attempt now id rows
perform (update now id patch) rows = update_appointment_notification_event now id patch rows
perform (fallback now id) rows = claim_appointment_notification_webhook_fallback now id rows

-- The call claims the WhatsApp attempt of the event.
abbrev pub is_attempt_of : ℕ → Call → Bool
is_attempt_of id (attempt_whatsapp now other) = other == id
is_attempt_of id _ = false

-- How many claims of the WhatsApp attempt of an event are granted.
unfoldable pub granted_attempts : ℕ → List Call → Rows → ℕ
unfolding perform
granted_attempts id [] rows = 0
granted_attempts id (call ∷ calls) rows =
    let done = perform call rows in
    (if is_attempt_of id call && is_some done.row then 1 else 0)
    + granted_attempts id calls done.rows

-- The patch leaves the time of the attempt as it is.
abbrev pub IsPatch : Call → Type 0
IsPatch (update now id patch) = patch.whatsapp_attempted_at ≡ none
IsPatch _ = Unit
