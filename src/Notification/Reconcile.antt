-- ===== src/Notification/Reconcile.antt =====
-- Receipts that came before a message was linked to its event (`reconcileMetaStatusReceipts` and
-- `applyReceipt` of server/meta-webhook.ts), as calls on the outbox.
use barber_bookings.Common.{
  String, Bool, true, false, ◌||◌, List, [], ◌∷◌, Option, none, some, leb, ltb, if◌then◌else◌,
}
use barber_bookings.Delivery.{is_failed}
use barber_bookings.Delivery.Columns.{DeliveryRow, delivered, sent}
use barber_bookings.Delivery.Receipts.{
  Receipt, failure_patch, is_failure, progress_patch, rank, status_of,
}
use barber_bookings.Notification.Effects.{
  Program, ask, get_event_by_provider_id, get_receipts, link_receipts, pure, ◌>>=◌, ◌>>◌,
}
use barber_bookings.Notification.{NotificationDependencies, update_event}
use barber_bookings.Notification.Email.{process_meta_late_failure_email_fallback}

module _ (deps : NotificationDependencies) where
  -- A receipt moves the row; a failure calls the late fallback, whatever comes of it.
  unfoldable pub apply_to_event : Receipt → DeliveryRow → Program (Unit {0})
  unfolding process_meta_late_failure_email_fallback rank
  apply_to_event receipt row =
      if is_failure receipt.status
      then (if leb (rank delivered) (rank row.whatsapp_status)
          then pure tt
          else update_event row.event.id (λ now. failure_patch now receipt)
            >> (process_meta_late_failure_email_fallback deps row.event.id >> pure tt))
      else if is_failed row.whatsapp_status
          || (ltb (rank (status_of receipt.status)) (rank sent)
              || leb (rank (status_of receipt.status)) (rank row.whatsapp_status))
      then pure tt
      else update_event row.event.id (λ now. progress_patch now receipt)

  -- `false` stands for the exception on an event that is gone.
  unfoldable pub apply_found : Receipt → Program Bool → Option DeliveryRow → Program Bool
  unfolding apply_to_event
  apply_found receipt others none = pure false
  apply_found receipt others (some row) = apply_to_event receipt row >> others

  unfoldable pub apply_all : String → List Receipt → Program Bool
  unfolding apply_found
  apply_all message [] = pure true
  apply_all message (receipt ∷ rest) =
      let others = apply_all message rest in
      ask (get_event_by_provider_id message) >>= λ row. apply_found receipt others row

  abbrev pub reconcile_by : String → Option DeliveryRow → Program Bool
  reconcile_by message none = pure true
  reconcile_by message (some row) =
      ask (link_receipts message row.event.id)
      >> (ask (get_receipts message) >>= λ receipts. apply_all message receipts)

  unfoldable pub reconcile_meta_status_receipts : String → Program Bool
  unfolding apply_all
  reconcile_meta_status_receipts message =
      ask (get_event_by_provider_id message) >>= λ row. reconcile_by message row
