-- ===== src/Delivery/Receipts.antt =====
-- The status of a delivery as the receipts of the provider move it (`applyReceipt` and the loop of
-- `reconcileMetaStatusReceipts` in server/meta-webhook.ts), on the row of the event. The late fallback,
-- which a failure calls, writes columns on the e-mail only; here a call of it is an output.
use barber_bookings.Common.{
  ℕ, String, Bool, true, false, ◌||◌, List, [], ◌∷◌, Option, none, some, leb, ltb, get_or,
  if◌then◌else◌,
}
use barber_bookings.Schema.{Instant}
use barber_bookings.Delivery.{is_failed}
use barber_bookings.Delivery.Columns.{
  DeliveryPatch, DeliveryRow, WhatsappStatus, accepted, apply_patch, delivered, failed, no_patch,
  read, sent,
}

-- The statuses that the webhook records.
pub data ReceiptStatus : Type 0 where
  sent_receipt delivered_receipt read_receipt failed_receipt : ReceiptStatus

-- `provider_text` is the text of `META_ERROR_…` or `META_FAILED`, or of `META_…` with the status.
pub record Receipt : Type 0 where
  pub status : ReceiptStatus
  pub provider_timestamp : Option Instant
  pub provider_text : String

-- `progression[status] ?? -1`, one higher.
unfoldable pub rank : WhatsappStatus → ℕ
rank accepted = 1
rank sent = 2
rank delivered = 3
rank read = 4
rank _ = 0

abbrev pub status_of : ReceiptStatus → WhatsappStatus
status_of sent_receipt = sent
status_of delivered_receipt = delivered
status_of read_receipt = read
status_of failed_receipt = failed

abbrev pub is_failure : ReceiptStatus → Bool
is_failure failed_receipt = true
is_failure _ = false

abbrev pub failure_patch : Instant → Receipt → DeliveryPatch
failure_patch now receipt = record no_patch {
  whatsapp_status = some failed;
  provider_status = some (some receipt.provider_text);
  error_code = some (some receipt.provider_text);
  failed_at = some (some (get_or receipt.provider_timestamp now));
  last_provider_timestamp = some receipt.provider_timestamp;
}

abbrev at_if : Bool → Option Instant → Instant → Option (Option Instant)
at_if b timestamp now = if b then some (some (get_or timestamp now)) else none

abbrev is_sent_receipt : ReceiptStatus → Bool
is_sent_receipt sent_receipt = true
is_sent_receipt _ = false

abbrev is_delivered_receipt : ReceiptStatus → Bool
is_delivered_receipt delivered_receipt = true
is_delivered_receipt _ = false

abbrev is_read_receipt : ReceiptStatus → Bool
is_read_receipt read_receipt = true
is_read_receipt _ = false

abbrev pub progress_patch : Instant → Receipt → DeliveryPatch
progress_patch now receipt = record no_patch {
  whatsapp_status = some (status_of receipt.status);
  provider_status = some (some receipt.provider_text);
  last_provider_timestamp = some receipt.provider_timestamp;
  sent_at = at_if (is_sent_receipt receipt.status) receipt.provider_timestamp now;
  delivered_at = at_if (is_delivered_receipt receipt.status) receipt.provider_timestamp now;
  read_at = at_if (is_read_receipt receipt.status) receipt.provider_timestamp now;
}

-- The row after a receipt, and whether the late fallback is called.
pub record Applied : Type 0 where
  pub row : DeliveryRow
  pub falls_back : Bool

abbrev unmoved : DeliveryRow → Applied
unmoved row = record { row = row; falls_back = false }

-- The two courses of `applyReceipt`, by whether the receipt is a failure.
unfoldable pub apply_by : Bool → Instant → Receipt → DeliveryRow → Applied
unfolding rank
apply_by true now receipt row =
    if leb (rank delivered) (rank row.whatsapp_status)
    then unmoved row
    else record { row = apply_patch now (failure_patch now receipt) row; falls_back = true }
apply_by false now receipt row =
    let next_rank = rank (status_of receipt.status) in
    if is_failed row.whatsapp_status
      || (ltb next_rank (rank sent) || leb next_rank (rank row.whatsapp_status))
    then unmoved row
    else record { row = apply_patch now (progress_patch now receipt) row; falls_back = false }

unfoldable pub apply_receipt : Instant → DeliveryRow → Receipt → Applied
unfolding apply_by
apply_receipt now row receipt = apply_by (is_failure receipt.status) now receipt row

-- The loop: each receipt meets the row that the ones before it left.
unfoldable pub apply_receipts : Instant → List Receipt → DeliveryRow → DeliveryRow
unfolding apply_receipt
apply_receipts now [] row = row
apply_receipts now (receipt ∷ rest) row =
    apply_receipts now rest (apply_receipt now row receipt).row
