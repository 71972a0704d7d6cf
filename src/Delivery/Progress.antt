-- ===== src/Delivery/Progress.antt =====
-- About the loop over the receipts of a message (server/meta-webhook.ts).
use barber_bookings.Common.{
  ℕ, String, Option, ◌≤◌, max, Bool, true, false, ◌||◌, List, [], ◌∷◌, ◌≡◌, refl, ap, arith, leb,
  if◌then◌else◌,
}
use barber_bookings.Schema.{Instant}
use barber_bookings.Delivery.{is_failed}
use barber_bookings.Delivery.Columns.{
  DeliveryRow, WhatsappStatus, apply_patch, delivered, failed, read,
}
use barber_bookings.Delivery.Receipts.{
  Applied, Receipt, ReceiptStatus, apply_by, apply_receipt, apply_receipts, delivered_receipt,
  failed_receipt, is_failure, rank, read_receipt, sent_receipt, status_of,
}

-- The status after one receipt.
step_status : WhatsappStatus → ReceiptStatus → WhatsappStatus
unfolding rank
step_status s failed_receipt = if leb 3 (rank s) then s else failed
step_status s r = if is_failed s || leb (rank (status_of r)) (rank s) then s else status_of r

if_row :
    (b : Bool) (x y : Applied)
    → (if b then x else y).row.whatsapp_status
      ≡ (if b then x.row.whatsapp_status else y.row.whatsapp_status)
if_row true x y = refl
if_row false x y = refl

receipt_of : ReceiptStatus → Option Instant → String → Receipt
receipt_of status at text = record {
  status = status;
  provider_timestamp = at;
  provider_text = text;
}

status-by_status :
    (now : Instant) (row : DeliveryRow) (r : ReceiptStatus) (at : Option Instant) (text : String)
    → (apply_receipt now row (receipt_of r at text)).row.whatsapp_status
      ≡ step_status row.whatsapp_status r
unfolding apply_receipt apply_by rank step_status apply_patch receipt_of
status-by_status now row failed_receipt at text = if_row (leb 3 (rank row.whatsapp_status)) _ _
status-by_status now row sent_receipt at text =
    if_row (is_failed row.whatsapp_status || leb 2 (rank row.whatsapp_status)) _ _
status-by_status now row delivered_receipt at text =
    if_row (is_failed row.whatsapp_status || leb 3 (rank row.whatsapp_status)) _ _
status-by_status now row read_receipt at text =
    if_row (is_failed row.whatsapp_status || leb 4 (rank row.whatsapp_status)) _ _

apply_receipt-status :
    (now : Instant) (row : DeliveryRow) (receipt : Receipt)
    → (apply_receipt now row receipt).row.whatsapp_status
      ≡ step_status row.whatsapp_status receipt.status
unfolding receipt_of
apply_receipt-status now row receipt =
    status-by_status now row receipt.status receipt.provider_timestamp receipt.provider_text

-- A status that no receipt undoes: failed stays, and delivered or read does not fall back.
step_failed : (r : ReceiptStatus) → step_status failed r ≡ failed
unfolding step_status rank
step_failed failed_receipt = refl
step_failed sent_receipt = refl
step_failed delivered_receipt = refl
step_failed read_receipt = refl

-- A delivered or read status under any receipt.
step_delivered :
    (s : WhatsappStatus) (r : ReceiptStatus)
    → 3 ≤ rank s
    → (rank s ≤ rank (step_status s r)) × (is_failed (step_status s r) ≡ false)
unfolding step_status rank
step_delivered delivered sent_receipt h = (omega arith, refl)
step_delivered delivered delivered_receipt h = (omega arith, refl)
step_delivered delivered read_receipt h = (omega arith, refl)
step_delivered delivered failed_receipt h = (omega arith, refl)
step_delivered read sent_receipt h = (omega arith, refl)
step_delivered read delivered_receipt h = (omega arith, refl)
step_delivered read read_receipt h = (omega arith, refl)
step_delivered read failed_receipt h = (omega arith, refl)
step_delivered s r h = absurd (omega arith)

not_failed : (s : WhatsappStatus) → 3 ≤ rank s → is_failed s ≡ false
unfolding rank
not_failed failed h = absurd (omega arith)
not_failed s h = refl

-- The highest rank among receipts.
unfoldable pub highest : List Receipt → ℕ
highest [] = 0
highest (r ∷ rest) = max (rank (status_of r.status)) (highest rest)

abbrev pub IsProgress : Receipt → Type 0
IsProgress r = is_failure r.status ≡ false

-- A message that was delivered or read is never reported as failed afterwards, and its status does not
-- fall back, whatever receipts follow.
pub apply_receipts-delivered :
    (now : Instant) (receipts : List Receipt) (row : DeliveryRow)
    → rank delivered ≤ rank row.whatsapp_status
    → (rank row.whatsapp_status ≤ rank (apply_receipts now receipts row).whatsapp_status)
      × (is_failed (apply_receipts now receipts row).whatsapp_status ≡ false)
unfolding apply_receipts rank
apply_receipts-delivered now [] row h = (omega arith, not_failed row.whatsapp_status h)
apply_receipts-delivered now (r ∷ rest) row h =
    let same = apply_receipt-status now row r in
    let (up, live) = step_delivered row.whatsapp_status r.status h in
    let next = (apply_receipt now row r).row in
    let (final, kept) =
      apply_receipts-delivered now rest next (omega (arith, h, ap rank same, up)) in
    (omega (arith, final, ap rank same, up), kept)
