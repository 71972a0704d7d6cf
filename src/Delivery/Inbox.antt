-- ===== src/Delivery/Inbox.antt =====
-- The receipts of the provider and the replies to customers who write (server/storage.ts:
-- `createMetaWebhookReceipt`, `reconcileMetaWebhookReceipts`, `claimMetaInboundAutoReply`,
-- `completeMetaInboundAutoReply`). The statuses of replies, which the code builds and tests as texts with
-- a prefix, are constructors with the type of the message; so is the summary of a sender, a JSON text.
pub mod Replies
use barber_bookings.Common.{
  ℕ, String, ◌+◌, Bool, true, false, ◌&&◌, List, [], ◌∷◌, ◌++◌, Option, none, some, any, find?,
  is_some, leb, ◌==◌, str_eq, if◌then◌else◌,
}
use barber_bookings.Schema.{Instant}

pub data ReceiptText : Type 0 where
  reply_claimed : String → ReceiptText
  reply_sent : String → ReceiptText
  reply_unknown : String → ReceiptText
  reply_failed : String → ReceiptText
  status_text : String → ReceiptText

pub data Summary : Type 0 where
  no_summary : Summary
  of_sender : String → Summary
  summary_text : String → Summary

pub record MetaWebhookReceipt : Type 0 where
  pub id : ℕ
  pub receipt_key : String
  pub provider_message_id : String
  pub status : ReceiptText
  pub provider_timestamp : Option Instant
  pub error_code : Option String
  pub waba_id : String
  pub phone_number_id : String
  pub notification_event_id : Option ℕ
  pub payload_summary : Summary
  pub created_at : Instant

-- The table and `nextIds.metaWebhookReceipt`.
pub record Inbox : Type 0 where
  pub receipts : List MetaWebhookReceipt
  pub next_id : ℕ

abbrev pub has_key : String → MetaWebhookReceipt → Bool
has_key key item = str_eq item.receipt_key key

abbrev push : MetaWebhookReceipt → Inbox → Inbox
push receipt inbox = record {
  receipts = inbox.receipts ++ receipt ∷ [];
  next_id = inbox.next_id + 1;
}

pub record Created : Type 0 where
  pub receipt : MetaWebhookReceipt
  pub created : Bool
  pub inbox : Inbox

-- By the row with the key, if there is one.
abbrev pub create_by : MetaWebhookReceipt → Inbox → Option MetaWebhookReceipt → Created
create_by made inbox none = record { receipt = made; created = true; inbox = push made inbox }
create_by made inbox (some existing) = record { receipt = existing; created = false; inbox = inbox }

-- `receipt` holds the columns of the request; its id and its time of creation are not read.
unfoldable pub create_meta_webhook_receipt : Instant → MetaWebhookReceipt → Inbox → Created
create_meta_webhook_receipt now receipt inbox =
    create_by (record receipt { id = inbox.next_id; created_at = now }) inbox
      (find? (has_key receipt.receipt_key) inbox.receipts)

abbrev link : String → ℕ → MetaWebhookReceipt → MetaWebhookReceipt
link provider_message_id event_id receipt =
    if str_eq receipt.provider_message_id provider_message_id
      && (if is_some receipt.notification_event_id then false else true)
    then record receipt { notification_event_id = some event_id }
    else receipt

abbrev map_receipts :
    (MetaWebhookReceipt → MetaWebhookReceipt) → List MetaWebhookReceipt → List MetaWebhookReceipt
map_receipts f [] = []
map_receipts f (r ∷ rest) = f r ∷ map_receipts f rest

unfoldable pub reconcile_meta_webhook_receipts : String → ℕ → Inbox → Inbox
reconcile_meta_webhook_receipts provider_message_id event_id inbox = record inbox {
  receipts = map_receipts (link provider_message_id event_id) inbox.receipts;
}

pub record ReplyRequest : Type 0 where
  pub receipt_key : String
  pub inbound_message_id : String
  pub sender_key : String
  pub message_type : String
  pub provider_timestamp : Option Instant
  pub waba_id : String
  pub phone_number_id : String
  pub window_start : Instant

pub data ReplyReason : Type 0 where
  claimed duplicate rate_limited : ReplyReason

pub record ReplyClaim : Type 0 where
  pub reason : ReplyReason
  pub inbox : Inbox

-- A reply that went out, may have gone out or is under way.
abbrev pub counts : ReceiptText → Bool
counts (reply_claimed type) = true
counts (reply_sent type) = true
counts (reply_unknown type) = true
counts (reply_failed type) = false
counts (status_text text) = false

abbrev pub is_sender : String → Summary → Bool
is_sender key no_summary = false
is_sender key (of_sender other) = str_eq other key
is_sender key (summary_text text) = false

abbrev pub is_recent : String → Instant → MetaWebhookReceipt → Bool
is_recent sender_key window_start item =
    is_sender sender_key item.payload_summary
    && leb window_start item.created_at
    && counts item.status

abbrev pub reply_receipt : Instant → ℕ → ReplyRequest → MetaWebhookReceipt
reply_receipt now id request = record {
  id = id;
  receipt_key = request.receipt_key;
  provider_message_id = request.inbound_message_id;
  status = reply_claimed request.message_type;
  provider_timestamp = request.provider_timestamp;
  error_code = none;
  waba_id = request.waba_id;
  phone_number_id = request.phone_number_id;
  notification_event_id = none;
  payload_summary = of_sender request.sender_key;
  created_at = now;
}

unfoldable pub claim_meta_inbound_auto_reply : Instant → ReplyRequest → Inbox → ReplyClaim
claim_meta_inbound_auto_reply now request inbox =
    if any (has_key request.receipt_key) inbox.receipts
    then record { reason = duplicate; inbox = inbox }
    else if any (is_recent request.sender_key request.window_start) inbox.receipts
    then record { reason = rate_limited; inbox = inbox }
    else record { reason = claimed; inbox = push (reply_receipt now inbox.next_id request) inbox }

unfoldable pub set_status :
    ℕ → ReceiptText → Option String → List MetaWebhookReceipt → List MetaWebhookReceipt
set_status id status error_code [] = []
set_status id status error_code (r ∷ rest) =
    if r.id == id
    then record r { status = status; error_code = error_code } ∷ rest
    else r ∷ set_status id status error_code rest

unfoldable pub complete_meta_inbound_auto_reply : ℕ → ReceiptText → Option String → Inbox → Inbox
unfolding set_status
complete_meta_inbound_auto_reply id status error_code inbox = record inbox {
  receipts = set_status id status error_code inbox.receipts;
}
