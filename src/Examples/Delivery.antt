-- ===== src/Examples/Delivery.antt =====
-- The outbox, its receipts and the verification codes at concrete inputs (server/storage.ts,
-- server/meta-webhook.ts).
use barber_bookings.Common.{◌+◌, ◌≤◌, true, List, [], ◌∷◌, none, some, ◌≡◌, ◌≢◌, refl, arith}
use barber_bookings.Schema.Events.{appointment_confirmation, appointment_key, confirmation}
use barber_bookings.Storage.State.{new_event}
use barber_bookings.Delivery.{
  claim_appointment_notification_event, claim_appointment_notification_webhook_fallback,
  claim_appointment_notification_whatsapp_attempt,
}
use barber_bookings.Delivery.Columns.{DeliveryRow, accepted, change_first, not_needed, pending}
use barber_bookings.Delivery.Calls.{
  Call, attempt_whatsapp, claim, fallback, granted_attempts, perform,
}
use barber_bookings.Delivery.Receipts.{Receipt, delivered_receipt, sent_receipt}
use barber_bookings.Delivery.Inbox.{
  Inbox, ReplyRequest, claim_meta_inbound_auto_reply, claimed, reply_sent,
}
use barber_bookings.Delivery.Inbox.Replies.{claim_meta_inbound_auto_reply-IsLimited, complete, run}
use barber_bookings.Verification.{Codes}
use barber_bookings.Verification.Once.{
  accepted_count, accepted_count-bound, create, created_count, get, unused_count,
}

abbrev pub row : DeliveryRow
row = record {
  event =
      new_event 1 1 appointment_confirmation 1 (appointment_key 1 confirmation 1) 0 0 none none 0;
  provider = none;
  template_name = none;
  whatsapp_status = pending;
  provider_message_id = none;
  provider_status = none;
  response_status = none;
  error_code = none;
  processing_started_at = none;
  processing_completed_at = none;
  whatsapp_attempted_at = none;
  whatsapp_accepted_at = none;
  sent_at = none;
  delivered_at = none;
  read_at = none;
  failed_at = none;
  last_provider_timestamp = none;
  webhook_fallback_claimed_at = none;
  email_status = not_needed;
  email_provider_message_id = none;
  email_error_code = none;
  email_attempted_at = none;
  email_sent_at = none;
}

-- Two workers race for one event.
abbrev race : List Call
race = claim 5 1 5 true ∷ attempt_whatsapp 6 1 ∷ attempt_whatsapp 7 1 ∷ fallback 8 1 ∷ []

one_granted : granted_attempts 1 race (row ∷ []) ≡ 1
unfolding granted_attempts perform claim_appointment_notification_whatsapp_attempt change_first
    new_event claim_appointment_notification_event claim_appointment_notification_webhook_fallback
one_granted = refl

-- The receipt of the sending comes last.
abbrev receipts : List Receipt
receipts =
    record { status = delivered_receipt; provider_timestamp = some 9; provider_text = "" }
    ∷ record { status = sent_receipt; provider_timestamp = some 8; provider_text = "" }
    ∷ []

abbrev accepted_row : DeliveryRow
accepted_row = record row { whatsapp_status = accepted }

abbrev empty_inbox : Inbox
empty_inbox = record { receipts = []; next_id = 1 }

abbrev hello : ReplyRequest
hello = record {
  receipt_key = "a";
  inbound_message_id = "m1";
  sender_key = "ana";
  message_type = "text";
  provider_timestamp = none;
  waba_id = "w";
  phone_number_id = "p";
  window_start = 0;
}

abbrev again : ReplyRequest
again = record hello { receipt_key = "b"; inbound_message_id = "m2"; window_start = 50 }

claim_meta_inbound_auto_reply-IsLimited_example :
    (claim_meta_inbound_auto_reply 150 again (
      run
        (complete 1 (reply_sent "text") none ∷ [])
        (claim_meta_inbound_auto_reply 100 hello empty_inbox).inbox)).reason
    ≢ claimed
unfolding claim_meta_inbound_auto_reply
claim_meta_inbound_auto_reply-IsLimited_example =
    claim_meta_inbound_auto_reply-IsLimited 100 150 hello again
      (complete 1 (reply_sent "text") none ∷ []) empty_inbox refl refl (omega arith) (refl, tt)

abbrev no_codes : Codes
no_codes = record { verification_codes = []; next_id = 1 }

accepted_count-bound_example :
    accepted_count "9" "1234"
      (create 0 "9" "1234" ∷ get 1 "9" "1234" ∷ get 2 "9" "1234" ∷ [])
      no_codes
    ≤ unused_count "9" "1234" []
      + created_count "9" "1234" (create 0 "9" "1234" ∷ get 1 "9" "1234" ∷ get 2 "9" "1234" ∷ [])
accepted_count-bound_example =
    accepted_count-bound "9" "1234" (create 0 "9" "1234" ∷ get 1 "9" "1234" ∷ get 2 "9" "1234" ∷ [])
      no_codes
