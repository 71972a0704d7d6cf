-- ===== src/Delivery/Inbox/Replies.antt =====
-- About the replies to customers who write (server/storage.ts).
use barber_bookings.Common.{
  ℕ, String, ◌≤◌, Bool, true, false, ◌&&◌, ◌||◌, List, [], ◌∷◌, ◌++◌, Option, none, some, any,
  is_some, ◌≡◌, ◌≢◌, refl, ◌∙◌, arith, leb, le→leb, ◌==◌, str_eq, str_eq_iff, Bool-cases, inl, inr,
  if◌then◌else◌, All,
}
use barber_bookings.Schema.{Instant}
use barber_bookings.Delivery.Inbox.{
  Inbox, MetaWebhookReceipt, ReceiptText, ReplyRequest, claim_meta_inbound_auto_reply, claimed,
  complete_meta_inbound_auto_reply, counts, create_by, create_meta_webhook_receipt, duplicate,
  has_key, is_recent, is_sender, link, map_receipts, rate_limited, reconcile_meta_webhook_receipts,
  reply_receipt, set_status,
}

-- The calls on the inbox.
pub data Call : Type 0 where
  create : Instant → MetaWebhookReceipt → Call
  reconcile : String → ℕ → Call
  claim : Instant → ReplyRequest → Call
  complete : ℕ → ReceiptText → Option String → Call

unfoldable pub perform : Call → Inbox → Inbox
unfolding create_meta_webhook_receipt reconcile_meta_webhook_receipts claim_meta_inbound_auto_reply
    complete_meta_inbound_auto_reply
perform (create now receipt) inbox = (create_meta_webhook_receipt now receipt inbox).inbox
perform (reconcile message event) inbox = reconcile_meta_webhook_receipts message event inbox
perform (claim now request) inbox = (claim_meta_inbound_auto_reply now request inbox).inbox
perform (complete id status error) inbox = complete_meta_inbound_auto_reply id status error inbox

unfoldable pub run : List Call → Inbox → Inbox
unfolding perform
run [] inbox = inbox
run (call ∷ calls) inbox = run calls (perform call inbox)

-- No reply is reported as failed.
abbrev pub IsNoFailure : Call → Type 0
IsNoFailure (complete id status error) = counts status ≡ true
IsNoFailure _ = Unit

any-append :
    {A : Type 0} (p : A → Bool) (xs ys : List A) → any p xs ≡ true → any p (xs ++ ys) ≡ true
any-append p [] ys h = absurd (ground arith)
any-append p (x ∷ xs) ys h = ground (arith, any-append p xs ys)

any-last :
    {A : Type 0} (p : A → Bool) (xs : List A) (y : A) → p y ≡ true → any p (xs ++ y ∷ []) ≡ true
any-last p [] y h = rw h refl
any-last p (x ∷ xs) y h = ground (arith, any-last p xs y)

-- A test that a change keeps true.
any-map_receipts :
    (p : MetaWebhookReceipt → Bool) (f : MetaWebhookReceipt → MetaWebhookReceipt)
    (rs : List MetaWebhookReceipt)
    → ((r : MetaWebhookReceipt) → p (f r) ≡ p r)
    → any p (map_receipts f rs) ≡ any p rs
any-map_receipts p f [] h = refl
any-map_receipts p f (r ∷ rs) h = rw (h r, any-map_receipts p f rs h) refl

-- A reply to the sender since the start of the window.
module _ (sender : String) (window_start : Instant) where
  recent : MetaWebhookReceipt → Bool
  recent r = is_recent sender window_start r

  link-recent :
      (message : String) (event : ℕ) (r : MetaWebhookReceipt)
      → recent (link message event r) ≡ recent r
  unfolding recent
  link-recent message event r = by_test (
      str_eq r.provider_message_id message
      && (if is_some r.notification_event_id then false else true))
    where
      by_test :
          (b : Bool)
          → is_recent sender window_start
              (if b then record r { notification_event_id = some event } else r)
            ≡ is_recent sender window_start r
      by_test true = refl
      by_test false = refl

  -- A status that counts keeps a reply recent.
  set_recent :
      (r : MetaWebhookReceipt) (status : ReceiptText) (error : Option String)
      → counts status ≡ true
      → recent r ≡ true
      → recent (record r { status = status; error_code = error }) ≡ true
  unfolding recent
  set_recent r status error c h =
      both_parts (is_sender sender r.payload_summary) (leb window_start r.created_at)
        (counts r.status) (counts status) c h
    where
      both_parts : (a b x y : Bool) → y ≡ true → (a && b && x) ≡ true → (a && b && y) ≡ true
      both_parts a b x y k h = ground arith

  set_status-recent :
      (id : ℕ) (status : ReceiptText) (error : Option String) (rs : List MetaWebhookReceipt)
      → counts status ≡ true
      → any recent rs ≡ true
      → any recent (set_status id status error rs) ≡ true
  unfolding set_status
  set_status-recent id status error [] c h = h
  set_status-recent id status error (r ∷ rs) c h = elim (Bool-cases (r.id == id)) [
    | inl t ↦ elim (Bool-cases (recent r)) [
      | inl k ↦ rw (t, set_recent r status error c k) refl
      | inr k ↦
          let later : any recent rs ≡ true = rw k at h in
          rw t (or_right (recent (record r { status = status; error_code = error })) _ later)
    ]
    | inr f ↦ elim (Bool-cases (recent r)) [
      | inl k ↦ rw (f, k) refl
      | inr k ↦ rw (f, k) (set_status-recent id status error rs c (rw k at h))
    ]
  ]
    where
      or_right : (a b : Bool) → b ≡ true → (a || b) ≡ true
      or_right a b h = ground arith

  create_by-recent :
      (made : MetaWebhookReceipt) (inbox : Inbox) (o : Option MetaWebhookReceipt)
      → any recent inbox.receipts ≡ true
      → any recent (create_by made inbox o).inbox.receipts ≡ true
  create_by-recent made inbox none h = any-append recent inbox.receipts (made ∷ []) h
  create_by-recent made inbox (some existing) h = h

  create-recent :
      (now : Instant) (receipt : MetaWebhookReceipt) (inbox : Inbox)
      → any recent inbox.receipts ≡ true
      → any recent (create_meta_webhook_receipt now receipt inbox).inbox.receipts ≡ true
  unfolding create_meta_webhook_receipt
  create-recent now receipt inbox h = create_by-recent _ inbox _ h

  claim-recent :
      (now : Instant) (request : ReplyRequest) (inbox : Inbox)
      → any recent inbox.receipts ≡ true
      → any recent (claim_meta_inbound_auto_reply now request inbox).inbox.receipts ≡ true
  unfolding claim_meta_inbound_auto_reply
  claim-recent now request inbox h =
      elim (Bool-cases (any (has_key request.receipt_key) inbox.receipts)) [
        | inl t ↦ rw t h
        | inr f ↦
            elim (Bool-cases
              (any (is_recent request.sender_key request.window_start) inbox.receipts)) [
                | inl t ↦ rw (f, t) h
                | inr g ↦ rw (f, g) (any-append recent inbox.receipts _ h)
              ]
      ]

  perform-recent :
      (call : Call) (inbox : Inbox)
      → IsNoFailure call
      → any recent inbox.receipts ≡ true
      → any recent (perform call inbox).receipts ≡ true
  unfolding perform reconcile_meta_webhook_receipts complete_meta_inbound_auto_reply
  perform-recent (create now receipt) inbox p h = create-recent now receipt inbox h
  perform-recent (reconcile message event) inbox p h =
      any-map_receipts recent (link message event) inbox.receipts (link-recent message event) ∙ h
  perform-recent (claim now request) inbox p h = claim-recent now request inbox h
  perform-recent (complete id status error) inbox p h =
      set_status-recent id status error inbox.receipts p h

  run-recent :
      (calls : List Call) (inbox : Inbox)
      → All IsNoFailure calls
      → any recent inbox.receipts ≡ true
      → any recent (run calls inbox).receipts ≡ true
  unfolding run
  run-recent [] inbox p h = h
  run-recent (call ∷ calls) inbox p h =
      run-recent calls (perform call inbox) p.1 (perform-recent call inbox p.0 h)

  -- A claim that is granted leaves a recent reply.
  granted-recent :
      (now : Instant) (request : ReplyRequest) (inbox : Inbox)
      → request.sender_key ≡ sender
      → window_start ≤ now
      → (claim_meta_inbound_auto_reply now request inbox).reason ≡ claimed
      → any recent (claim_meta_inbound_auto_reply now request inbox).inbox.receipts ≡ true
  unfolding claim_meta_inbound_auto_reply recent
  granted-recent now request inbox same le h =
      elim (Bool-cases (any (has_key request.receipt_key) inbox.receipts)) [
        | inl t ↦ absurd (is_claimed (rw t at h))
        | inr f ↦
            elim (Bool-cases
              (any (is_recent request.sender_key request.window_start) inbox.receipts)) [
                | inl t ↦ absurd (is_limited (rw (f, t) at h))
                | inr g ↦
                    rw (f, g)
                      (any-last (is_recent sender window_start) inbox.receipts
                        (reply_receipt now inbox.next_id request)
                        (sent_now ((str_eq_iff request.sender_key sender).1 same)
                          (le→leb window_start now le)))
              ]
      ]
    where
      is_claimed : duplicate ≡ claimed → ⊥
      is_claimed e = ground arith

      is_limited : rate_limited ≡ claimed → ⊥
      is_limited e = ground arith

      sent_now : {a b : Bool} → a ≡ true → b ≡ true → (a && b && true) ≡ true
      sent_now h k = ground arith

recent_refused :
    (later : Instant) (again : ReplyRequest) (inbox : Inbox)
    → any (is_recent again.sender_key again.window_start) inbox.receipts ≡ true
    → (claim_meta_inbound_auto_reply later again inbox).reason ≢ claimed
unfolding claim_meta_inbound_auto_reply
recent_refused later again inbox h granted =
    elim (Bool-cases (any (has_key again.receipt_key) inbox.receipts)) [
      | inl t ↦ not_duplicate (rw t at granted)
      | inr f ↦ not_limited (rw (f, h) at granted)
    ]
  where
    not_duplicate : duplicate ≡ claimed → ⊥
    not_duplicate e = ground arith

    not_limited : rate_limited ≡ claimed → ⊥
    not_limited e = ground arith

-- A sender gets at most one automatic reply per window: once a claim is granted, every claim for the same
-- sender whose window starts no later than the granted claim is refused, after any calls on the receipts in
-- between that report no reply as failed.
pub claim_meta_inbound_auto_reply-IsLimited :
    (now later : Instant) (request again : ReplyRequest) (calls : List Call) (inbox : Inbox)
    → (claim_meta_inbound_auto_reply now request inbox).reason ≡ claimed
    → request.sender_key ≡ again.sender_key
    → again.window_start ≤ now
    → All IsNoFailure calls
    → (claim_meta_inbound_auto_reply later again
        (run calls (claim_meta_inbound_auto_reply now request inbox).inbox)).reason
      ≢ claimed
unfolding recent
claim_meta_inbound_auto_reply-IsLimited now later request again calls inbox h same le p =
    let first = (claim_meta_inbound_auto_reply now request inbox).inbox in
    recent_refused later again (run calls first) (
      run-recent again.sender_key again.window_start calls first p
        (granted-recent again.sender_key again.window_start now request inbox same le h))
