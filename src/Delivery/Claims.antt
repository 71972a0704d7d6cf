-- ===== src/Delivery/Claims.antt =====
-- About `claimAppointmentNotificationWhatsappAttempt` (server/storage.ts) among the other calls.
use barber_bookings.Common.{
  ℕ, ◌+◌, ◌≤◌, Bool, true, false, ◌&&◌, List, [], ◌∷◌, Option, none, some, get_or, find?, is_some,
  ◌≡◌, refl, ap, ◌∙◌, arith, ◌==◌, ==_iff, Bool-cases, inl, inr, if◌then◌else◌, All,
}
use barber_bookings.Schema.{Instant}
use barber_bookings.Delivery.{
  attempt_found, claim_appointment_notification_event,
  claim_appointment_notification_webhook_fallback, claim_appointment_notification_whatsapp_attempt,
  claim_found, claim_next_appointment_notification_event, has_event_id,
  update_appointment_notification_event, start_processing, attempt_now, fall_back,
}
use barber_bookings.Delivery.Columns.{DeliveryPatch, DeliveryRow, Rows, apply_patch, change_first}
use barber_bookings.Delivery.Calls.{
  Call, IsPatch, attempt_whatsapp, claim, claim_next, fallback, granted_attempts, is_attempt_of,
  perform, update,
}

-- The first row of the event has the time of an attempt.
unfoldable pub attempted : ℕ → Rows → Bool
attempted id [] = false
attempted id (row ∷ rest) =
    if has_event_id id row then is_some row.whatsapp_attempted_at else attempted id rest

-- A change that keeps the id and, for the event `id`, whether there was an attempt.
Keeps : ℕ → (DeliveryRow → Bool) → (DeliveryRow → DeliveryRow) → Type 0
Keeps id test change =
    (row : DeliveryRow)
    → test row ≡ true
    → (has_event_id id (change row) ≡ has_event_id id row)
      × (has_event_id id row ≡ true
          → is_some (change row).whatsapp_attempted_at ≡ is_some row.whatsapp_attempted_at)

attempted-change_first :
    (id : ℕ) (test : DeliveryRow → Bool) (change : DeliveryRow → DeliveryRow) (rows : Rows)
    → Keeps id test change
    → attempted id (change_first test change rows).rows ≡ attempted id rows
unfolding attempted change_first Keeps
attempted-change_first id test change [] k = refl
attempted-change_first id test change (row ∷ rest) k =
    let later = attempted-change_first id test change rest k in
    elim (Bool-cases (test row)) [
      | inr f ↦ rw (f, attempted, later) refl
      | inl t ↦
          let (same, kept) = k row t in
          elim (Bool-cases (has_event_id id row)) [
            | inl h ↦ rw (t, attempted, same, h, kept h) refl
            | inr h ↦ rw (t, attempted, same, h) refl
          ]
    ]

start_processing-Keeps :
    (id : ℕ) (test : DeliveryRow → Bool) (now : Instant) → Keeps id test (start_processing now)
unfolding Keeps
start_processing-Keeps id test now = λ row t. (refl, λ h. refl)

fall_back-Keeps :
    (id : ℕ) (test : DeliveryRow → Bool) (now : Instant) → Keeps id test (fall_back now)
unfolding Keeps
fall_back-Keeps id test now = λ row t. (refl, λ h. refl)

apply_patch-Keeps :
    (id : ℕ) (test : DeliveryRow → Bool) (now : Instant) (patch : DeliveryPatch)
    → patch.whatsapp_attempted_at ≡ none
    → Keeps id test (apply_patch now patch)
unfolding Keeps apply_patch
apply_patch-Keeps id test now patch e =
    λ row t. (refl, λ h. ap (λ o. is_some (get_or o row.whatsapp_attempted_at)) e)

attempt_now-Keeps :
    (id other : ℕ) (now : Instant)
    → (other == id) ≡ false
    → Keeps id (has_event_id other) (attempt_now now)
unfolding Keeps
attempt_now-Keeps id other now e = λ row t. (refl, λ h. absurd (differ row.event.id other id t h e))
  where
    differ : (x a b : ℕ) → (x == a) ≡ true → (x == b) ≡ true → (a == b) ≡ false → ⊥
    differ x a b t h e = ground arith

attempted-claim_found :
    (id : ℕ) (test : DeliveryRow → Bool) (now : Instant) (o : Option DeliveryRow) (rows : Rows)
    → attempted id (claim_found test now o rows).rows ≡ attempted id rows
attempted-claim_found id test now none rows = refl
attempted-claim_found id test now (some row) rows =
    elim (Bool-cases (is_some row.processing_started_at)) [
      | inl t ↦ rw t refl
      | inr f ↦ rw f (
          attempted-change_first id test (start_processing now) rows
            (start_processing-Keeps id test now))
    ]

attempted-attempt_other :
    (id other : ℕ) (now : Instant) (o : Option DeliveryRow) (rows : Rows)
    → (other == id) ≡ false
    → attempted id (attempt_found other now o rows).rows ≡ attempted id rows
attempted-attempt_other id other now none rows e = refl
attempted-attempt_other id other now (some row) rows e =
    elim (Bool-cases (is_some row.whatsapp_attempted_at)) [
      | inl t ↦ rw t refl
      | inr f ↦ rw f (
          attempted-change_first id (has_event_id other) (attempt_now now) rows
            (attempt_now-Keeps id other now e))
    ]

-- Another call keeps what is attempted.
attempted-perform :
    (id : ℕ) (call : Call) (rows : Rows)
    → IsPatch call
    → is_attempt_of id call ≡ false
    → attempted id (perform call rows).rows ≡ attempted id rows
unfolding perform claim_appointment_notification_event claim_next_appointment_notification_event
    claim_appointment_notification_whatsapp_attempt update_appointment_notification_event
    claim_appointment_notification_webhook_fallback
attempted-perform id (claim now other available include) rows p f =
    attempted-claim_found id _ now _ rows
attempted-perform id (claim_next now lease unattempted available include opted_in) rows p f =
    attempted-change_first id _ (start_processing now) rows (start_processing-Keeps id _ now)
attempted-perform id (attempt_whatsapp now other) rows p f =
    attempted-attempt_other id other now _ rows f
attempted-perform id (update now other patch) rows p f =
    attempted-change_first id _ (apply_patch now patch) rows (apply_patch-Keeps id _ now patch p)
attempted-perform id (fallback now other) rows p f =
    attempted-change_first id _ (fall_back now) rows (fall_back-Keeps id _ now)

attempted-find? :
    (id : ℕ) (rows : Rows) (row : DeliveryRow)
    → find? (has_event_id id) rows ≡ some row
    → attempted id rows ≡ is_some row.whatsapp_attempted_at
unfolding attempted
attempted-find? id [] row e = absurd (ground arith)
attempted-find? id (r ∷ rest) row e = elim (Bool-cases (has_event_id id r)) [
  | inl t ↦ let same : some r ≡ some row = rw t at e in rw t (some_attempt r row same)
  | inr f ↦ rw f (attempted-find? id rest row (rw f at e))
]
  where
    some_attempt :
        (a b : DeliveryRow)
        → some a ≡ some b
        → is_some a.whatsapp_attempted_at ≡ is_some b.whatsapp_attempted_at
    some_attempt a b e =
        ap (λ o. elim o [ none ↦ false | some x ↦ is_some x.whatsapp_attempted_at ]) e

attempted_after :
    (id : ℕ) (now : Instant) (rows : Rows) (row : DeliveryRow)
    → find? (has_event_id id) rows ≡ some row
    → attempted id (change_first (has_event_id id) (attempt_now now) rows).rows ≡ true
unfolding attempted change_first
attempted_after id now [] row e = absurd (ground arith)
attempted_after id now (r ∷ rest) row e = elim (Bool-cases (has_event_id id r)) [
  | inl t ↦ rw (t, attempted, t) refl
  | inr f ↦ rw (f, attempted, f) (attempted_after id now rest row (rw f at e))
]

abbrev pub one_if : Bool → ℕ
one_if b = if b then 1 else 0

own_attempt :
    (id : ℕ) (now : Instant) (rows : Rows) (o : Option DeliveryRow)
    → find? (has_event_id id) rows ≡ o
    → one_if (is_some (attempt_found id now o rows).row) + one_if (attempted id rows)
      ≤ one_if (attempted id (attempt_found id now o rows).rows)
own_attempt id now rows none e = omega arith
own_attempt id now rows (some row) e = elim (Bool-cases (is_some row.whatsapp_attempted_at)) [
  | inl t ↦ rw t (omega arith)
  | inr f ↦
      let before : attempted id rows ≡ false = attempted-find? id rows row e ∙ f in
      rw (f, before, attempted_after id now rows row e) (granted_once _)
]
  where
    granted_once : (b : Bool) → one_if b + 0 ≤ 1
    granted_once true = omega arith
    granted_once false = omega arith

own_attempt_by :
    (id other : ℕ) (now : Instant) (rows : Rows)
    → other ≡ id
    → one_if (is_some (claim_appointment_notification_whatsapp_attempt now other rows).row)
        + one_if (attempted id rows)
      ≤ one_if (attempted id (claim_appointment_notification_whatsapp_attempt now other rows).rows)
unfolding claim_appointment_notification_whatsapp_attempt
own_attempt_by id other now rows e =
    rw e (own_attempt id now rows (find? (has_event_id id) rows) refl)

own_call :
    (id : ℕ) (call : Call) (rows : Rows)
    → is_attempt_of id call ≡ true
    → one_if (is_some (perform call rows).row) + one_if (attempted id rows)
      ≤ one_if (attempted id (perform call rows).rows)
unfolding perform
own_call id (claim now other available include) rows t = absurd (ground arith)
own_call id (claim_next now lease unattempted available include opted_in) rows t =
    absurd (ground arith)
own_call id (attempt_whatsapp now other) rows t =
    own_attempt_by id other now rows ((==_iff other id).0 t)
own_call id (update now other patch) rows t = absurd (ground arith)
own_call id (fallback now other) rows t = absurd (ground arith)

pub call_step :
    (id : ℕ) (call : Call) (rows : Rows)
    → IsPatch call
    → one_if (is_attempt_of id call && is_some (perform call rows).row) + one_if (attempted id rows)
      ≤ one_if (attempted id (perform call rows).rows)
call_step id call rows p = elim (Bool-cases (is_attempt_of id call)) [
  | inr f ↦ rw (f, attempted-perform id call rows p f) (omega arith)
  | inl t ↦ rw t (own_call id call rows t)
]

at_most_one : (b : Bool) → 0 + one_if b ≤ 1
at_most_one true = omega arith
at_most_one false = omega arith

granted-bound :
    (id : ℕ) (calls : List Call) (rows : Rows)
    → All IsPatch calls
    → granted_attempts id calls rows + one_if (attempted id rows) ≤ 1
unfolding granted_attempts
granted-bound id [] rows p = at_most_one (attempted id rows)
granted-bound id (call ∷ calls) rows p =
    let step = call_step id call rows p.0 in
    let rest = granted-bound id calls (perform call rows).rows p.1 in omega (arith, step, rest)

-- WhatsApp is attempted at most once per event. However the calls of several workers and webhooks
-- interleave, reclaims after a lease included, the claim of the attempt of an event is granted at most
-- once, provided that no patch writes the time of the attempt.
pub granted_attempts-bound :
    (id : ℕ) (calls : List Call) (rows : Rows)
    → All IsPatch calls
    → granted_attempts id calls rows ≤ 1
granted_attempts-bound id calls rows p = omega (arith, granted-bound id calls rows p)
