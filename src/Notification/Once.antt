-- ===== src/Notification/Once.antt =====
-- About the runs of server/appointment-notifications.ts side by side: what they send, and what the
-- outbox grants them.
use barber_bookings.Common.{
  ℕ, ◌+◌, ◌≤◌, Bool, true, false, ◌&&◌, List, [], ◌∷◌, ◌++◌, Option, none, ◌≡◌, inl, inr, refl,
  arith, ◌==◌, is_some,
}
use barber_bookings.Schema.{Instant}
use barber_bookings.Delivery.Calls.{
  Call, IsPatch, attempt_whatsapp, claim, claim_next, fallback, perform, update,
}
use barber_bookings.Delivery.Claims.{attempted, call_step, one_if}
use barber_bookings.Delivery.Columns.{DeliveryRow, Rows}
use barber_bookings.Notification.Effects.{
  Answer, Effect, Program, await, clock, get_appointment, get_event, get_event_by_provider_id,
  get_receipts, get_series, link_receipts, look_up, outbox, pure, send_email, send_whatsapp,
}
use barber_bookings.Notification.{NotificationDependencies}
use barber_bookings.Notification.Email.{process_meta_late_failure_email_fallback}
use barber_bookings.Notification.Worker.{
  process_appointment_notification, process_pending_appointment_notifications,
}
use barber_bookings.Notification.Guarded.{Guarded, Guarded-bind, Guarded-pure, Spend}
use barber_bookings.Notification.Budget.{process_meta_late_failure_email_fallback-Guarded}
use barber_bookings.Notification.Spending.{
  process_appointment_notification-Guarded, process_pending_appointment_notifications-Guarded,
}
use barber_bookings.Notification.System.{
  Happens, Moves, Outside, Reach, Start, Step, World, here, moves, of_event, of_failure, of_timer,
  outside, sent_count, started, starts,
}

module _ (id : ℕ) where
  -- The runs keep to budgets that sum to at most `n`.
  abbrev Budgets : ℕ → List (Program (Unit {0})) → Type 0
  Budgets n [] = Unit
  Budgets n (p ∷ ps) = (m l : ℕ) × (m + l ≤ n) × Guarded id m p × Budgets l ps

  -- What was sent and what may be sent is at most what was granted.
  abbrev Inv : World → List (Program (Unit {0})) → Type 0
  Inv w ps = (n : ℕ) × (sent_count id w.sent + n ≤ one_if (attempted id w.rows)) × Budgets n ps

  started-Guarded : (deps : NotificationDependencies) (s : Start) → Guarded id 0 (started deps s)
  unfolding started
  started-Guarded deps (of_event other) =
      Guarded-bind id 0 (process_appointment_notification deps other) _
        (process_appointment_notification-Guarded id deps other) (λ o. Guarded-pure id _ _)
  started-Guarded deps (of_timer lease_ms opted_in) =
      Guarded-bind id 0 (process_pending_appointment_notifications deps lease_ms opted_in) _
        (process_pending_appointment_notifications-Guarded id deps lease_ms opted_in)
        (λ o. Guarded-pure id _ _)
  started-Guarded deps (of_failure other) =
      Guarded-bind id 0 (process_meta_late_failure_email_fallback deps other) _
        (process_meta_late_failure_email_fallback-Guarded id deps other) (λ o. Guarded-pure id _ _)

  -- A step leaves a budget: it pays what it sends, and is paid what it is granted.
  abbrev Paid : World → World → ℕ → ℕ → Type 0
  Paid w v n m =
      sent_count id v.sent + m + one_if (attempted id w.rows)
      ≤ sent_count id w.sent + n + one_if (attempted id v.rows)

  abbrev Left : World → World → ℕ → (ℕ → Type 0) → Type 0
  Left w v n next = (m : ℕ) × next m × Paid w v n m

  still : (w v : World) (n : ℕ) → v ≡ w → Paid w v n n
  still w v n e = rw e (omega arith)

  -- A call that is no claim of the attempt.
  called :
      (call : Call) (w v : World) (n : ℕ)
      → IsPatch call
      → v ≡ record w { rows = (perform call w.rows).rows }
      → Paid w v n n
  called call w v n p e = let step = call_step id call w.rows p in rw e (omega (arith, step))

  claimed :
      (now : Instant) (other : ℕ) (row : Option DeliveryRow) (w v : World) (n : ℕ)
      → row ≡ (perform (attempt_whatsapp now other) w.rows).row
      → v ≡ record w { rows = (perform (attempt_whatsapp now other) w.rows).rows }
      → Paid w v n (n + one_if ((other == id) && is_some row))
  claimed now other row w v n f e =
      let step = call_step id (attempt_whatsapp now other) w.rows tt in
      rw (e, f) (omega (arith, step))

  messaged :
      (other left n : ℕ) (w v : World)
      → left + one_if (other == id) ≤ n
      → v ≡ record w { sent = other ∷ w.sent }
      → Paid w v n left
  unfolding sent_count
  messaged other left n w v le e = rw e (omega arith)

  Happens-Paid :
      (e : Effect) (a : Answer e) (w v : World) (n : ℕ) (next : Answer e → ℕ → Type 0)
      → Happens e a w v
      → Spend id e n next
      → Left w v n (next a)
  Happens-Paid clock a w v n next h s = (n, s a, still w v n h)
  Happens-Paid (outbox (claim now other available include)) a w v n next (f, h) s =
      (n, s a, called (claim now other available include) w v n tt h)
  Happens-Paid (outbox (claim_next now lease unattempted available include opted_in)) a w v n next
        (f, h) s =
      (n, s a, called (claim_next now lease unattempted available include opted_in) w v n tt h)
  Happens-Paid (outbox (attempt_whatsapp now other)) a w v n next (f, h) s =
      (_, s a, claimed now other a w v n f h)
  Happens-Paid (outbox (update now other patch)) a w v n next (f, h) s =
      (n, s.1 a, called (update now other patch) w v n s.0 h)
  Happens-Paid (outbox (fallback now other)) a w v n next (f, h) s =
      (n, s a, called (fallback now other) w v n tt h)
  Happens-Paid (get_event other) a w v n next h s = (n, s a, still w v n h)
  Happens-Paid (get_appointment other) a w v n next h s = (n, s a, still w v n h)
  Happens-Paid (look_up b) a w v n next h s = (n, s a, still w v n h)
  Happens-Paid (get_series other) a w v n next h s = (n, s a, still w v n h)
  Happens-Paid (link_receipts message other) a w v n next h s = (n, s a, still w v n h)
  Happens-Paid (get_event_by_provider_id message) a w v n next h s = (n, s a, still w v n h)
  Happens-Paid (get_receipts message) a w v n next h s = (n, s a, still w v n h)
  Happens-Paid (send_whatsapp message) a w v n next h (left, le, s) =
      (left, s a, messaged message.event_id left n w v le h)
  Happens-Paid (send_email message) a w v n next h s = (n, s a, still w v n h)

  Step-Paid :
      (w v : World) (p q : Program (Unit {0})) (n : ℕ)
      → Step w p v q
      → Guarded id n p
      → Left w v n (λ m. Guarded id m q)
  unfolding Guarded
  Step-Paid w v (pure a) q n h g = absurd h
  Step-Paid w v (await e k) q n (a, h, same) g =
      let (m, r, paid) = Happens-Paid e a w v n (λ a m. Guarded id m (k a)) h g in
      (m, rw (same, Guarded) r, paid)

  Moves-Paid :
      (w v : World) (ps qs : List (Program (Unit {0}))) (n : ℕ)
      → Moves w ps v qs
      → Budgets n ps
      → Left w v n (λ m. Budgets m qs)
  Moves-Paid w v [] qs n h b = absurd h
  Moves-Paid w v (p ∷ ps) qs n (inl (q, s, same)) (i, l, le, g, b) =
      let (m, r, paid) = Step-Paid w v p q i s g in
      (m + l, rw (same, Budgets) (m, l, omega arith, r, b), omega (arith, le, paid))
  Moves-Paid w v (p ∷ ps) qs n (inr (rest, s, same)) (i, l, le, g, b) =
      let (m, r, paid) = Moves-Paid w v ps rest l s b in
      (i + m, rw (same, Budgets) (i, m, omega arith, g, r), omega (arith, le, paid))

  attempted-append :
      (rows : Rows) (row : DeliveryRow)
      → row.whatsapp_attempted_at ≡ none
      → attempted id (rows ++ row ∷ []) ≡ attempted id rows
  unfolding attempted
  attempted-append [] row e = rw e (ground arith)
  attempted-append (x ∷ rows) row e = rw (attempted-append rows row e) refl

  Outside-Inv : (w v : World) (ps : List (Program (Unit {0}))) → Outside w v → Inv w ps → Inv v ps
  Outside-Inv w v ps (inl (call, p, e)) (n, le, b) =
      let step = call_step id call w.rows p in (n, rw e (omega (arith, step)), b)
  Outside-Inv w v ps (inr (row, fresh, e)) (n, le, b) =
      (n, rw (e, attempted-append w.rows row fresh) le, b)

  Reach-Inv :
      {rows : Rows} {w : World} {ps : List (Program (Unit {0}))} → Reach rows w ps → Inv w ps
  unfolding sent_count
  Reach-Inv here = (0, omega arith, tt)
  Reach-Inv (starts deps s r) =
      let (n, le, b) = Reach-Inv r in (n, le, (0, n, omega arith, started-Guarded deps s, b))
  Reach-Inv (moves {w} {v} {ps} {qs} r h) =
      let (n, le, b) = Reach-Inv r in
      let (m, c, paid) = Moves-Paid w v ps qs n h b in (m, omega (arith, le, paid), c)
  Reach-Inv (outside {w} {v} {ps} r h) = Outside-Inv w v ps h (Reach-Inv r)

-- However many runs of the notification worker there are, and however they, the webhooks and the
-- storage interleave between their `await`s, at most one WhatsApp message is sent in the name of an
-- event, of one appointment or of a series, provided that no patch from elsewhere writes the time of the
-- attempt and new events come without one.
pub whatsapp_sent-bound :
    (id : ℕ) (rows : Rows) (w : World) (ps : List (Program (Unit {0})))
    → Reach rows w ps
    → sent_count id w.sent ≤ 1
whatsapp_sent-bound id rows w ps r =
    let (n, le, b) = Reach-Inv id r in omega (arith, le, one_if_le (attempted id w.rows))
  where
    one_if_le : (b : Bool) → one_if b ≤ 1
    one_if_le true = omega arith
    one_if_le false = omega arith
