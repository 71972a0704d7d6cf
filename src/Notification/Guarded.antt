-- ===== src/Notification/Guarded.antt =====
-- A budget for the runs of the worker: WhatsApp messages in the name of one event are paid for by
-- granted claims of its attempt (server/appointment-notifications.ts).
use barber_bookings.Common.{
  ℕ, ◌+◌, ◌≤◌, Bool, true, false, ◌&&◌, Option, none, ◌≡◌, arith, ◌==◌, is_some, if◌then◌else◌,
}
use barber_bookings.Delivery.Calls.{attempt_whatsapp, claim, claim_next, fallback, update}
use barber_bookings.Delivery.Claims.{one_if}
use barber_bookings.Delivery.Columns.{DeliveryPatch, DeliveryRow}
use barber_bookings.Schema.{Instant}
use barber_bookings.Notification.Effects.{
  Answer, Effect, Program, await, clock, get_appointment, get_event, get_event_by_provider_id,
  get_receipts, get_series, link_receipts, look_up, outbox, pure, send_email, send_whatsapp, ◌>>=◌,
}

module _ (id : ℕ) where
  -- A granted claim of the attempt of the event adds one, a message takes one away, and no patch writes
  -- the time of the attempt.
  abbrev pub Spend : (e : Effect) → ℕ → (Answer e → ℕ → Type 0) → Type 0
  Spend (outbox (attempt_whatsapp now other)) n next =
      (row : Option DeliveryRow) → next row (n + one_if ((other == id) && is_some row))
  Spend (outbox (update now other patch)) n next =
      (patch.whatsapp_attempted_at ≡ none) × ((row : Option DeliveryRow) → next row n)
  Spend (send_whatsapp m) n next =
      (left : ℕ) × (left + one_if (m.event_id == id) ≤ n)
      × ((a : Answer (send_whatsapp m)) → next a left)
  Spend e n next = (a : Answer e) → next a n

  -- Every run keeps to the budget.
  unfoldable pub Guarded : {A : Type 0} → ℕ → Program A → Type 0
  Guarded n (pure a) = Unit
  Guarded n (await e k) = Spend e n (λ a m. Guarded m (k a))

  Spend-map :
      (e : Effect) (n m : ℕ) (P Q : Answer e → ℕ → Type 0)
      → n ≤ m
      → ((a : Answer e) (i j : ℕ) → i ≤ j → P a i → Q a j)
      → Spend e n P
      → Spend e m Q
  Spend-map clock n m P Q le f s = λ a. f a n m le (s a)
  Spend-map (outbox (claim now other available include)) n m P Q le f s = λ a. f a n m le (s a)
  Spend-map (outbox (claim_next now lease unattempted available include opted_in)) n m P Q le f s =
      λ a. f a n m le (s a)
  Spend-map (outbox (attempt_whatsapp now other)) n m P Q le f s = λ a. f a _ _ (omega arith) (s a)
  Spend-map (outbox (update now other patch)) n m P Q le f s = (s.0, λ a. f a n m le (s.1 a))
  Spend-map (outbox (fallback now other)) n m P Q le f s = λ a. f a n m le (s a)
  Spend-map (get_event other) n m P Q le f s = λ a. f a n m le (s a)
  Spend-map (get_appointment other) n m P Q le f s = λ a. f a n m le (s a)
  Spend-map (look_up a) n m P Q le f s = λ a. f a n m le (s a)
  Spend-map (get_series other) n m P Q le f s = λ a. f a n m le (s a)
  Spend-map (link_receipts message other) n m P Q le f s = λ a. f a n m le (s a)
  Spend-map (get_event_by_provider_id message) n m P Q le f s = λ a. f a n m le (s a)
  Spend-map (get_receipts message) n m P Q le f s = λ a. f a n m le (s a)
  Spend-map (send_whatsapp message) n m P Q le f (left, paid, s) =
      (left, omega arith, λ a. f a left left (omega arith) (s a))
  Spend-map (send_email message) n m P Q le f s = λ a. f a n m le (s a)

  pub Guarded-more : {A : Type 0} (n m : ℕ) (p : Program A) → n ≤ m → Guarded n p → Guarded m p
  unfolding Guarded
  Guarded-more n m (pure a) le g = tt
  Guarded-more n m (await e k) le g =
      Spend-map e n m (λ a i. Guarded i (k a)) (λ a i. Guarded i (k a)) le
        (λ a i j l h. Guarded-more i j (k a) l h) g

  pub Guarded-bind :
      {A B : Type 0} (n : ℕ) (p : Program A) (f : A → Program B)
      → Guarded n p
      → ((a : A) → Guarded 0 (f a))
      → Guarded n (p >>= f)
  unfolding Guarded
  Guarded-bind n (pure a) f g h = Guarded-more 0 n (f a) (omega arith) (h a)
  Guarded-bind n (await e k) f g h =
      Spend-map e n n (λ a i. Guarded i (k a)) (λ a i. Guarded i (k a >>= f)) (omega arith)
        (λ a i j l q. Guarded-bind j (k a) f (Guarded-more i j (k a) l q) h) g

  pub Guarded-pure : {A : Type 0} (n : ℕ) (a : A) → Guarded n (pure a)
  unfolding Guarded
  Guarded-pure n a = tt

  pub Guarded-await :
      {A : Type 0} (n : ℕ) (e : Effect) (k : Answer e → Program A)
      → Spend e n (λ a m. Guarded m (k a))
      → Guarded n (await e k)
  unfolding Guarded
  Guarded-await n e k s = s

  -- A patch of the row, then `p`.
  pub Guarded-update :
      {A : Type 0} (n other : ℕ) (patch : Instant → DeliveryPatch) (p : Program A)
      → ((now : Instant) → (patch now).whatsapp_attempted_at ≡ none)
      → Guarded n p
      → Guarded n (await clock (λ now. await (outbox (update now other (patch now))) (λ row. p)))
  unfolding Guarded
  Guarded-update n other patch p quiet g = λ now. (quiet now, λ row. g)

  pub Guarded-last :
      {A : Type 0} (n other : ℕ) (patch : Instant → DeliveryPatch) (a : A)
      → ((now : Instant) → (patch now).whatsapp_attempted_at ≡ none)
      → Guarded n
          (await clock (λ now. await (outbox (update now other (patch now))) (λ row. pure a)))
  Guarded-last n other patch a quiet =
      Guarded-update n other patch (pure a) quiet (Guarded-pure n a)

  pub Guarded-if :
      {A : Type 0} (n : ℕ) (b : Bool) (p q : Program A)
      → Guarded n p
      → Guarded n q
      → Guarded n (if b then p else q)
  Guarded-if n true p q g h = g
  Guarded-if n false p q g h = h
