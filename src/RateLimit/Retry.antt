-- ===== src/RateLimit/Retry.antt =====
-- What a refusal of the rate limiter tells the client (server/auth-rate-limit.ts).
use barber_bookings.Common.{
  ℕ, String, ◌+◌, ◌-◌, ◌*◌, ◌≤◌, Bool, true, false, Option, none, some, ◌≡◌, refl, sym, ap, ◌∙◌,
  arith, leb, ltb, Bool-cases, inl, inr,
}
use barber_bookings.Schema.{Instant}
use barber_bookings.RateLimit.{
  Entries, Options, Outcome, RateLimitEntry, attempt, consume, get, prune, retry_seconds, write,
}
use barber_bookings.RateLimit.Entries.{IsUnique, keep_live, prune-IsUnique, prune-cases}
use barber_bookings.RateLimit.Refinement.{attempt-keep_live, keep_live-later}

clash : (b : Bool) → b ≡ true → b ≡ false → ⊥
clash b e f = ground arith

-- A refused attempt met an entry that had not expired, and writes nothing.
attempt_refused :
    (options : Options) (now : Instant) (e : Option RateLimitEntry)
    → (attempt options now e).decision.allowed ≡ false
    → (r : RateLimitEntry) × (e ≡ some r)
      × ((attempt options now e).decision.retry_after_seconds ≡ retry_seconds (r.reset_at - now))
      × ((attempt options now e).entries ≡ none)
unfolding attempt
attempt_refused options now none h = absurd (clash true refl h)
attempt_refused options now (some e) h = elim (Bool-cases (leb e.reset_at now)) [
  | inl t ↦ absurd (clash true refl (rw t at h))
  | inr f ↦ elim (Bool-cases (leb options.max_attempts e.attempts)) [
    | inr m ↦ absurd (clash true refl (rw (f, m) at h))
    | inl m ↦ (e, refl, rw (f, m) refl, rw (f, m) refl)
  ]
]

seconds_enough : (r now : ℕ) → r ≤ now + retry_seconds (r - now) * 1000
seconds_enough r now = ground arith

-- An attempt after the entry has expired is let through.
attempt_expired :
    (options : Options) (later : Instant) (e : RateLimitEntry) (found : Option RateLimitEntry)
    → e.reset_at ≤ later
    → keep_live later found ≡ keep_live later (some e)
    → (attempt options later found).decision.allowed ≡ true
unfolding attempt
attempt_expired options later e found le same =
    let gone : ltb later e.reset_at ≡ false = ground arith in
    let nothing : keep_live later found ≡ none = same ∙ rw gone refl in
    rw (attempt-keep_live options later found, nothing) refl

pruned_live :
    (now : Instant) (key : String) (entries : Entries)
    → IsUnique entries
    → keep_live now (get key (prune now entries)) ≡ keep_live now (get key entries)
pruned_live now key entries unique = elim (prune-cases now key entries unique) [
  | inl e ↦ ap (keep_live now) e
  | inr e ↦ ap (keep_live now) e ∙ keep_live-later now now (get key entries) (omega arith)
]

retried :
    (options : Options) (now later : Instant) (key : String) (entries : Entries)
    (tried : Outcome (Option RateLimitEntry))
    → attempt options now (get key (prune now entries)) ≡ tried
    → IsUnique entries
    → tried.decision.allowed ≡ false
    → now + tried.decision.retry_after_seconds * 1000 ≤ later
    → (attempt options later
        (get key (prune later (write key tried.entries (prune now entries))))).decision.allowed
      ≡ true
unfolding write
retried options now later key entries tried same unique h wait =
    let (r, found, seconds, none_written) =
      attempt_refused options now (get key (prune now entries))
        (ap (λ o. o.decision.allowed) same ∙ h) in
    let kept : tried.entries ≡ none = sym (ap Outcome.entries same) ∙ none_written in
    let told = sym (ap (λ o. o.decision.retry_after_seconds) same) ∙ seconds in
    let le : r.reset_at ≤ later = omega (arith, told, wait, seconds_enough r.reset_at now) in
    let pruned = prune now entries in
    rw kept (
      attempt_expired options later r (get key (prune later pruned)) le (
        pruned_live later key pruned (prune-IsUnique now entries unique)
        ∙ ap (keep_live later) found))

-- A refusal says how long to wait, and the wait is enough: the number of seconds is at least 1, and an
-- attempt with the key after that time, on the map that the refusal left, is let through.
pub consume-retry_after :
    (options : Options) (now later : Instant) (key : String) (entries : Entries)
    → IsUnique entries
    → (consume options now key entries).decision.allowed ≡ false
    → now + (consume options now key entries).decision.retry_after_seconds * 1000 ≤ later
    → (1 ≤ (consume options now key entries).decision.retry_after_seconds)
      × ((consume options later key (consume options now key entries).entries).decision.allowed
          ≡ true)
unfolding consume
consume-retry_after options now later key entries unique h wait =
    let (r, found, seconds, kept) = attempt_refused options now (get key (prune now entries)) h in
    (at_least_one _ _ seconds, retried options now later key entries _ refl unique h wait)
  where
    at_least_one : (n ms : ℕ) → n ≡ retry_seconds ms → 1 ≤ n
    at_least_one n ms e = ground arith
