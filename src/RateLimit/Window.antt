-- ===== src/RateLimit/Window.antt =====
-- How many attempts the rate limiter (server/auth-rate-limit.ts) lets through.
use barber_bookings.Common.{
  ℕ, String, ◌+◌, ◌-◌, ◌*◌, ◌≤◌, ◌<◌, max, true, false, ◌&&◌, List, [], ◌∷◌, Option, none, some,
  ◌≡◌, refl, ap, ◌∙◌, arith, leb, Bool-cases, inl, inr, if◌then◌else◌, str_eq, str_eq_iff,
}
use barber_bookings.Schema.{Instant}
use barber_bookings.RateLimit.{Entries, Options, RateLimitDecision, RateLimitEntry, attempt, get}
use barber_bookings.RateLimit.Entries.{IsUnique}
use barber_bookings.RateLimit.Refinement.{
  Agree, IsTimed, Request, Spec, clear_all, consume_at, decisions, put, reset_key, run_refines,
  spec_decisions, spec_write,
}

-- The attempts with a key that were let through.
unfoldable pub allowed_count : String → List Request → List RateLimitDecision → ℕ
allowed_count key [] ds = 0
allowed_count key (consume_at now other ∷ rest) [] = 0
allowed_count key (consume_at now other ∷ rest) (d ∷ ds) =
    (if str_eq other key && d.allowed then 1 else 0) + allowed_count key rest ds
allowed_count key (reset_key other ∷ rest) ds = allowed_count key rest ds
allowed_count key (clear_all ∷ rest) ds = allowed_count key rest ds

-- Attempts at times from `low` to before `high`, without a reset of the key.
abbrev pub IsWithin : Instant → Instant → String → List Request → Type 0
IsWithin low high key [] = Unit
IsWithin low high key (consume_at now other ∷ rest) =
    (low ≤ now) × (now < high) × IsWithin low high key rest
IsWithin low high key (reset_key other ∷ rest) =
    (str_eq other key ≡ false) × IsWithin low high key rest
IsWithin low high key (clear_all ∷ rest) = ⊥

-- The attempts of one window; the first attempt of a window is let through at any limit.
abbrev pub window_attempts : Options → ℕ
window_attempts options = max 1 options.max_attempts

-- How many attempts an entry still lets through before `high`.
budget : Options → Instant → Option RateLimitEntry → ℕ
budget options high none = window_attempts options
budget options high (some e) =
    window_attempts options
    - e.attempts
    + (if leb high e.reset_at then 0 else window_attempts options)

abbrev cost : RateLimitDecision → ℕ
cost d = if d.allowed then 1 else 0

-- The entry after an attempt.
abbrev next_entry : Option RateLimitEntry → Option RateLimitEntry → Option RateLimitEntry
next_entry old none = old
next_entry old (some e) = some e

attempt-budget :
    (options : Options) (low high now : Instant) (e : Option RateLimitEntry)
    → low ≤ now
    → now < high
    → high ≤ low + options.window_ms
    → cost (attempt options now e).decision
        + budget options high (next_entry e (attempt options now e).entries)
      ≤ budget options high e
unfolding attempt budget
attempt-budget options low high now none from before h =
    let fits : leb high (now + options.window_ms) ≡ true = ground arith in rw fits (ground arith)
attempt-budget options low high now (some e) from before h =
    elim (Bool-cases (leb e.reset_at now)) [
      | inl t ↦
          let fits : leb high (now + options.window_ms) ≡ true = ground arith in
          let expired : leb high e.reset_at ≡ false = ground arith in
          rw (t, fits, expired) (ground arith)
      | inr f ↦ elim (Bool-cases (leb options.max_attempts e.attempts)) [
        | inl m ↦ rw (f, m) (omega arith)
        | inr m ↦
            let more : e.attempts < max 1 options.max_attempts = ground arith in
            rw (f, m) (spend (max 1 options.max_attempts) e.attempts _ more)
      ]
    ]
  where
    spend : (limit a x : ℕ) → a < limit → 1 + (limit - (a + 1) + x) ≤ limit - a + x
    spend limit a x lt = omega (arith, lt)

spec_write_same :
    (other key : String) (e : Option RateLimitEntry) (spec : Spec)
    → str_eq other key ≡ true
    → spec_write other e spec key ≡ next_entry (spec key) e
spec_write_same other key none spec t = refl
spec_write_same other key (some e) spec t = rw t refl

spec_write_other :
    (other key : String) (e : Option RateLimitEntry) (spec : Spec)
    → str_eq other key ≡ false
    → spec_write other e spec key ≡ spec key
spec_write_other other key none spec f = refl
spec_write_other other key (some e) spec f = rw f refl

-- An attempt with the key costs what its entry loses.
attempt_step :
    (options : Options) (low high now : Instant) (key other : String) (spec : Spec) (rest : ℕ)
    → low ≤ now
    → now < high
    → high ≤ low + options.window_ms
    → rest
      ≤ budget options high (spec_write other (attempt options now (spec other)).entries spec key)
    → (if str_eq other key && (attempt options now (spec other)).decision.allowed then 1 else 0)
        + rest
      ≤ budget options high (spec key)
attempt_step options low high now key other spec rest from before h later =
    elim (Bool-cases (str_eq other key)) [
      | inl t ↦
          let same : spec other ≡ spec key = ap spec ((str_eq_iff other key).0 t) in
          let tried : attempt options now (spec other) ≡ attempt options now (spec key) =
            ap (attempt options now) same in
          let less = ap (budget options high) (
            spec_write_same other key (attempt options now (spec other)).entries spec t
            ∙ ap (λ o. next_entry (spec key) o.entries) tried) in
          let paid = attempt-budget options low high now (spec key) from before h in
          let left : rest
              ≤ budget options high
                  (next_entry (spec key) (attempt options now (spec key)).entries) =
            rw less at later in
          rw (t, tried) (omega (arith, paid, left))
      | inr f ↦
          let same =
            ap (budget options high)
              (spec_write_other other key (attempt options now (spec other)).entries spec f) in
          let left : rest ≤ budget options high (spec key) = rw same at later in
          rw f (omega (arith, left))
    ]

spec-budget :
    (options : Options) (low high : Instant) (key : String) (requests : List Request) (spec : Spec)
    → high ≤ low + options.window_ms
    → IsWithin low high key requests
    → allowed_count key requests (spec_decisions options requests spec)
      ≤ budget options high (spec key)
unfolding allowed_count spec_decisions
spec-budget options low high key [] spec h w = omega arith
spec-budget options low high key (consume_at now other ∷ rest) spec h (from, before, w) =
    attempt_step options low high now key other spec _ from before h (
      spec-budget options low high key rest
        (spec_write other (attempt options now (spec other)).entries spec) h w)
spec-budget options low high key (reset_key other ∷ rest) spec h (f, w) =
    let kept = spec-budget options low high key rest (put other none spec) h w in rw f at kept
spec-budget options low high key (clear_all ∷ rest) spec h w = absurd w

budget_bound :
    (options : Options) (high : Instant) (e : Option RateLimitEntry)
    → budget options high e ≤ 2 * window_attempts options
unfolding budget
budget_bound options high none = omega arith
budget_bound options high (some e) = elim (Bool-cases (leb high e.reset_at)) [
  | inl t ↦ rw t (omega arith)
  | inr f ↦ rw f (omega arith)
]

Agree-get :
    (now : Instant) (entries : Entries) → IsUnique entries → Agree now entries (λ k. get k entries)
unfolding Agree
Agree-get now entries unique = (unique, λ key. refl)

-- In any stretch of time no longer than the window, whatever attempts were made before, a key that is not
-- reset in it is let through at most twice the limit: once the limit in the window that is open at its
-- start, and once in the next. Attempts with other keys, in between or before, and the pruning do not
-- change that. (A limit of 0 counts as 1: the first attempt of a window is let through at any limit.)
pub decisions-allowed_count :
    (options : Options) (low high : Instant) (key : String) (requests : List Request)
    (entries : Entries)
    → IsUnique entries
    → high ≤ low + options.window_ms
    → IsTimed low requests
    → IsWithin low high key requests
    → allowed_count key requests (decisions options requests entries)
      ≤ 2 * max 1 options.max_attempts
decisions-allowed_count options low high key requests entries unique h timed w =
    let spec : Spec = λ k. get k entries in
    let same = run_refines options requests low entries spec timed (Agree-get low entries unique) in
    let bound = spec-budget options low high key requests spec h w in
    rw same (omega (arith, bound, budget_bound options high (spec key)))

-- From a key without an entry, the limit itself is the most that a window lets through.
pub decisions-allowed_count_fresh :
    (options : Options) (low high : Instant) (key : String) (requests : List Request)
    (entries : Entries)
    → IsUnique entries
    → get key entries ≡ none
    → high ≤ low + options.window_ms
    → IsTimed low requests
    → IsWithin low high key requests
    → allowed_count key requests (decisions options requests entries) ≤ max 1 options.max_attempts
unfolding budget
decisions-allowed_count_fresh options low high key requests entries unique absent h timed w =
    let spec : Spec = λ k. get k entries in
    let same = run_refines options requests low entries spec timed (Agree-get low entries unique) in
    let bound = spec-budget options low high key requests spec h w in
    let start = ap (budget options high) absent in rw same (omega (arith, bound, start))
