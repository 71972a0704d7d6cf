-- ===== src/Examples/RateLimit.antt =====
-- The rate limiter at concrete inputs (server/auth-rate-limit.ts).
use barber_bookings.Common.{◌*◌, ◌≤◌, max, true, List, [], ◌∷◌, none, ◌≡◌, refl, arith}
use barber_bookings.RateLimit.{Entries, Options, attempt, consume, get, prune, set, write}
use barber_bookings.RateLimit.Refinement.{
  Request, consume_at, decisions, decisions-refine, spec_decisions,
}
use barber_bookings.RateLimit.Retry.{consume-retry_after}
use barber_bookings.RateLimit.Window.{allowed_count, decisions-allowed_count}

-- Two attempts a minute.
abbrev strict : Options
strict = record { max_attempts = 2; window_ms = 60000 }

abbrev burst : List Request
burst = consume_at 0 "ana" ∷ consume_at 10 "ana" ∷ consume_at 20 "rui" ∷ consume_at 30 "ana" ∷ []

counted : allowed_count "ana" burst (decisions strict burst []) ≡ 2
unfolding allowed_count decisions consume attempt prune get set write
counted = refl

decisions-refine_example : decisions strict burst [] ≡ spec_decisions strict burst (λ _. none)
decisions-refine_example =
    decisions-refine strict burst 0 (omega arith, (omega arith, (omega arith, (omega arith, tt))))

decisions-allowed_count_example :
    allowed_count "ana" burst (decisions strict burst []) ≤ 2 * max 1 2
decisions-allowed_count_example =
    decisions-allowed_count strict 0 60000 "ana" burst [] tt (omega arith)
      (omega arith, (omega arith, (omega arith, (omega arith, tt))))
      (
        omega arith,
        omega arith,
        (omega arith, omega arith, (omega arith, omega arith, (omega arith, omega arith, tt))),
      )

abbrev full : Entries
full = record { key = "ana"; entry = record { attempts = 2; reset_at = 60000 } } ∷ []

consume-retry_after_example :
    (1 ≤ (consume strict 30000 "ana" full).decision.retry_after_seconds)
    × ((consume strict 60000 "ana" (consume strict 30000 "ana" full).entries).decision.allowed
        ≡ true)
unfolding consume attempt prune get set write
consume-retry_after_example =
    consume-retry_after strict 30000 60000 "ana" full (tt, tt) refl (omega arith)
