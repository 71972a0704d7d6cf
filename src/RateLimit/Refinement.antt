-- ===== src/RateLimit/Refinement.antt =====
-- The rate limiter (server/auth-rate-limit.ts) against one that never prunes: a function from keys to
-- entries.
use barber_bookings.Common.{
  String, ◌≤◌, true, false, List, [], ◌∷◌, Option, none, some, ◌≡◌, refl, sym, ap, ◌∙◌, arith, leb,
  ltb, Bool-cases, inl, inr, if◌then◌else◌, str_eq, str_eq_iff,
}
use barber_bookings.Schema.{Instant}
use barber_bookings.RateLimit.{
  Entries, Options, RateLimitDecision, RateLimitEntry, attempt, clear, consume, delete, get, prune,
  reset, set, write,
}
use barber_bookings.RateLimit.Entries.{
  IsUnique, filter-IsUnique, get-delete_other, get-delete_same, get-set_other, get-set_same,
  keep_live, prune-IsUnique, prune-cases, set-IsUnique,
}

abbrev pub Spec : Type 0
Spec = String → Option RateLimitEntry

abbrev pub put : String → Option RateLimitEntry → Spec → Spec
put key entry spec other = if str_eq key other then entry else spec other

-- A refusal leaves the entry as it is.
abbrev pub spec_write : String → Option RateLimitEntry → Spec → Spec
spec_write key none spec = spec
spec_write key (some entry) spec = put key (some entry) spec

-- The calls of the limiter, with the time of the clock where it is read.
pub data Request : Type 0 where
  consume_at : Instant → String → Request
  reset_key : String → Request
  clear_all : Request

unfoldable pub decisions : Options → List Request → Entries → List RateLimitDecision
unfolding consume reset clear
decisions options [] entries = []
decisions options (consume_at now key ∷ rest) entries =
    let done = consume options now key entries in
    done.decision ∷ decisions options rest done.entries
decisions options (reset_key key ∷ rest) entries = decisions options rest (reset key entries)
decisions options (clear_all ∷ rest) entries = decisions options rest (clear entries)

unfoldable pub spec_decisions : Options → List Request → Spec → List RateLimitDecision
unfolding attempt
spec_decisions options [] spec = []
spec_decisions options (consume_at now key ∷ rest) spec =
    let tried = attempt options now (spec key) in
    tried.decision ∷ spec_decisions options rest (spec_write key tried.entries spec)
spec_decisions options (reset_key key ∷ rest) spec = spec_decisions options rest (put key none spec)
spec_decisions options (clear_all ∷ rest) spec = spec_decisions options rest (λ _. none)

-- The clock does not run backwards.
abbrev pub IsTimed : Instant → List Request → Type 0
IsTimed from [] = Unit
IsTimed from (consume_at now key ∷ rest) = (from ≤ now) × IsTimed now rest
IsTimed from (reset_key key ∷ rest) = IsTimed from rest
IsTimed from (clear_all ∷ rest) = IsTimed from rest

-- The two limiters hold the same entries, expired ones aside.
unfoldable pub Agree : Instant → Entries → Spec → Type 0
Agree now entries spec =
    IsUnique entries × ((key : String) → keep_live now (get key entries) ≡ keep_live now (spec key))

pub keep_live-later :
    (now later : Instant) (e : Option RateLimitEntry)
    → now ≤ later
    → keep_live later (keep_live now e) ≡ keep_live later e
keep_live-later now later none h = refl
keep_live-later now later (some e) h = elim (Bool-cases (ltb now e.reset_at)) [
  | inl t ↦ rw t refl
  | inr f ↦ let gone : ltb later e.reset_at ≡ false = ground arith in rw (f, gone) refl
]

Agree-later :
    (now later : Instant) (entries : Entries) (spec : Spec)
    → now ≤ later
    → Agree now entries spec
    → Agree later entries spec
unfolding Agree
Agree-later now later entries spec h a = (
  a.0,
  λ key.
      sym (keep_live-later now later (get key entries) h)
      ∙ ap (keep_live later) (a.1 key)
      ∙ keep_live-later now later (spec key) h,
)

-- An attempt does not tell an expired entry from none.
pub attempt-keep_live :
    (options : Options) (now : Instant) (e : Option RateLimitEntry)
    → attempt options now e ≡ attempt options now (keep_live now e)
unfolding attempt
attempt-keep_live options now none = refl
attempt-keep_live options now (some e) = elim (Bool-cases (ltb now e.reset_at)) [
  | inl t ↦ rw t refl
  | inr f ↦ let gone : leb e.reset_at now ≡ true = ground arith in rw (f, gone) refl
]

Agree-prune :
    (now : Instant) (entries : Entries) (spec : Spec)
    → Agree now entries spec
    → Agree now (prune now entries) spec
unfolding Agree
Agree-prune now entries spec a = (
  prune-IsUnique now entries a.0,
  λ key. elim (prune-cases now key entries a.0) [
    | inl e ↦ rw e (a.1 key)
    | inr e ↦
        ap (keep_live now) e ∙ keep_live-later now now (get key entries) (omega arith) ∙ a.1 key
  ],
)

Agree-write :
    (now : Instant) (key : String) (e : Option RateLimitEntry) (entries : Entries) (spec : Spec)
    → Agree now entries spec
    → Agree now (write key e entries) (spec_write key e spec)
unfolding Agree write
Agree-write now key none entries spec a = a
Agree-write now key (some e) entries spec a = (
  set-IsUnique key e entries a.0,
  λ other. elim (Bool-cases (str_eq key other)) [
    | inl t ↦
        let same = (str_eq_iff key other).0 t in
        rw t (
          ap (keep_live now)
            (ap (λ o. get o (set key e entries)) (sym same) ∙ get-set_same key e entries))
    | inr f ↦ rw (f, get-set_other key other e entries f) (a.1 other)
  ],
)

Agree-reset :
    (now : Instant) (key : String) (entries : Entries) (spec : Spec)
    → Agree now entries spec
    → Agree now (delete key entries) (put key none spec)
unfolding Agree delete
Agree-reset now key entries spec a = (
  filter-IsUnique _ entries a.0,
  λ other. elim (Bool-cases (str_eq key other)) [
    | inl t ↦
        let same = (str_eq_iff key other).0 t in
        rw t (
          ap (keep_live now)
            (ap (λ o. get o (delete key entries)) (sym same) ∙ get-delete_same key entries))
    | inr f ↦ rw (f, get-delete_other key other entries f) (a.1 other)
  ],
)

Agree-empty : (now : Instant) → Agree now [] (λ _. none)
unfolding Agree get
Agree-empty now = (tt, λ key. refl)

same_attempt :
    (options : Options) (now : Instant) (key : String) (entries : Entries) (spec : Spec)
    → Agree now entries spec
    → attempt options now (get key entries) ≡ attempt options now (spec key)
unfolding Agree
same_attempt options now key entries spec a =
    attempt-keep_live options now (get key entries)
    ∙ ap (attempt options now) (a.1 key)
    ∙ sym (attempt-keep_live options now (spec key))

pub run_refines :
    (options : Options) (requests : List Request) (now : Instant) (entries : Entries) (spec : Spec)
    → IsTimed now requests
    → Agree now entries spec
    → decisions options requests entries ≡ spec_decisions options requests spec
unfolding decisions spec_decisions consume reset clear
run_refines options [] now entries spec t a = refl
run_refines options (consume_at later key ∷ rest) now entries spec (le, t) a =
    let pruned = prune later entries in
    let agree = Agree-prune later entries spec (Agree-later now later entries spec le a) in
    let found = same_attempt options later key pruned spec agree in
    rw found (
      ap (λ r. (attempt options later (spec key)).decision ∷ r)
        (run_refines options rest later _ _ t (Agree-write later key _ pruned spec agree)))
run_refines options (reset_key key ∷ rest) now entries spec t a =
    run_refines options rest now (delete key entries) (put key none spec) t
      (Agree-reset now key entries spec a)
run_refines options (clear_all ∷ rest) now entries spec t a =
    run_refines options rest now [] (λ _. none) t (Agree-empty now)

-- Pruning never changes a decision: on every sequence of calls under a clock that does not run backwards,
-- the limiter that starts with an empty map decides as the one that keeps a function from keys to
-- entries and never forgets one but by `reset` and `clear`.
pub decisions-refine :
    (options : Options) (requests : List Request) (start : Instant)
    → IsTimed start requests
    → decisions options requests [] ≡ spec_decisions options requests (λ _. none)
decisions-refine options requests start t =
    run_refines options requests start [] (λ _. none) t (Agree-empty start)
