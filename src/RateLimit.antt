-- ===== src/RateLimit.antt =====
-- The rate limiter of the logins (server/auth-rate-limit.ts). The `Map` is a list of items in the order
-- of insertion; a call reads the clock once, as an argument.
pub mod Entries
pub mod Window
pub mod Retry
pub mod Refinement
use barber_bookings.Common.{
  ℕ, String, ◌+◌, ◌-◌, ◌/◌, max, Bool, true, false, not, List, [], ◌∷◌, Option, none, some, filter,
  length, leb, ltb, if◌then◌else◌, str_eq,
}
use barber_bookings.Schema.{Instant}

pub record RateLimitDecision : Type 0 where
  pub allowed : Bool
  pub retry_after_seconds : ℕ

pub record RateLimitEntry : Type 0 where
  pub attempts : ℕ
  pub reset_at : Instant

pub record Options : Type 0 where
  pub max_attempts : ℕ
  pub window_ms : ℕ

pub record Item : Type 0 where
  pub key : String
  pub entry : RateLimitEntry

abbrev pub Entries : Type 0
Entries = List Item

-- `entries.get(key)`
unfoldable pub get : String → Entries → Option RateLimitEntry
get key [] = none
get key (i ∷ items) = if str_eq i.key key then some i.entry else get key items

-- `entries.set(key, entry)`
unfoldable pub set : String → RateLimitEntry → Entries → Entries
set key entry [] = record { key = key; entry = entry } ∷ []
set key entry (i ∷ items) =
    if str_eq i.key key
    then record { key = key; entry = entry } ∷ items
    else i ∷ set key entry items

-- The item has another key.
abbrev pub is_other : String → Item → Bool
is_other key i = not (str_eq i.key key)

-- `entries.delete(key)`
unfoldable pub delete : String → Entries → Entries
delete key items = filter (is_other key) items

abbrev pub is_live : Instant → Item → Bool
is_live current_time i = ltb current_time i.entry.reset_at

unfoldable pub prune : Instant → Entries → Entries
prune current_time items =
    if ltb (length items) 1000 then items else filter (is_live current_time) items

pub record Outcome (S : Type 0) : Type 0 where
  pub decision : RateLimitDecision
  pub entries : S

abbrev pub outcome : {S : Type 0} → Bool → ℕ → S → Outcome S
outcome allowed seconds entries = record {
  decision = record { allowed = allowed; retry_after_seconds = seconds };
  entries = entries;
}

-- `Math.max(1, Math.ceil(milliseconds / 1000))`
abbrev pub retry_seconds : ℕ → ℕ
retry_seconds milliseconds = max 1 ((milliseconds + 999) / 1000)

-- What a call does with the entry that it finds: the decision, and the entry to write.
unfoldable pub attempt : Options → Instant → Option RateLimitEntry → Outcome (Option RateLimitEntry)
attempt options current_time none =
    outcome true 0 (some (record { attempts = 1; reset_at = current_time + options.window_ms }))
attempt options current_time (some current) =
    if leb current.reset_at current_time
    then outcome true 0
        (some (record { attempts = 1; reset_at = current_time + options.window_ms }))
    else if leb options.max_attempts current.attempts
    then outcome false (retry_seconds (current.reset_at - current_time)) none
    else outcome true 0 (some (record current { attempts = current.attempts + 1 }))

-- The entry is written under the key; a refusal writes nothing.
unfoldable pub write : String → Option RateLimitEntry → Entries → Entries
write key none items = items
write key (some entry) items = set key entry items

unfoldable pub consume : Options → Instant → String → Entries → Outcome Entries
unfolding attempt write
consume options current_time key entries =
    let pruned = prune current_time entries in
    let tried = attempt options current_time (get key pruned) in
    record { decision = tried.decision; entries = write key tried.entries pruned }

unfoldable pub reset : String → Entries → Entries
reset key entries = delete key entries

unfoldable pub clear : Entries → Entries
clear entries = []
