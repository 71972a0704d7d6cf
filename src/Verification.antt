-- ===== src/Verification.antt =====
-- The codes that confirm a phone number: `createVerificationCode` and `getVerificationCode` of
-- `MemoryStorage` (server/storage.ts). Ten minutes by `setMinutes` are ten minutes of the clock.
pub mod Once
use barber_bookings.Common.{
  ℕ, String, ◌+◌, ◌*◌, Bool, true, false, not, ◌&&◌, List, [], ◌∷◌, ◌++◌, leb, if◌then◌else◌,
  str_eq,
}
use barber_bookings.Schema.{Instant}

pub record VerificationCode : Type 0 where
  pub id : ℕ
  pub phone : String
  pub code : String
  pub expires_at : Instant
  pub used : Bool

-- The table and `nextIds.verificationCode`.
pub record Codes : Type 0 where
  pub verification_codes : List VerificationCode
  pub next_id : ℕ

abbrev pub new_code : ℕ → Instant → String → String → VerificationCode
new_code id now phone code = record {
  id = id;
  phone = phone;
  code = code;
  expires_at = now + 10 * 60000;
  used = false;
}

unfoldable pub create_verification_code : Instant → String → String → Codes → Codes
create_verification_code now phone code codes = record {
  verification_codes = codes.verification_codes ++ new_code codes.next_id now phone code ∷ [];
  next_id = codes.next_id + 1;
}

abbrev pub is_for : String → String → VerificationCode → Bool
is_for phone code item = str_eq item.phone phone && str_eq item.code code

abbrev pub is_valid : Instant → String → String → VerificationCode → Bool
is_valid now phone code item = is_for phone code item && not item.used && leb now item.expires_at

-- The codes after the first valid one is marked as used, and whether there was one.
pub record Redeemed : Type 0 where
  pub accepted : Bool
  pub items : List VerificationCode

abbrev behind : VerificationCode → Redeemed → Redeemed
behind item r = record { accepted = r.accepted; items = item ∷ r.items }

unfoldable pub redeem : Instant → String → String → List VerificationCode → Redeemed
redeem now phone code [] = record { accepted = false; items = [] }
redeem now phone code (item ∷ rest) =
    let later = redeem now phone code rest in
    if is_valid now phone code item
    then record { accepted = true; items = record item { used = true } ∷ rest }
    else behind item later

pub record Answer : Type 0 where
  pub accepted : Bool
  pub codes : Codes

unfoldable pub get_verification_code : Instant → String → String → Codes → Answer
unfolding redeem
get_verification_code now phone code codes =
    let r = redeem now phone code codes.verification_codes in
    record { accepted = r.accepted; codes = record codes { verification_codes = r.items } }
