-- ===== src/Verification/Once.antt =====
-- How often a code is accepted (server/storage.ts).
use barber_bookings.Common.{
  ℕ, String, ◌+◌, ◌≤◌, Bool, true, false, not, ◌&&◌, List, [], ◌∷◌, ◌++◌, ◌≡◌, refl, arith,
  Bool-cases, inl, inr, if◌then◌else◌, str_eq, str_eq_iff,
}
use barber_bookings.Schema.{Instant}
use barber_bookings.Verification.{
  Codes, VerificationCode, create_verification_code, get_verification_code, is_for, is_valid,
  new_code, redeem,
}

pub data Call : Type 0 where
  create : Instant → String → String → Call
  get : Instant → String → String → Call

abbrev one_if : Bool → ℕ
one_if b = if b then 1 else 0

-- The call is one for the phone and the code.
abbrev same_pair : String → String → String → String → Bool
same_pair phone code other_phone other_code = str_eq other_phone phone && str_eq other_code code

-- How often the phone and the code are accepted in a sequence of calls.
unfoldable pub accepted_count : String → String → List Call → Codes → ℕ
unfolding create_verification_code get_verification_code
accepted_count phone code [] codes = 0
accepted_count phone code (create now p c ∷ calls) codes =
    accepted_count phone code calls (create_verification_code now p c codes)
accepted_count phone code (get now p c ∷ calls) codes =
    let answer = get_verification_code now p c codes in
    one_if (same_pair phone code p c && answer.accepted)
    + accepted_count phone code calls answer.codes

-- How often they are created in it.
unfoldable pub created_count : String → String → List Call → ℕ
created_count phone code [] = 0
created_count phone code (create now p c ∷ calls) =
    one_if (same_pair phone code p c) + created_count phone code calls
created_count phone code (get now p c ∷ calls) = created_count phone code calls

-- The codes of the table that were not used.
unfoldable pub unused_count : String → String → List VerificationCode → ℕ
unused_count phone code [] = 0
unused_count phone code (item ∷ rest) =
    one_if (is_for phone code item && not item.used) + unused_count phone code rest

accepted_is_open :
    (now : Instant) (phone code p c : String) (item : VerificationCode)
    → is_valid now p c item ≡ true
    → one_if (same_pair phone code p c && true) ≤ one_if (is_for phone code item && not item.used)
accepted_is_open now phone code p c item v = elim (Bool-cases (same_pair phone code p c)) [
  | inr f ↦ rw f (omega arith)
  | inl t ↦
      let (e, f) = both (str_eq p phone) (str_eq c code) t in
      let same_phone = (str_eq_iff p phone).0 e in
      let same_code = (str_eq_iff c code).0 f in
      let opened : (is_for phone code item && not item.used) ≡ true =
        rw (same_phone, same_code) at (first_part (is_for p c item) (not item.used) _ v) in
      rw (t, opened) (omega arith)
]
  where
    both : (a b : Bool) → (a && b) ≡ true → (a ≡ true) × (b ≡ true)
    both a b h = ground arith

    first_part : (a b d : Bool) → (a && b && d) ≡ true → (a && b) ≡ true
    first_part a b d h = ground arith

used_closed : (b : Bool) (n : ℕ) → one_if (b && false) + n ≡ n
used_closed true n = omega arith
used_closed false n = omega arith

redeem_step :
    (now : Instant) (phone code p c : String) (items : List VerificationCode)
    → one_if (same_pair phone code p c && (redeem now p c items).accepted)
        + unused_count phone code (redeem now p c items).items
      ≤ unused_count phone code items
unfolding redeem unused_count
redeem_step now phone code p c [] = rest (same_pair phone code p c)
  where
    rest : (b : Bool) → one_if (b && false) + 0 ≤ 0
    rest b = omega (arith, used_closed b 0)
redeem_step now phone code p c (item ∷ rest) =
    let later = redeem_step now phone code p c rest in
    elim (Bool-cases (is_valid now p c item)) [
      | inl t ↦
          let paid = accepted_is_open now phone code p c item t in
          let closed = used_closed (is_for phone code item) (unused_count phone code rest) in
          rw (t, unused_count) (omega (arith, paid, closed))
      | inr f ↦ rw (f, unused_count) (omega (arith, later))
    ]

unused-append :
    (phone code : String) (items : List VerificationCode) (item : VerificationCode)
    → unused_count phone code (items ++ item ∷ [])
      ≡ unused_count phone code items + one_if (is_for phone code item && not item.used)
unfolding unused_count
unused-append phone code [] item = omega arith
unused-append phone code (i ∷ items) item = omega (arith, unused-append phone code items item)

and_true : (b : Bool) → one_if (b && true) ≡ one_if b
and_true true = refl
and_true false = refl

-- A code is single-use: in any sequence of calls, a phone number and a code are accepted at most as often
-- as they were created in it, and as the table held them unused before.
pub accepted_count-bound :
    (phone code : String) (calls : List Call) (codes : Codes)
    → accepted_count phone code calls codes
      ≤ unused_count phone code codes.verification_codes + created_count phone code calls
unfolding accepted_count created_count create_verification_code get_verification_code
accepted_count-bound phone code [] codes = omega arith
accepted_count-bound phone code (create now p c ∷ calls) codes =
    let rest = accepted_count-bound phone code calls (create_verification_code now p c codes) in
    let more = unused-append phone code codes.verification_codes (new_code codes.next_id now p c) in
    omega (arith, rest, more, and_true (same_pair phone code p c))
accepted_count-bound phone code (get now p c ∷ calls) codes =
    let rest = accepted_count-bound phone code calls (get_verification_code now p c codes).codes in
    let step = redeem_step now phone code p c codes.verification_codes in omega (arith, rest, step)
