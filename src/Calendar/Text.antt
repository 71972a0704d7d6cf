-- ===== src/Calendar/Text.antt =====
-- The text of a calendar date, "YYYY-MM-DD" (shared/business-expense-recurrence.ts): the pattern that
-- `parseCalendarDate` tests, and the numbers that it splits the text into; the padded numbers that
-- `formatCalendarDate` joins. A text is the list of its code points.
use barber_bookings.Common.{
  ℕ, zero, suc, ◌+◌, ◌-◌, ◌*◌, ◌/◌, ◌%◌, ◌≤◌, ◌<◌, Bool, true, false, ◌&&◌, List, [], ◌∷◌, ◌++◌,
  Option, none, some, ◌≡◌, refl, ap, sym, ◌∙◌, arith, ==_iff, leb, ltb, ◌==◌, if◌then◌else◌, length,
  Bool-cases, inl, inr, lt→ltb, ltb→lt,
}
use barber_bookings.Calendar.{CalendarDate, date}

-- The decimal digits of a number, of which there are at most `fuel + 1`.
unfoldable pub digits : ℕ → ℕ → List ℕ
digits zero n = (48 + n) ∷ []
digits (suc fuel) n =
    let rest = digits fuel (n / 10) in
    if ltb n 10 then (48 + n) ∷ [] else rest ++ (48 + n % 10) ∷ []

abbrev pub zeros : ℕ → List ℕ
zeros zero = []
zeros (suc n) = 48 ∷ zeros n

-- `padStart(width, "0")`
abbrev pub pad_start : ℕ → List ℕ → List ℕ
pad_start width t = zeros (width - length t) ++ t

-- `String(n).padStart(width, "0")`; a safe integer has at most 16 digits.
abbrev pub padded : ℕ → ℕ → List ℕ
padded width n = pad_start width (digits 15 n)

-- `[year, month, day].join("-")`, each padded.
unfoldable pub date_text : CalendarDate → List ℕ
date_text d = padded 4 d.year ++ 45 ∷ (padded 2 d.month ++ 45 ∷ padded 2 d.day)

-- `\d`
abbrev pub is_digit : ℕ → Bool
is_digit c = leb 48 c && leb c 57

abbrev pub all_digits : List ℕ → Bool
all_digits [] = true
all_digits (c ∷ t) = is_digit c && all_digits t

-- `Number` of a text of digits.
abbrev pub number_from : ℕ → List ℕ → ℕ
number_from n [] = n
number_from n (c ∷ t) = number_from (n * 10 + (c - 48)) t

-- The pattern `^\d{4}-\d{2}-\d{2}$` and, where it fits, the three numbers.
unfoldable pub read_date : List ℕ → Option CalendarDate
read_date (a ∷ b ∷ c ∷ d ∷ p ∷ e ∷ f ∷ q ∷ g ∷ h ∷ []) =
    if all_digits (a ∷ b ∷ c ∷ d ∷ [])
      && (p == 45)
      && all_digits (e ∷ f ∷ [])
      && (q == 45)
      && all_digits (g ∷ h ∷ [])
    then some (
        date (number_from 0 (a ∷ b ∷ c ∷ d ∷ [])) (number_from 0 (e ∷ f ∷ []))
          (number_from 0 (g ∷ h ∷ [])))
    else none
read_date _ = none

digits-one : (fuel n : ℕ) → n < 10 → digits (suc fuel) n ≡ (48 + n) ∷ []
unfolding digits
digits-one fuel n h = rw (lt→ltb n 10 h) refl

digits-more :
    (fuel n : ℕ) → 10 ≤ n → digits (suc fuel) n ≡ digits fuel (n / 10) ++ (48 + n % 10) ∷ []
unfolding digits
digits-more fuel n h = let e : ltb n 10 ≡ false = ground arith in rw e refl

abbrev two : ℕ → List ℕ
two n = (48 + n / 10) ∷ (48 + n % 10) ∷ []

abbrev four : ℕ → List ℕ
four n = (48 + n / 1000) ∷ (48 + n / 100 % 10) ∷ (48 + n / 10 % 10) ∷ (48 + n % 10) ∷ []

padded-two : (n : ℕ) → n < 100 → padded 2 n ≡ two n
padded-two n h = elim (Bool-cases (ltb n 10)) [
  | inl small ↦ rw (digits-one 14 n (ltb→lt n 10 small)) (ground arith)
  | inr large ↦
      rw (digits-more 14 n (ground arith)) (rw (digits-one 13 (n / 10) (omega arith)) refl)
]

padded-four : (n : ℕ) → n < 10000 → padded 4 n ≡ four n
padded-four n h = elim (Bool-cases (ltb n 10)) [
  | inl one ↦ rw (digits-one 14 n (ltb→lt n 10 one)) (ground arith)
  | inr more ↦ rw (digits-more 14 n (ground arith)) (elim (Bool-cases (ltb n 100)) [
    | inl tens ↦ rw (digits-one 13 (n / 10) (ground arith)) (ground arith)
    | inr hundreds ↦ rw (digits-more 13 (n / 10) (ground arith)) (elim (Bool-cases (ltb n 1000)) [
      | inl below ↦ rw (digits-one 12 (n / 10 / 10) (ground arith)) (ground arith)
      | inr thousands ↦
          rw (digits-more 12 (n / 10 / 10) (ground arith))
            (rw (digits-one 11 (n / 10 / 10 / 10) (omega arith)) (ground arith))
    ])
  ])
]

-- What is read of two and of four digits.
number-two : (n : ℕ) → number_from 0 (two n) ≡ n
number-two n = omega arith

number-four : (n : ℕ) → number_from 0 (four n) ≡ n
number-four n = omega arith

two-IsDigits : (n : ℕ) → n < 100 → all_digits (two n) ≡ true
two-IsDigits n h = ground arith

four-IsDigits : (n : ℕ) → n < 10000 → all_digits (four n) ≡ true
four-IsDigits n h = ground arith

same_date : (x y : CalendarDate) → x.year ≡ y.year → x.month ≡ y.month → x.day ≡ y.day → x ≡ y
same_date x y p q r = λ i. record { year = p i; month = q i; day = r i }

-- The text of a date of at most four, two and two digits is read as the date.
pub read_date-date_text :
    (d : CalendarDate)
    → d.year < 10000
    → d.month < 100
    → d.day < 100
    → read_date (date_text d) ≡ some d
unfolding read_date date_text
read_date-date_text d y m e = rw (padded-four d.year y) (
    rw (padded-two d.month m) (
      rw (padded-two d.day e) (
        rw (four-IsDigits d.year y, two-IsDigits d.month m, two-IsDigits d.day e)
          (ap some (same_date _ d (number-four d.year) (number-two d.month) (number-two d.day))))))

-- Digits are those of the number that they are read as.
two-number :
    (a b : ℕ)
    → all_digits (a ∷ b ∷ []) ≡ true
    → (number_from 0 (a ∷ b ∷ []) < 100) × (two (number_from 0 (a ∷ b ∷ [])) ≡ a ∷ b ∷ [])
two-number a b h = ground arith

four-number :
    (a b c d : ℕ)
    → all_digits (a ∷ b ∷ c ∷ d ∷ []) ≡ true
    → (number_from 0 (a ∷ b ∷ c ∷ d ∷ []) < 10000)
      × (four (number_from 0 (a ∷ b ∷ c ∷ d ∷ [])) ≡ a ∷ b ∷ c ∷ d ∷ [])
four-number a b c d h = ground arith

pub if-eq-some :
    {A : Type 0} (b : Bool) (x y : A) → (if b then some x else none) ≡ some y → (b ≡ true) × (x ≡ y)
if-eq-some true x y e = (refl, ground arith)
if-eq-some false x y e = ground arith

all_five :
    (u v w x y : Bool)
    → (u && v && w && x && y) ≡ true
    → (u ≡ true) × (v ≡ true) × (w ≡ true) × (x ≡ true) × (y ≡ true)
all_five u v w x y h = ground arith

date_text-digits :
    (a b c d p e f q g h : ℕ)
    → all_digits (a ∷ b ∷ c ∷ d ∷ []) ≡ true
    → p ≡ 45
    → all_digits (e ∷ f ∷ []) ≡ true
    → q ≡ 45
    → all_digits (g ∷ h ∷ []) ≡ true
    → date_text (
        date
          (number_from 0 (a ∷ b ∷ c ∷ d ∷ []))
          (number_from 0 (e ∷ f ∷ []))
          (number_from 0 (g ∷ h ∷ [])))
      ≡ a ∷ b ∷ c ∷ d ∷ p ∷ e ∷ f ∷ q ∷ g ∷ h ∷ []
unfolding date_text
date_text-digits a b c d p e f q g h y dash m hyphen n =
    let (year_in, year) = four-number a b c d y in
    let (month_in, month) = two-number e f m in
    let (day_in, day) = two-number g h n in
    λ i.
      (padded-four _ year_in ∙ year) i
      ++ sym dash i
        ∷ ((padded-two _ month_in ∙ month) i ++ sym hyphen i ∷ (padded-two _ day_in ∙ day) i)

-- A text that is read is the text of what it is read as.
pub date_text-read_date : (t : List ℕ) (d : CalendarDate) → read_date t ≡ some d → date_text d ≡ t
unfolding read_date
date_text-read_date (a ∷ b ∷ c ∷ d ∷ p ∷ e ∷ f ∷ q ∷ g ∷ h ∷ []) r k =
    let (fits, same) = if-eq-some _ _ r k in
    let (y, dash, m, hyphen, n) = all_five _ _ _ _ _ fits in
    ap date_text (sym same)
    ∙ date_text-digits a b c d p e f q g h y ((==_iff p 45).0 dash) m ((==_iff q 45).0 hyphen) n
date_text-read_date _ r k = ground arith

pub read_date-year : (t : List ℕ) (d : CalendarDate) → read_date t ≡ some d → d.year < 10000
unfolding read_date
read_date-year (a ∷ b ∷ c ∷ d ∷ p ∷ e ∷ f ∷ q ∷ g ∷ h ∷ []) r k =
    let (fits, same) = if-eq-some _ _ r k in
    let (y, dash, m, hyphen, n) = all_five _ _ _ _ _ fits in rw (← same) ((four-number a b c d y).0)
read_date-year _ r k = ground arith
