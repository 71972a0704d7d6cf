-- ===== src/Finance/Once.antt =====
-- About the chair-rent loop of server/appointment-finance.ts: whose results it charges.
use barber_bookings.Common.{
  ℕ, Bool, true, false, not, ◌&&◌, ◌||◌, List, [], ◌∷◌, map, Option, ◌≡◌, refl, sym, ap, ◌∙◌, arith,
  All, Bool-cases, inl, inr, filter, filter-filter, filter-filter_of_le, get_or,
}
use barber_bookings.Calendar.{CalendarDate}
use barber_bookings.Schema.{Appointment, BarberCompensationRule, Instant}
use barber_bookings.Storage.Table.{Pairwise}
use barber_bookings.Finance.Base.{FinancialResult}
use barber_bookings.Finance.Rules.{get_compensation_rule_for_appointment}
use barber_bookings.Finance.ChairRent.{
  RentKey, RentState, charge_result, has_key, is_not_anchor, key_eq, owes_rent, pay, rent_key,
  rent_loop, rent_step, skips,
}

-- Keys that differ in a place.
abbrev pub Differ : RentKey → RentKey → Type 0
Differ k l = key_eq k l ≡ false

key_eq_symm : (k l : RentKey) → key_eq k l ≡ key_eq l k
key_eq_symm k l = ground arith

key_eq_trans : (k l m : RentKey) → key_eq k l ≡ true → key_eq l m ≡ true → key_eq k m ≡ true
key_eq_trans k l m p q = ground arith

-- A key that equals one in the list is in the list.
has_key_eq :
    (k l : RentKey) (keys : List RentKey)
    → key_eq k l ≡ true
    → has_key l keys ≡ true
    → has_key k keys ≡ true
has_key_eq k l [] p h = h
has_key_eq k l (m ∷ keys) p h = elim (Bool-cases (key_eq l m)) [
  | inl same ↦ rw (key_eq_trans k l m p same) refl
  | inr other ↦ or_true (key_eq k m) _ (has_key_eq k l keys p (rw other at h))
]
  where
    or_true : (b c : Bool) → c ≡ true → (b || c) ≡ true
    or_true b c e = ground arith

module _ (zone : Instant → CalendarDate) (rules : List BarberCompensationRule)
    (anchors : Option (List ℕ)) where
  abbrev pub key_of : Appointment → RentKey
  key_of a = rent_key zone (get_compensation_rule_for_appointment rules a) a

  -- A completed appointment under a chair rent, and an anchor if anchors are given.
  abbrev pub may_pay : Appointment → Bool
  may_pay a =
      owes_rent (get_compensation_rule_for_appointment rules a) a
      && not (is_not_anchor anchors a.id)

  -- The first appointment of each key.
  abbrev pub firsts : List Appointment → List Appointment
  firsts [] = []
  firsts (a ∷ xs) = a ∷ filter (λ b. not (key_eq (key_of b) (key_of a))) (firsts xs)

  abbrev pub payers : List Appointment → List Appointment
  payers xs = firsts (filter may_pay xs)

  -- The rent of each of the appointments is charged to its result.
  abbrev pub charge_all : List Appointment → List FinancialResult → List FinancialResult
  charge_all [] results = results
  charge_all (a ∷ rest) results = charge_all rest (
      charge_result a.id (get_or (get_compensation_rule_for_appointment rules a).chair_rent_cents 0)
        results)

  abbrev unpaid : List RentKey → Appointment → Bool
  unpaid keys b = not (has_key (key_of b) keys)

  rent_step-skip :
      (st : RentState) (a : Appointment)
      → skips zone rules anchors st a ≡ true
      → rent_step zone rules anchors st a ≡ st
  unfolding rent_step
  rent_step-skip st a e = rw e refl

  rent_step-pay :
      (st : RentState) (a : Appointment)
      → skips zone rules anchors st a ≡ false
      → rent_step zone rules anchors st a ≡ pay zone rules anchors st a
  unfolding rent_step
  rent_step-pay st a e = rw e refl

  payers-idle :
      (a : Appointment) (xs : List Appointment) → may_pay a ≡ false → payers (a ∷ xs) ≡ payers xs
  payers-idle a xs e = rw e refl

  payers-due :
      (a : Appointment) (xs : List Appointment)
      → may_pay a ≡ true
      → payers (a ∷ xs) ≡ a ∷ filter (λ b. not (key_eq (key_of b) (key_of a))) (payers xs)
  payers-due a xs e = rw e refl

  skips_of : (x y z : Bool) → (x && not y) ≡ true → (not x || y || z) ≡ z
  skips_of x y z e = ground arith

  skips_idle : (x y z : Bool) → (x && not y) ≡ false → (not x || y || z) ≡ true
  skips_idle x y z e = ground arith

  -- Of the payers but those with the key of `a`, those whose key is not paid, if that key is paid.
  unpaid-others :
      (keys : List RentKey) (a : Appointment) (xs : List Appointment)
      → has_key (key_of a) keys ≡ true
      → filter (unpaid keys) (filter (λ b. not (key_eq (key_of b) (key_of a))) xs)
        ≡ filter (unpaid keys) xs
  unpaid-others keys a xs paid =
      filter-filter_of_le (unpaid keys) (λ b. not (key_eq (key_of b) (key_of a))) xs
        (λ b same. ap not (has_key_eq (key_of b) (key_of a) keys (double_not _ same) paid))
    where
      double_not : (b : Bool) → not b ≡ false → b ≡ true
      double_not b e = ground arith

  unpaid-due :
      (keys : List RentKey) (a : Appointment) (xs : List Appointment)
      → has_key (key_of a) keys ≡ false
      → filter (unpaid keys) (a ∷ filter (λ b. not (key_eq (key_of b) (key_of a))) xs)
        ≡ a ∷ filter (unpaid (key_of a ∷ keys)) xs
  unpaid-due keys a xs open_key = rw open_key (
      ap (λ t. a ∷ t)
        (filter-filter (unpaid keys) (λ b. not (key_eq (key_of b) (key_of a)))
          (unpaid (key_of a ∷ keys)) xs
          (λ b. neither (key_eq (key_of b) (key_of a)) (has_key (key_of b) keys))))
    where
      neither : (x y : Bool) → not (x || y) ≡ not (not (not x) || not (not y))
      neither x y = ground arith

  -- From keys that are paid already, the loop charges the payers with other keys.
  rent_loop-unpaid :
      (st : RentState) (xs : List Appointment)
      → (rent_loop zone rules anchors st xs).results
        ≡ charge_all (filter (unpaid st.keys) (payers xs)) st.results
  unfolding rent_loop
  rent_loop-unpaid st [] = refl
  rent_loop-unpaid st (a ∷ xs) = elim (Bool-cases (may_pay a)) [
    | inr idle ↦
        ap looped (rent_step-skip st a (skips_idle _ _ _ idle))
        ∙ rent_loop-unpaid st xs
        ∙ sym (ap charged (payers-idle a xs idle))
    | inl due ↦ elim (Bool-cases (has_key (key_of a) st.keys)) [
      | inl paid ↦
          ap looped (rent_step-skip st a (skips_of _ _ _ due ∙ paid))
          ∙ rent_loop-unpaid st xs
          ∙ sym (
              ap charged (payers-due a xs due)
              ∙ ap (λ t. charge_all t st.results)
                  (drop_paid paid ∙ unpaid-others st.keys a (payers xs) paid))
      | inr open_key ↦
          ap looped (rent_step-pay st a (skips_of _ _ _ due ∙ open_key))
          ∙ rent_loop-unpaid (pay zone rules anchors st a) xs
          ∙ sym (
              ap charged (payers-due a xs due)
              ∙ ap (λ t. charge_all t st.results) (unpaid-due st.keys a (payers xs) open_key))
    ]
  ]
    where
      looped : RentState → List FinancialResult
      looped t = (rent_loop zone rules anchors t xs).results

      charged : List Appointment → List FinancialResult
      charged t = charge_all (filter (unpaid st.keys) t) st.results

      drop_paid :
          has_key (key_of a) st.keys ≡ true
          → filter
              (unpaid st.keys)
              (a ∷ filter (λ b. not (key_eq (key_of b) (key_of a))) (payers xs))
            ≡ filter (unpaid st.keys) (filter (λ b. not (key_eq (key_of b) (key_of a))) (payers xs))
      drop_paid e = rw e refl

  others-Differ :
      (a : Appointment) (xs : List Appointment)
      → All
          (λ k. Differ (key_of a) k)
          (map key_of (filter (λ b. not (key_eq (key_of b) (key_of a))) xs))
  others-Differ a [] = tt
  others-Differ a (b ∷ xs) = elim (Bool-cases (key_eq (key_of b) (key_of a))) [
    | inl same ↦ rw same (others-Differ a xs)
    | inr other ↦ rw other (key_eq_symm (key_of a) (key_of b) ∙ other, others-Differ a xs)
  ]

  filter-Differ :
      (p : Appointment → Bool) (k : RentKey) (xs : List Appointment)
      → All (λ l. Differ k l) (map key_of xs)
      → All (λ l. Differ k l) (map key_of (filter p xs))
  filter-Differ p k [] h = tt
  filter-Differ p k (x ∷ xs) h = elim (Bool-cases (p x)) [
    | inl kept ↦ rw kept (h.0, filter-Differ p k xs h.1)
    | inr dropped ↦ rw dropped (filter-Differ p k xs h.1)
  ]

  filter-Pairwise :
      (p : Appointment → Bool) (xs : List Appointment)
      → Pairwise Differ (map key_of xs)
      → Pairwise Differ (map key_of (filter p xs))
  filter-Pairwise p [] h = tt
  filter-Pairwise p (x ∷ xs) h = elim (Bool-cases (p x)) [
    | inl kept ↦ rw kept (filter-Differ p (key_of x) xs h.0, filter-Pairwise p xs h.1)
    | inr dropped ↦ rw dropped (filter-Pairwise p xs h.1)
  ]

  firsts-Pairwise : (xs : List Appointment) → Pairwise Differ (map key_of (firsts xs))
  firsts-Pairwise [] = tt
  firsts-Pairwise (a ∷ xs) =
      (others-Differ a (firsts xs), filter-Pairwise _ (firsts xs) (firsts-Pairwise xs))

  filter-all : (xs : List Appointment) → filter (unpaid []) xs ≡ xs
  filter-all [] = refl
  filter-all (x ∷ xs) = ap (λ t. x ∷ t) (filter-all xs)

  -- A chair is paid once. From no keys on, the loop charges the rent to the results of the first
  -- appointment of each key, among those that owe rent (and are anchors, if anchors are given), and to
  -- no other; and the keys of these appointments are pairwise different, so a barber pays for a chair
  -- at a location once per day, week or month of the rule.
  pub rent_loop-charge_all :
      (results : List FinancialResult) (xs : List Appointment)
      → ((rent_loop zone rules anchors (record { keys = []; results = results }) xs).results
          ≡ charge_all (payers xs) results)
        × Pairwise Differ (map key_of (payers xs))
  rent_loop-charge_all results xs = (
    rent_loop-unpaid (record { keys = []; results = results }) xs
        ∙ ap (λ t. charge_all t results) (filter-all (payers xs)),
    firsts-Pairwise (filter may_pay xs),
  )
