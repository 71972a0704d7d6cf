-- ===== src/Finance/Conservation.antt =====
-- About the sums of server/appointment-finance.ts: lines, appointments and totals.
use barber_bookings.Common.{
  ℕ, ◌+◌, Bool, true, false, List, [], ◌∷◌, map, Option, ◌≡◌, ap, arith, All, Bool-cases, ◌==◌, any,
  inl, inr,
}
use barber_bookings.Common.Int.{
  ℤ, pos, ◌+ℤ◌, ◌-ℤ◌, +ℤ_parts, -ℤ_parts, eq_of_parts, pos_part, neg_part,
}
use barber_bookings.Calendar.{CalendarDate}
use barber_bookings.Schema.{Appointment, AppointmentExtra, BarberCompensationRule, Instant}
use barber_bookings.Schema.Enums.{ExtraFinancialRule}
use barber_bookings.Finance.Amounts.{
  FinancialLine, create_financial_line, get_appointment_price_cents,
}
use barber_bookings.Finance.Rounding.{split_realized_amount-Conserves}
use barber_bookings.Finance.Rules.{get_compensation_rule_for_appointment}
use barber_bookings.Finance.Base.{
  FinancialResult, calculate_base_appointment_financials, extra_line, financial_lines, is_realized,
  ordered_extras, sum, sum_ℤ,
}
use barber_bookings.Finance.ChairRent.{
  RentState, charge_if, charge_result, chronological, is_result_of, rent_loop, rent_step, skips,
}
use barber_bookings.Finance.Totals.{base_results, calculate_appointments_financials, extras_of}

-- A sum of integers that is a natural number, by the parts of its terms.
sum_parts :
    (p q : ℤ) (m : ℕ) → p +ℤ q ≡ pos m → m + neg_part p + neg_part q ≡ pos_part p + pos_part q
sum_parts p q m g = omega (arith, +ℤ_parts p q, ap pos_part g, ap neg_part g)

-- The two sums of a list whose items each split an amount.
sum-Conserves :
    {A : Type 0} (b e : A → ℤ) (r : A → ℕ) (xs : List A)
    → All (λ x. b x +ℤ e x ≡ pos (r x)) xs
    → sum_ℤ xs b +ℤ sum_ℤ xs e ≡ pos (sum xs r)
sum-Conserves b e r [] h = eq_of_parts _ _ (omega (arith, +ℤ_parts (pos 0) (pos 0)))
sum-Conserves b e r (x ∷ xs) h =
    regroup (b x) (e x) (sum_ℤ xs b) (sum_ℤ xs e) (r x) (sum xs r) h.0 (sum-Conserves b e r xs h.1)
  where
    regroup :
        (p q s t : ℤ) (m n : ℕ)
        → p +ℤ q ≡ pos m
        → s +ℤ t ≡ pos n
        → (p +ℤ s) +ℤ (q +ℤ t) ≡ pos (m + n)
    regroup p q s t m n g k = eq_of_parts _ _ (
        omega (
          arith,
          sum_parts p q m g,
          sum_parts s t n k,
          +ℤ_parts p s,
          +ℤ_parts q t,
          +ℤ_parts (p +ℤ s) (q +ℤ t),
        ))

-- Moving a rent from one share to the other keeps their sum.
move_rent : (b e : ℤ) (c r : ℕ) → b +ℤ e ≡ pos r → (b -ℤ pos c) +ℤ (e +ℤ pos c) ≡ pos r
move_rent b e c r h = eq_of_parts _ _ (
    omega (
      arith,
      sum_parts b e r h,
      -ℤ_parts b (pos c),
      +ℤ_parts e (pos c),
      +ℤ_parts (b -ℤ pos c) (e +ℤ pos c),
    ))

abbrev pub Balanced : FinancialResult → Type 0
Balanced r = r.barber_amount_cents +ℤ r.establishment_amount_cents ≡ pos r.realized_amount_cents

abbrev LineBalanced : FinancialLine → Type 0
LineBalanced l =
    l.split.barber_amount_cents +ℤ l.split.establishment_amount_cents ≡ pos l.realized_amount_cents

lines-Balanced :
    (realized : Bool) (rule : BarberCompensationRule) (extras : List AppointmentExtra)
    → All LineBalanced (map (extra_line realized rule) extras)
unfolding create_financial_line
lines-Balanced realized rule [] = tt
lines-Balanced realized rule (x ∷ xs) = (
  split_realized_amount-Conserves _ x.financial_rule_snapshot rule,
  lines-Balanced realized rule xs,
)

-- An appointment's two shares sum to its realized amount before any chair rent.
pub base-Balanced :
    (a : Appointment) (extras : List AppointmentExtra) (service_prices : ℕ → Option ℕ)
    (rule : BarberCompensationRule)
    → Balanced (calculate_base_appointment_financials a extras service_prices rule)
unfolding calculate_base_appointment_financials create_financial_line
base-Balanced a extras service_prices rule =
    sum-Conserves _ _ _
      (financial_lines a extras (get_appointment_price_cents a service_prices) rule)
      (
        split_realized_amount-Conserves _ ExtraFinancialRule.follow_compensation rule,
        lines-Balanced (is_realized a) rule (ordered_extras extras),
      )

charge_if-Balanced :
    (b : Bool) (rent : ℕ) (r : FinancialResult) → Balanced r → Balanced (charge_if b rent r)
charge_if-Balanced true rent r h =
    move_rent r.barber_amount_cents r.establishment_amount_cents rent r.realized_amount_cents h
charge_if-Balanced false rent r h = h

charge_result-Balanced :
    (id rent : ℕ) (rs : List FinancialResult)
    → All Balanced rs
    → All Balanced (charge_result id rent rs)
charge_result-Balanced id rent [] h = tt
charge_result-Balanced id rent (r ∷ rs) h = elim (Bool-cases (any (is_result_of id) rs)) [
  | inl later ↦ rw later (h.0, charge_result-Balanced id rent rs h.1)
  | inr last ↦ rw last (charge_if-Balanced (r.appointment_id == id) rent r h.0, h.1)
]

module _ (zone : Instant → CalendarDate) (rules : List BarberCompensationRule)
    (anchors : Option (List ℕ)) where
  rent_step-Balanced :
      (st : RentState) (a : Appointment)
      → All Balanced st.results
      → All Balanced (rent_step zone rules anchors st a).results
  unfolding rent_step
  rent_step-Balanced st a h = elim (Bool-cases (skips zone rules anchors st a)) [
    | inl skipped ↦ rw skipped h
    | inr charged ↦ rw charged (charge_result-Balanced a.id _ st.results h)
  ]

  rent_loop-Balanced :
      (st : RentState) (xs : List Appointment)
      → All Balanced st.results
      → All Balanced (rent_loop zone rules anchors st xs).results
  unfolding rent_loop
  rent_loop-Balanced st [] h = h
  rent_loop-Balanced st (a ∷ xs) h =
      rent_loop-Balanced (rent_step zone rules anchors st a) xs (rent_step-Balanced st a h)

  base_results-Balanced :
      (xs : List Appointment) (extras : List AppointmentExtra) (service_prices : ℕ → Option ℕ)
      → All Balanced (base_results xs extras service_prices rules)
  base_results-Balanced [] extras service_prices = tt
  base_results-Balanced (a ∷ xs) extras service_prices = (
    base-Balanced a (extras_of a.id extras) service_prices
        (get_compensation_rule_for_appointment rules a),
    base_results-Balanced xs extras service_prices,
  )

  -- Chair rents only move money between a barber and the establishment: after the loop, the shares of
  -- every appointment still sum to its realized amount, and so do the totals.
  pub calculate_appointments_financials-Conserves :
      (xs : List Appointment) (extras : List AppointmentExtra) (service_prices : ℕ → Option ℕ)
      → (let t = calculate_appointments_financials zone xs extras service_prices rules anchors in
          All Balanced t.appointments
          × (t.barber_amount_cents +ℤ t.establishment_amount_cents ≡ pos t.realized_amount_cents))
  unfolding calculate_appointments_financials
  calculate_appointments_financials-Conserves xs extras service_prices =
      (balanced, sum-Conserves _ _ _ _ balanced)
    where
      before : RentState
      before = record { keys = []; results = base_results xs extras service_prices rules }

      balanced : All Balanced (rent_loop zone rules anchors before (chronological xs)).results
      balanced =
          rent_loop-Balanced before (chronological xs)
            (base_results-Balanced xs extras service_prices)
