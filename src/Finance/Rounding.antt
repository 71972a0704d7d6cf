-- ===== src/Finance/Rounding.antt =====
-- About the rounding and the split of one amount (server/appointment-finance.ts).
use barber_bookings.Common.{
  ℕ, zero, suc, ◌⊎◌, inl, inr, ◌+◌, ◌*◌, ◌≤◌, ◌<◌, ◌≡◌, refl, arith, Bool-cases, get_or,
  if◌then◌else◌,
}
use barber_bookings.Common.Int.{
  ℤ, pos, negsuc, ◌+ℤ◌, ◌-ℤ◌, ◌≤ℤ◌, pos_part, neg_part, +ℤ_parts, -ℤ_parts, eq_of_parts,
}
use barber_bookings.Schema.{BarberCompensationRule}
use barber_bookings.Schema.Enums.{
  AppointmentPaymentMethod, AppointmentStatus, ExtraFinancialRule, BarberCompensationModel,
  is_completed, barber, establishment, follow_compensation, commission, chair_rent, cash, card,
  voucher, gift, pending,
}
use barber_bookings.Finance.Amounts.{
  PaymentAmounts, amounts_of, no_amounts, round_percentage_cents, split_by_model,
  split_realized_amount, get_appointment_payment_amounts,
}

-- A rounded percentage is off by at most half a cent: 100 times it is within 50 of the product, and
-- a half is rounded up.
pub round_percentage_cents-IsNearest :
    (amount percent : ℕ)
    → (100 * round_percentage_cents amount percent ≤ amount * percent + 50)
      × (amount * percent + 50 < 100 * round_percentage_cents amount percent + 100)
unfolding round_percentage_cents
round_percentage_cents-IsNearest amount percent = (omega arith, omega arith)

rest : (r b : ℕ) → pos b +ℤ (pos r -ℤ pos b) ≡ pos r
rest r b =
    eq_of_parts _ _ (omega (arith, +ℤ_parts (pos b) (pos r -ℤ pos b), -ℤ_parts (pos r) (pos b)))

whole : (r : ℕ) → pos r +ℤ pos 0 ≡ pos r
whole r = eq_of_parts _ _ (omega (arith, +ℤ_parts (pos r) (pos 0)))

other_whole : (r : ℕ) → pos 0 +ℤ pos r ≡ pos r
other_whole r = eq_of_parts _ _ (omega (arith, +ℤ_parts (pos 0) (pos r)))

-- The two shares of a realized amount sum to it, whatever the rule of the line and the compensation
-- rule of the barber: no cent is lost or made.
pub split_realized_amount-Conserves :
    (amount : ℕ) (line : ExtraFinancialRule) (rule : BarberCompensationRule)
    → (split_realized_amount amount line rule).barber_amount_cents
        +ℤ (split_realized_amount amount line rule).establishment_amount_cents
      ≡ pos amount
unfolding split_realized_amount
split_realized_amount-Conserves amount barber rule = whole amount
split_realized_amount-Conserves amount establishment rule = other_whole amount
split_realized_amount-Conserves amount follow_compensation rule = by_model rule.model
  where
    by_model :
        (m : BarberCompensationModel)
        → (split_by_model amount m rule.commission_percent).barber_amount_cents
            +ℤ (split_by_model amount m rule.commission_percent).establishment_amount_cents
          ≡ pos amount
    by_model commission = rest amount _
    by_model chair_rent = whole amount
    by_model BarberCompensationModel.none = other_whole amount

times_le : (a p : ℕ) → p ≤ 100 → a * p ≤ a * 100
times_le zero p h = omega arith
times_le (suc a) p h = omega (arith, times_le a p h)

round_le : (a p : ℕ) → p ≤ 100 → round_percentage_cents a p ≤ a
round_le a p h = omega (arith, (round_percentage_cents-IsNearest a p).0, times_le a p h)

-- A share of at most the amount leaves a rest that is not negative.
rest_of_share : (r b : ℕ) → b ≤ r → pos 0 ≤ℤ (pos r -ℤ pos b)
rest_of_share r b h = omega (arith, h, -ℤ_parts (pos r) (pos b), one_sign (pos r -ℤ pos b))
  where
    one_sign : (z : ℤ) → (pos_part z ≡ 0) ⊎ (neg_part z ≡ 0)
    one_sign (pos n) = inr refl
    one_sign (negsuc n) = inl refl

-- No share of a realized amount is negative if the commission is at most 100 percent.
pub split_realized_amount-IsFair :
    (amount : ℕ) (line : ExtraFinancialRule) (rule : BarberCompensationRule)
    → get_or rule.commission_percent 0 ≤ 100
    → (pos 0 ≤ℤ (split_realized_amount amount line rule).barber_amount_cents)
      × (pos 0 ≤ℤ (split_realized_amount amount line rule).establishment_amount_cents)
unfolding split_realized_amount
split_realized_amount-IsFair amount barber rule h = (omega arith, omega arith)
split_realized_amount-IsFair amount establishment rule h = (omega arith, omega arith)
split_realized_amount-IsFair amount follow_compensation rule h = by_model rule.model
  where
    by_model :
        (m : BarberCompensationModel)
        → (pos 0 ≤ℤ (split_by_model amount m rule.commission_percent).barber_amount_cents)
          × (pos 0 ≤ℤ (split_by_model amount m rule.commission_percent).establishment_amount_cents)
    by_model commission = (omega arith, rest_of_share amount _ (round_le amount _ h))
    by_model chair_rent = (omega arith, omega arith)
    by_model BarberCompensationModel.none = (omega arith, omega arith)

-- The account of a payment method.
abbrev pub on_account : PaymentAmounts → AppointmentPaymentMethod → ℕ
on_account p cash = p.cash_amount_cents
on_account p card = p.card_amount_cents
on_account p voucher = p.voucher_amount_cents
on_account p gift = p.gift_amount_cents
on_account p pending = p.pending_payment_amount_cents

-- A completed appointment has its total on the account of its payment method and nothing on any other;
-- it counts as received if the method is cash or card. Any other appointment has nothing on any
-- account.
pub get_appointment_payment_amounts-Partition :
    (status : AppointmentStatus) (method other : AppointmentPaymentMethod) (total : ℕ)
    → (let p = get_appointment_payment_amounts status method total in
        (on_account p method ≡ (if is_completed status then total else 0))
        × ((other ≡ method) ⊎ (on_account p other ≡ 0))
        × (p.received_amount_cents ≡ on_account p cash + on_account p card))
unfolding get_appointment_payment_amounts
get_appointment_payment_amounts-Partition status method other total =
    elim (Bool-cases (is_completed status)) [
      | inl done ↦ rw done (own method, others method other, received method)
      | inr still_open ↦ rw still_open (nothing method, inr (nothing other), refl)
    ]
  where
    own : (m : AppointmentPaymentMethod) → on_account (amounts_of m total) m ≡ total
    own cash = refl
    own card = refl
    own voucher = refl
    own gift = refl
    own pending = refl

    others : (m o : AppointmentPaymentMethod) → (o ≡ m) ⊎ (on_account (amounts_of m total) o ≡ 0)
    others m o = ground arith

    received :
        (m : AppointmentPaymentMethod)
        → (amounts_of m total).received_amount_cents
          ≡ on_account (amounts_of m total) cash + on_account (amounts_of m total) card
    received m = ground arith

    nothing : (m : AppointmentPaymentMethod) → on_account no_amounts m ≡ 0
    nothing m = ground arith
