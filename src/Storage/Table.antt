-- ===== src/Storage/Table.antt =====
-- Tables as lists of rows: a relation between any two rows, and what a `push`, a replacement and a
-- cut at the old length do to it.
use barber_bookings.Common.{
  ℕ, List, [], ◌∷◌, ◌++◌, ◌≡◌, ◌≢◌, sym, ap, ◌∙◌, inl, inr, All, All-append, All-zip, Bool-cases,
  ==_iff, ◌==◌, length, take, take-append,
}
use mathlib.Core.List.{append-nil, append_assoc}
use mathlib.Core.Bool.{false≢true}
use barber_bookings.Schema.{Appointment}
use barber_bookings.Storage.State.{replace_appointment}
use barber_bookings.Storage.Conflict.{Separate}

module _ {A : Type 0} (R : A → A → Type 0) where
  -- `R` holds of each row with each later one.
  abbrev pub Pairwise : List A → Type 0
  Pairwise [] = Unit
  Pairwise (x ∷ xs) = All (R x) xs × Pairwise xs

  pub Pairwise-push :
      (xs : List A) (a : A) → Pairwise xs → All (λ x. R x a) xs → Pairwise (xs ++ a ∷ [])
  Pairwise-push [] a h k = (tt, tt)
  Pairwise-push (x ∷ xs) a h k =
      (All-append (R x) xs (a ∷ []) h.0 (k.0, tt), Pairwise-push xs a h.1 k.1)

pub Separate-symm : (a b : Appointment) → Separate a b → Separate b a
Separate-symm a b (ne, apart) =
    ((λ e. ne (sym e)), λ p q r. elim (apart q p (sym r)) [ inl h ↦ inr h | inr h ↦ inl h ])

pub All-replace :
    (P : Appointment → Type 0) (id : ℕ) (u : Appointment) (xs : List Appointment)
    → P u
    → All P xs
    → All P (replace_appointment id u xs)
unfolding replace_appointment
All-replace P id u [] p h = tt
All-replace P id u (x ∷ xs) p h = elim (Bool-cases (x.id == id)) [
  | inl e ↦ rw (e, replace_appointment) (p, h.1)
  | inr e ↦ rw (e, replace_appointment) (h.0, All-replace P id u xs p h.1)
]

-- A row may take the place of the one with its id if it is separate from all others.
pub Pairwise-replace :
    (id : ℕ) (u : Appointment) (xs : List Appointment)
    → All (λ b. b.id ≢ id → Separate u b) xs
    → Pairwise Separate xs
    → Pairwise Separate (replace_appointment id u xs)
unfolding replace_appointment
Pairwise-replace id u [] k h = tt
Pairwise-replace id u (x ∷ xs) k h = elim (Bool-cases (x.id == id)) [
  | inl same ↦
      rw (same, replace_appointment)
        (All-zip (λ b f (ne, _). f (λ e. ne ((==_iff x.id id).0 same ∙ sym e))) xs k.1 h.0, h.1)
  | inr other ↦
      rw (other, replace_appointment)
        (
          All-replace (Separate x) id u xs
              (Separate-symm u x (k.0 (λ e. false≢true (sym other ∙ (==_iff x.id id).1 e)))) h.0,
          Pairwise-replace id u xs k.1 h.1,
        )
]

-- The items of `grown` begin with those of `old`.
abbrev pub Prefix : {A : Type 0} → List A → List A → Type 0
Prefix {A} old grown = (added : List A) × (grown ≡ old ++ added)

pub Prefix-refl : {A : Type 0} (xs : List A) → Prefix xs xs
Prefix-refl xs = ([], sym (append-nil xs))

pub Prefix-trans : {A : Type 0} (xs ys zs : List A) → Prefix xs ys → Prefix ys zs → Prefix xs zs
Prefix-trans xs ys zs (a, p) (b, q) = (a ++ b, q ∙ ap (λ t. t ++ b) p ∙ append_assoc xs a b)

-- `splice(length)` takes back what was pushed since the length was read.
pub take_of_Prefix : {A : Type 0} (xs ys : List A) → Prefix xs ys → take (length xs) ys ≡ xs
take_of_Prefix xs ys (a, p) = rw p (take-append xs a)
