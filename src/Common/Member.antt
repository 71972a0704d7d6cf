-- ===== src/Common/Member.antt =====
-- Membership in a list, and the searches and filters that it decides.
use barber_bookings.Common.{
  Bool, true, List, [], ◌∷◌, ◌++◌, some, ◌≡◌, ◌⊎◌, inl, inr, refl, sym, ap, arith, Bool-cases, All,
  any, find?, filter,
}

module _ {A : Type 0} where
  -- `x` is one of the items.
  abbrev pub In : A → List A → Type 0
  In x [] = ⊥
  In x (y ∷ ys) = (x ≡ y) ⊎ In x ys

  pub In-append : (a : A) (xs ys : List A) → In a (xs ++ ys) → In a xs ⊎ In a ys
  In-append a [] ys h = inr h
  In-append a (x ∷ xs) ys (inl e) = inl (inl e)
  In-append a (x ∷ xs) ys (inr h) = elim (In-append a xs ys h) [
    | inl i ↦ inl (inr i)
    | inr j ↦ inr j
  ]

  pub In-append_left : (a : A) (xs ys : List A) → In a xs → In a (xs ++ ys)
  In-append_left a [] ys h = absurd h
  In-append_left a (x ∷ xs) ys (inl e) = inl e
  In-append_left a (x ∷ xs) ys (inr h) = inr (In-append_left a xs ys h)

  pub In-append_right : (a : A) (xs ys : List A) → In a ys → In a (xs ++ ys)
  In-append_right a [] ys h = h
  In-append_right a (x ∷ xs) ys h = inr (In-append_right a xs ys h)

  pub In-filter_of :
      (p : A → Bool) (a : A) (xs : List A) → In a xs → p a ≡ true → In a (filter p xs)
  In-filter_of p a [] h e = absurd h
  In-filter_of p a (x ∷ xs) (inl same) e = rw (sym (ap p same), e) (inl same)
  In-filter_of p a (x ∷ xs) (inr h) e =
      let rest = In-filter_of p a xs h e in
      elim (Bool-cases (p x)) [ inl t ↦ rw t (inr rest) | inr f ↦ rw f rest ]

  -- `any` is a search.
  pub In-any : (p : A → Bool) (xs : List A) → any p xs ≡ true → (x : A) × In x xs × (p x ≡ true)
  In-any p [] h = ground arith
  In-any p (x ∷ xs) h = elim (Bool-cases (p x)) [
    | inl t ↦ (x, inl refl, t)
    | inr f ↦ let (y, i, e) = In-any p xs (rw f at h) in (y, inr i, e)
  ]

  pub any_of_In : (p : A → Bool) (x : A) (xs : List A) → In x xs → p x ≡ true → any p xs ≡ true
  any_of_In p x [] h e = absurd h
  any_of_In p x (y ∷ ys) (inl same) e = rw (sym (ap p same), e) refl
  any_of_In p x (y ∷ ys) (inr h) e =
      let rest = any_of_In p x ys h e in
      elim (Bool-cases (p y)) [ inl t ↦ rw t refl | inr f ↦ rw f rest ]

  pub All-In : (P : A → Type 0) (xs : List A) → ((x : A) → In x xs → P x) → All P xs
  All-In P [] h = tt
  All-In P (x ∷ xs) h = (h x (inl refl), All-In P xs (λ y i. h y (inr i)))

  pub In-All : (P : A → Type 0) (x : A) (xs : List A) → All P xs → In x xs → P x
  In-All P x [] h i = absurd i
  In-All P x (y ∷ ys) h (inl e) = rw e h.0
  In-All P x (y ∷ ys) h (inr i) = In-All P x ys h.1 i

  pub In-filter : (p : A → Bool) (a : A) (xs : List A) → In a (filter p xs) → In a xs × (p a ≡ true)
  In-filter p a [] h = absurd h
  In-filter p a (x ∷ xs) h = ground (arith, In-filter p a xs)

  pub In-find? : (p : A → Bool) (a : A) (xs : List A) → find? p xs ≡ some a → In a xs × (p a ≡ true)
  In-find? p a [] h = ground arith
  In-find? p a (x ∷ xs) h = ground (arith, In-find? p a xs)
