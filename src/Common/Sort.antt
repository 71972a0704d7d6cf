-- ===== src/Common/Sort.antt =====
-- `Array.prototype.sort` with a comparator: a stable sort. `before x y` says that the comparator does
-- not put `y` first, so that equal items keep their order.
pub mod Ascending
use barber_bookings.Common.{
  ℕ, ◌≤◌, Bool, true, List, [], ◌∷◌, ◌++◌, some, false, refl, sym, ap, any, ◌≡◌, ◌⊎◌, inl, inr,
  arith, leb, Bool-cases, if◌then◌else◌, All, All-map, find?, filter,
}
pub use barber_bookings.Common.Member.{In, In-filter, In-find?}
use barber_bookings.Common.Member.{All-In, In-All}

module _ {A : Type 0} where
  pub insert_sorted : (A → A → Bool) → A → List A → List A
  insert_sorted before x [] = x ∷ []
  insert_sorted before x (y ∷ ys) = if before x y then x ∷ y ∷ ys else y ∷ insert_sorted before x ys

  unfoldable pub sort_by : (A → A → Bool) → List A → List A
  unfolding insert_sorted
  sort_by before [] = []
  sort_by before (x ∷ xs) = insert_sorted before x (sort_by before xs)

  -- An item of `y ∷ zs`, where the items of `zs` are `x` and those of `ys`.
  In-swap :
      {a x y : A} (ys zs : List A)
      → (In a zs → (a ≡ x) ⊎ In a ys)
      → In a (y ∷ zs)
      → (a ≡ x) ⊎ In a (y ∷ ys)
  In-swap ys zs f (inl e) = inr (inl e)
  In-swap ys zs f (inr k) = elim (f k) [ inl e ↦ inl e | inr m ↦ inr (inr m) ]

  In-insert_sorted :
      (before : A → A → Bool) (x a : A) (ys : List A)
      → In a (insert_sorted before x ys)
      → (a ≡ x) ⊎ In a ys
  unfolding insert_sorted
  In-insert_sorted before x a [] h = h
  In-insert_sorted before x a (y ∷ ys) h = elim (Bool-cases (before x y)) [
    | inl e ↦ rw (e, insert_sorted) at h
    | inr e ↦ In-swap ys _ (In-insert_sorted before x a ys) (rw (e, insert_sorted) at h)
  ]

  -- Sorting adds no item.
  pub In-sort_by :
      (before : A → A → Bool) (a : A) (xs : List A) → In a (sort_by before xs) → In a xs
  unfolding sort_by
  In-sort_by before a [] h = h
  In-sort_by before a (x ∷ xs) h = elim (In-insert_sorted before x a (sort_by before xs) h) [
    | inl e ↦ inl e
    | inr m ↦ inr (In-sort_by before a xs m)
  ]

  module _ (P : A → Type 0) where
    All-insert_sorted :
        (before : A → A → Bool) (x : A) (ys : List A)
        → All P (insert_sorted before x ys)
        → P x × All P ys
    unfolding insert_sorted
    All-insert_sorted before x [] h = h
    All-insert_sorted before x (y ∷ ys) h = ground (arith, All-insert_sorted before x ys)

    -- Sorting loses no item.
    pub All-sort_by : (before : A → A → Bool) (xs : List A) → All P (sort_by before xs) → All P xs
    unfolding sort_by
    All-sort_by before [] h = h
    All-sort_by before (x ∷ xs) h =
        let both = All-insert_sorted before x (sort_by before xs) h in
        (both.0, All-sort_by before xs both.1)

    All-insert_sorted_of :
        (before : A → A → Bool) (x : A) (ys : List A)
        → P x
        → All P ys
        → All P (insert_sorted before x ys)
    unfolding insert_sorted
    All-insert_sorted_of before x [] p h = (p, tt)
    All-insert_sorted_of before x (y ∷ ys) p h = ground (arith, All-insert_sorted_of before x ys)

    pub All-sort_by_of :
        (before : A → A → Bool) (xs : List A) → All P xs → All P (sort_by before xs)
    unfolding sort_by
    All-sort_by_of before [] h = h
    All-sort_by_of before (x ∷ xs) h =
        All-insert_sorted_of before x (sort_by before xs) h.0 (All-sort_by_of before xs h.1)

  pub In-sort_by_of :
      (before : A → A → Bool) (a : A) (xs : List A) → In a xs → In a (sort_by before xs)
  In-sort_by_of before a xs i =
      In-All (λ y. In y (sort_by before xs)) a xs
        (All-sort_by (λ y. In y (sort_by before xs)) before xs
          (All-In (λ y. In y (sort_by before xs)) (sort_by before xs) (λ y j. j)))
        i

  -- What holds of the items kept holds of each item that passes the test.
  pub All-filter :
      (P : A → Type 0) (p : A → Bool) (xs : List A)
      → All P (filter p xs)
      → All (λ c. p c ≡ true → P c) xs
  All-filter P p [] h = tt
  All-filter P p (x ∷ xs) h = elim (Bool-cases (p x)) [
    | inl e ↦
        let both : P x × All P (filter p xs) = rw e at h in
        ((λ _. both.0), All-filter P p xs both.1)
    | inr e ↦ ((λ t. cc), All-filter P p xs (rw e at h))
  ]

-- Sorted by a key, the largest first.
module _ {A : Type 0} (key : A → ℕ) where
  abbrev pub IsDescending : List A → Type 0
  IsDescending [] = Unit
  IsDescending (x ∷ xs) = All (λ y. key y ≤ key x) xs × IsDescending xs

  abbrev pub later_first : A → A → Bool
  later_first x y = leb (key y) (key x)

  insert_sorted-IsDescending :
      (x : A) (ys : List A) → IsDescending ys → IsDescending (insert_sorted later_first x ys)
  unfolding insert_sorted
  insert_sorted-IsDescending x [] h = (tt, tt)
  insert_sorted-IsDescending x (y ∷ ys) h = elim (Bool-cases (leb (key y) (key x))) [
    | inl e ↦
        rw (e, insert_sorted)
          ((ground arith, All-map (λ z (le : key z ≤ key y). ground arith) ys h.0), h)
    | inr e ↦
        rw (e, insert_sorted)
          (
            All-insert_sorted_of (λ z. key z ≤ key y) later_first x ys (ground arith) h.0,
            insert_sorted-IsDescending x ys h.1,
          )
  ]

  pub sort_by-IsDescending : (xs : List A) → IsDescending (sort_by later_first xs)
  unfolding sort_by
  sort_by-IsDescending [] = tt
  sort_by-IsDescending (x ∷ xs) =
      insert_sorted-IsDescending x (sort_by later_first xs) (sort_by-IsDescending xs)

  -- The first item that is not past `limit` has the largest key among those.
  pub find?-max :
      (limit : ℕ) (xs : List A) (r : A)
      → IsDescending xs
      → find? (λ c. leb (key c) limit) xs ≡ some r
      → All (λ c. key c ≤ limit → key c ≤ key r) xs
  find?-max limit [] r h e = tt
  find?-max limit (x ∷ xs) r h e = elim (Bool-cases (leb (key x) limit)) [
    | inl le ↦
        let same : x ≡ r = ground arith in
        ((λ _. ground arith), All-map (λ z k _. rw same at k) xs h.0)
    | inr gt ↦ (ground arith, find?-max limit xs r h.1 (ground arith))
  ]
