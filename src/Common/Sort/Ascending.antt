-- ===== src/Common/Sort/Ascending.antt =====
-- Distinct numbers, sorted in ascending order.
use barber_bookings.Common.{
  ℕ, ◌<◌, List, [], ◌∷◌, ◌≢◌, inl, inr, arith, leb, Bool-cases, All, All-map,
}
use barber_bookings.Common.Member.{All-In, In-All}
use barber_bookings.Common.Sort.{sort_by, insert_sorted, All-insert_sorted_of, In-sort_by}

abbrev pub IsDistinct : List ℕ → Type 0
IsDistinct [] = Unit
IsDistinct (x ∷ xs) = All (λ y. x ≢ y) xs × IsDistinct xs

abbrev pub IsAscending : List ℕ → Type 0
IsAscending [] = Unit
IsAscending (x ∷ xs) = All (λ y. x < y) xs × IsAscending xs

insert_sorted-IsAscending :
    (x : ℕ) (ys : List ℕ)
    → IsAscending ys
    → All (λ y. x ≢ y) ys
    → IsAscending (insert_sorted leb x ys)
unfolding insert_sorted
insert_sorted-IsAscending x [] h d = (tt, tt)
insert_sorted-IsAscending x (y ∷ ys) h d = elim (Bool-cases (leb x y)) [
  | inl e ↦
      let lt : x < y = ground arith in
      rw (e, insert_sorted) ((lt, All-map (λ z (k : y < z). omega (arith, k, lt)) ys h.0), h)
  | inr e ↦
      rw (e, insert_sorted)
        (
          All-insert_sorted_of (λ z. y < z) leb x ys (ground arith) h.0,
          insert_sorted-IsAscending x ys h.1 d.1,
        )
]

pub sort_by-IsAscending : (xs : List ℕ) → IsDistinct xs → IsAscending (sort_by leb xs)
unfolding sort_by
sort_by-IsAscending [] h = tt
sort_by-IsAscending (x ∷ xs) h =
    insert_sorted-IsAscending x (sort_by leb xs) (sort_by-IsAscending xs h.1) (
      All-In (λ y. x ≢ y) (sort_by leb xs)
        (λ y i. In-All (λ y. x ≢ y) y xs h.0 (In-sort_by leb y xs i)))
