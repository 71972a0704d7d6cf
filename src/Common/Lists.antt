-- ===== src/Common/Lists.antt =====
-- Lists measured by native numbers, searches and predicates over lists.
use Prim.Native.Nat.{ℕ, zero, suc, ◌+◌}
use mathlib.Core.Path.{◌≡◌, refl, ap}
use mathlib.Core.Bool.{Bool, true, false, not, ◌&&◌, ◌||◌}
use mathlib.Core.Logic.{inl, inr}
use mathlib.Core.Option.{Option, none, some}
use mathlib.Core.List.{List, [], ◌∷◌, ◌++◌}
use native.Mathlib.Omega.{arith}
use barber_bookings.Common.Tests.{Bool-cases, if◌then◌else◌, ◌==◌}

module _ {ℓ} {A : Type ℓ} where
  abbrev pub length : List A → ℕ
  length [] = 0
  length (x ∷ xs) = suc (length xs)

  abbrev pub take : ℕ → List A → List A
  take zero xs = []
  take (suc n) [] = []
  take (suc n) (x ∷ xs) = x ∷ take n xs

  -- `list.some(test)`
  abbrev pub any : (A → Bool) → List A → Bool
  any p [] = false
  any p (x ∷ xs) = p x || any p xs

  -- `list.every(test)`
  abbrev pub all : (A → Bool) → List A → Bool
  all p [] = true
  all p (x ∷ xs) = p x && all p xs

  -- `list.find(test)`
  abbrev pub find? : (A → Bool) → List A → Option A
  find? p [] = none
  find? p (x ∷ xs) = if p x then some x else find? p xs

  -- `list.filter(test)`
  abbrev pub filter : (A → Bool) → List A → List A
  filter p [] = []
  filter p (x ∷ xs) = if p x then x ∷ filter p xs else filter p xs

  pub take-append : (xs ys : List A) → take (length xs) (xs ++ ys) ≡ xs
  take-append [] ys = refl
  take-append (x ∷ xs) ys = ap (λ t. x ∷ t) (take-append xs ys)

  pub length-append : (xs ys : List A) → length (xs ++ ys) ≡ length xs + length ys
  length-append [] ys = omega arith
  length-append (x ∷ xs) ys = omega (arith, length-append xs ys)

module _ {ℓ κ} {A : Type ℓ} (P : A → Type κ) where
  abbrev pub All : List A → Type κ
  All [] = Unit
  All (x ∷ xs) = P x × All xs

  pub All-append : (xs ys : List A) → All xs → All ys → All (xs ++ ys)
  All-append [] ys hx hy = hy
  All-append (x ∷ xs) ys hx hy = (hx.0, All-append xs ys hx.1 hy)

-- What holds of each item can be replaced by what follows from it.
pub All-map {ℓ κ μ} :
    {A : Type ℓ} {P : A → Type κ} {Q : A → Type μ}
    → ((x : A) → P x → Q x)
    → (xs : List A) → All P xs
    → All Q xs
All-map f [] h = tt
All-map f (x ∷ xs) h = (f x h.0, All-map f xs h.1)

pub All-zip {ℓ κ μ ν} :
    {A : Type ℓ} {P : A → Type κ} {Q : A → Type μ} {R : A → Type ν}
    → ((x : A) → P x → Q x → R x)
    → (xs : List A) → All P xs
    → All Q xs
    → All R xs
All-zip f [] h k = tt
All-zip f (x ∷ xs) h k = (f x h.0 k.0, All-zip f xs h.1 k.1)

-- `list.includes(n)` and `set.has(n)` on numbers.
abbrev pub has : ℕ → List ℕ → Bool
has n [] = false
has n (x ∷ xs) = (x == n) || has n xs

module _ {A : Type 0} where
  -- A second filter that keeps no more than the first leaves the first without effect.
  pub filter-filter_of_le :
      (p q : A → Bool) (xs : List A)
      → ((x : A) → q x ≡ false → p x ≡ false)
      → filter p (filter q xs) ≡ filter p xs
  filter-filter_of_le p q [] h = refl
  filter-filter_of_le p q (x ∷ xs) h = elim (Bool-cases (q x)) [
    | inl kept ↦ rw kept (ap (λ t. if p x then x ∷ t else t) (filter-filter_of_le p q xs h))
    | inr dropped ↦ rw dropped (rw (h x dropped) (filter-filter_of_le p q xs h))
  ]

  -- Two filters in a row are one.
  pub filter-filter :
      (p q r : A → Bool) (xs : List A)
      → ((x : A) → r x ≡ not (not (q x) || not (p x)))
      → filter p (filter q xs) ≡ filter r xs
  filter-filter p q r [] h = refl
  filter-filter p q r (x ∷ xs) h = elim (Bool-cases (q x)) [
    | inl kept ↦ ground (arith, h x, filter-filter p q r xs h)
    | inr dropped ↦ ground (arith, h x, filter-filter p q r xs h)
  ]
