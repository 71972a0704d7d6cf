-- ===== src/Access/Grants/Includes.antt =====
-- Sets of capabilities (shared/auth/access.ts): what an addition to one includes.
use barber_bookings.Common.{
  ℕ, Bool, true, false, ◌||◌, List, [], ◌∷◌, ◌++◌, ◌≡◌, refl, sym, ap, ◌∙◌, arith, ◌==◌,
  if◌then◌else◌, Bool-cases, inl, inr,
}
use barber_bookings.Access.Capabilities.{CapabilityCode, code_eq, code_rank, includes}
use barber_bookings.Access.Scopes.{add_all}

pub or_assoc : (a b c : Bool) → (a || b) || c ≡ a || (b || c)
or_assoc true b c = refl
or_assoc false b c = refl

pub or_comm : (a b : Bool) → a || b ≡ b || a
or_comm a b = ground arith

or_absorb : (a b : Bool) → (b ≡ true → a ≡ true) → a ≡ a || b
or_absorb a b h = ground arith

pub or_false : (a : Bool) → a || false ≡ a
or_false a = ground arith

includes-append :
    (c : CapabilityCode) (xs ys : List CapabilityCode)
    → includes c (xs ++ ys) ≡ includes c xs || includes c ys
includes-append c [] ys = refl
includes-append c (x ∷ xs) ys =
    ap (λ b. code_eq x c || b) (includes-append c xs ys) ∙ sym (or_assoc (code_eq x c) _ _)

eq_through : (x d c : ℕ) → (d == c) ≡ true → (x == d) ≡ (x == c)
eq_through x d c h = ground arith

code_eq_through : (x d c : CapabilityCode) → code_eq d c ≡ true → code_eq x d ≡ code_eq x c
unfolding code_eq
code_eq_through x d c h = eq_through (code_rank x) (code_rank d) (code_rank c) h

-- A code that equals another is in a list if the other is.
includes_same :
    (c d : CapabilityCode) (xs : List CapabilityCode)
    → code_eq d c ≡ true
    → includes d xs ≡ includes c xs
includes_same c d [] e = refl
includes_same c d (x ∷ xs) e =
    ap (λ b. b || includes d xs) (code_eq_through x d c e)
    ∙ ap (λ b. code_eq x c || b) (includes_same c d xs e)

includes-add :
    (c d : CapabilityCode) (xs : List CapabilityCode)
    → includes c (if includes d xs then xs else xs ++ d ∷ []) ≡ includes c xs || code_eq d c
includes-add c d xs = elim (Bool-cases (includes d xs)) [
  | inl e ↦ rw e (or_absorb (includes c xs) (code_eq d c) (λ k. sym (includes_same c d xs k) ∙ e))
  | inr e ↦
      rw e (includes-append c xs (d ∷ []) ∙ ap (λ b. includes c xs || b) (or_false (code_eq d c)))
]

pub includes-add_all :
    (c : CapabilityCode) (target codes : List CapabilityCode)
    → includes c (add_all target codes) ≡ includes c target || includes c codes
unfolding add_all
includes-add_all c target [] = sym (or_false (includes c target))
includes-add_all c target (d ∷ ds) =
    includes-add_all c (if includes d target then target else target ++ d ∷ []) ds
    ∙ ap (λ b. b || includes c ds) (includes-add c d target)
    ∙ or_assoc (includes c target) (code_eq d c) (includes c ds)
