-- ===== src/Access/Grants.antt =====
-- About `resolveEffectiveAccess` and the tests of a capability (shared/auth/access.ts).
pub mod Includes
use barber_bookings.Common.{
  ℕ, Bool, true, false, not, ◌&&◌, ◌||◌, List, [], ◌∷◌, ◌++◌, Option, none, some, ◌≡◌, refl, sym,
  ap, ◌∙◌, arith, any, ◌==◌, if◌then◌else◌, Bool-cases, Option-cases, inl, inr, is_some,
}
use barber_bookings.Access.Capabilities.{CapabilityCode, code_eq, code_rank, includes}
use barber_bookings.Access.Scopes.{
  AccessScope, EffectiveAccess, LocationAccess, ScopeKind, add_all, add_at, add_scope_to,
  add_scopes, global, has_capability, has_capability_at_location, is_held_at, is_misplaced,
  location, no_access, resolve_effective_access, scope_capabilities, add_local,
}
use barber_bookings.Access.Grants.Includes.{or_assoc, or_comm, or_false, includes-add_all}

-- An entry that got more capabilities holds the old ones or the new ones.
entry_grows : (p i j h : Bool) → (p && (i || j)) || h ≡ ((p && i) || h) || (p && j)
entry_grows true true j h = refl
entry_grows true false j h = or_comm j h
entry_grows false i j h = sym (or_false h)

eq_to : (x id n : ℕ) → (x == id) ≡ true → (x == n) ≡ (id == n)
eq_to x id n h = ground arith

-- What a location holds once an entry got more capabilities.
is_held_at-add_at :
    (c : CapabilityCode) (n id : ℕ) (codes : List CapabilityCode) (entries : List LocationAccess)
    → is_held_at c n (add_at id codes entries)
      ≡ is_held_at c n entries || ((id == n) && includes c codes)
unfolding add_at
is_held_at-add_at c n id codes [] =
    or_false _ ∙ ap (λ b. (id == n) && b) (includes-add_all c [] codes)
is_held_at-add_at c n id codes (e ∷ es) = elim (Bool-cases (e.location_id == id)) [
  | inl same ↦
      rw (same, add_at)
        (ap (λ b. ((e.location_id == n) && b) || is_held_at c n es)
            (includes-add_all c e.capabilities codes)
          ∙ entry_grows (e.location_id == n) (includes c e.capabilities) (includes c codes)
              (is_held_at c n es)
          ∙ ap (λ b. is_held_at c n (e ∷ es) || (b && includes c codes))
              (eq_to e.location_id id n same))
  | inr other ↦
      rw (other, add_at)
        (ap (λ b. ((e.location_id == n) && includes c e.capabilities) || b)
            (is_held_at-add_at c n id codes es)
          ∙ sym
              (or_assoc ((e.location_id == n) && includes c e.capabilities) (is_held_at c n es) _))
]

-- A scope of some kind with some capabilities that grants one everywhere.
abbrev pub grants_all : CapabilityCode → ScopeKind → List CapabilityCode → Bool
grants_all c global codes = includes c codes
grants_all c (location id) codes = false

-- A scope that grants a capability at a location and nowhere else.
abbrev pub grants_at : CapabilityCode → ℕ → ScopeKind → List CapabilityCode → Bool
grants_at c n global codes = false
grants_at c n (location id) codes = (id == n) && includes c codes

abbrev pub grants_globally : CapabilityCode → AccessScope → Bool
grants_globally c scope = grants_all c scope.kind (scope_capabilities scope)

abbrev pub grants_locally : CapabilityCode → ℕ → AccessScope → Bool
grants_locally c n scope = grants_at c n scope.kind (scope_capabilities scope)

-- A scope that makes the resolution throw.
abbrev refuses : ScopeKind → List CapabilityCode → Bool
refuses global codes = false
refuses (location id) codes = (id == 0) || is_misplaced codes

abbrev pub is_refused : AccessScope → Bool
is_refused scope = refuses scope.kind (scope_capabilities scope)

-- What holds of a result if there is one.
abbrev pub IfSome : {A : Type 0} → (A → Type 0) → Option A → Type 0
IfSome P none = Unit
IfSome P (some a) = P a

IfSome-map :
    {A : Type 0} {P Q : A → Type 0} (o : Option A) → ((a : A) → P a → Q a) → IfSome P o → IfSome Q o
IfSome-map none f h = tt
IfSome-map (some a) f h = f a h

-- `b` holds what `a` holds and what is granted everywhere or at a location.
abbrev Extends : CapabilityCode → EffectiveAccess → Bool → (ℕ → Bool) → EffectiveAccess → Type 0
Extends c a everywhere at b =
    (includes c b.global_capabilities ≡ includes c a.global_capabilities || everywhere)
    × ((n : ℕ)
        → is_held_at c n b.location_capabilities ≡ is_held_at c n a.location_capabilities || at n)

add_scope_to-Extends :
    (c : CapabilityCode) (kind : ScopeKind) (scope : AccessScope) (a : EffectiveAccess)
    → IfSome
        (Extends c a
          (grants_all c kind (scope_capabilities scope))
          (λ n. grants_at c n kind (scope_capabilities scope)))
        (add_scope_to kind scope a)
unfolding add_scope_to
add_scope_to-Extends c global scope a = (
  includes-add_all c a.global_capabilities (scope_capabilities scope),
  λ n. sym (or_false (is_held_at c n a.location_capabilities)),
)
add_scope_to-Extends c (location id) scope a =
    elim (Bool-cases ((id == 0) || is_misplaced (scope_capabilities scope))) [
      | inl refused ↦ rw (refused, IfSome) tt
      | inr fine ↦
          rw (fine, IfSome)
            (
              sym (or_false (includes c a.global_capabilities)),
              λ n. is_held_at-add_at c n id (scope_capabilities scope) a.location_capabilities,
            )
    ]

add_scopes-Extends :
    (c : CapabilityCode) (scopes : List AccessScope) (a : EffectiveAccess)
    → IfSome
        (Extends c a (any (grants_globally c) scopes) (λ n. any (grants_locally c n) scopes))
        (add_scopes scopes a)
unfolding add_scopes
add_scopes-Extends c [] a = (
  sym (or_false (includes c a.global_capabilities)),
  λ n. sym (or_false (is_held_at c n a.location_capabilities)),
)
add_scopes-Extends c (scope ∷ rest) a = elim (Option-cases (add_scope_to scope.kind scope a)) [
  | inl refused ↦ rw (refused, IfSome) tt
  | inr (more, fine) ↦
      rw (fine, IfSome)
        (IfSome-map (add_scopes rest more)
          (λ b (g, l). (
            g
                ∙ ap (λ t. t || any (grants_globally c) rest) (first more fine).0
                ∙ or_assoc (includes c a.global_capabilities) (grants_globally c scope)
                    (any (grants_globally c) rest),
            λ n.
                l n
                ∙ ap (λ t. t || any (grants_locally c n) rest) ((first more fine).1 n)
                ∙ or_assoc (is_held_at c n a.location_capabilities) (grants_locally c n scope)
                    (any (grants_locally c n) rest),
          ))
          (add_scopes-Extends c rest more))
]
  where
    first :
        (more : EffectiveAccess)
        → add_scope_to scope.kind scope a ≡ some more
        → Extends c a (grants_globally c scope) (λ n. grants_locally c n scope) more
    first more e = rw e at (add_scope_to-Extends c scope.kind scope a)

-- The access that scopes resolve to, if the resolution returns, grants exactly what they grant. A
-- capability is held globally if and only if some global scope has it, by its preset or by name, so a
-- grant at a location never passes for a global one; and it is held at a location if and only if it
-- is held globally or a scope of that location has it.
pub resolve_effective_access-IsExact :
    (scopes : List AccessScope) (c : CapabilityCode)
    → IfSome
        (λ access.
          (has_capability access c ≡ any (grants_globally c) scopes)
          × ((n : ℕ)
              → has_capability_at_location access c n
                ≡ any (grants_globally c) scopes || any (grants_locally c n) scopes))
        (resolve_effective_access scopes)
unfolding resolve_effective_access has_capability has_capability_at_location
resolve_effective_access-IsExact scopes c =
    IfSome-map (add_scopes scopes no_access)
      (λ b (g, l). (
        g,
        λ n.
            ap (λ t. t || is_held_at c n b.location_capabilities) g
            ∙ ap (λ t. any (grants_globally c) scopes || t) (l n),
      ))
      (add_scopes-Extends c scopes no_access)

add_scope_to-fails :
    (kind : ScopeKind) (scope : AccessScope) (a : EffectiveAccess)
    → is_some (add_scope_to kind scope a) ≡ not (refuses kind (scope_capabilities scope))
unfolding add_scope_to
add_scope_to-fails global scope a = refl
add_scope_to-fails (location id) scope a =
    some_if ((id == 0) || is_misplaced (scope_capabilities scope)) (add_local id scope a)
  where
    some_if :
        (b : Bool) (x : EffectiveAccess)
        → is_some {A = EffectiveAccess} (if b then none else some x) ≡ not b
    some_if true x = refl
    some_if false x = refl

stays_false : (r b : Bool) → false ≡ not r → false ≡ not (r || b)
stays_false r b h = ground arith

passes_on : (r b : Bool) → true ≡ not r → not b ≡ not (r || b)
passes_on r b h = ground arith

add_scopes-fails :
    (scopes : List AccessScope) (a : EffectiveAccess)
    → is_some (add_scopes scopes a) ≡ not (any is_refused scopes)
unfolding add_scopes
add_scopes-fails [] a = refl
add_scopes-fails (scope ∷ rest) a = elim (Option-cases (add_scope_to scope.kind scope a)) [
  | inl refused ↦
      rw (refused, is_some)
        (stays_false (is_refused scope) (any is_refused rest)
          (rw (refused, is_some) at (add_scope_to-fails scope.kind scope a)))
  | inr (more, fine) ↦
      rw (fine, is_some)
        (add_scopes-fails rest more
          ∙ passes_on (is_refused scope) (any is_refused rest)
              (rw (fine, is_some) at (add_scope_to-fails scope.kind scope a)))
]

-- The resolution throws if and only if some scope has a location id that is not positive, or gives at
-- a location a capability that is only granted globally, as the administrator preset does.
pub resolve_effective_access-throws :
    (scopes : List AccessScope)
    → is_some (resolve_effective_access scopes) ≡ not (any is_refused scopes)
unfolding resolve_effective_access
resolve_effective_access-throws scopes = add_scopes-fails scopes no_access
