-- ===== src/Access/Validated.antt =====
-- About the access that a validated request (shared/auth/user-management.ts) resolves to
-- (shared/auth/access.ts).
pub mod Inputs
use barber_bookings.Common.{
  ℕ, Bool, true, false, not, ◌&&◌, ◌||◌, List, [], ◌∷◌, ◌++◌, Option, none, some, any, all, ◌≡◌,
  ◌≢◌, refl, ◌∙◌, arith, length, leb, ltb, ◌==◌, is_some, Bool-cases, inl, inr,
}
use barber_bookings.Access.Capabilities.{
  AccessPresetKey, CapabilityCode, administrator, can_grant_capability_at_location, professional,
}
use barber_bookings.Access.Scopes.{
  AccessScope, EffectiveAccess, ScopeKind, global, has_capability, has_capability_at_location,
  is_misplaced, location, preset_capabilities, resolve_effective_access, scope_capabilities,
}
use barber_bookings.Access.Grants.{
  IfSome, grants_all, grants_at, grants_globally, grants_locally, is_refused,
  resolve_effective_access-IsExact, resolve_effective_access-throws,
}
use barber_bookings.Access.Validation.{
  InputKind, ScopeInput, add_scope, base_scope_is_valid, canonical_access_replace_schema,
  canonical_access_scope_input_schema, canonical_access_scopes_schema, check_scopes, global_input,
  has_duplicate_context, replace_checked, is_elsewhere, is_administrator, kind_is_valid,
  location_input, parse_scopes, replace_is_valid, replace_location, scope_is_elsewhere,
  to_access_scope,
}
use barber_bookings.Access.Validated.Inputs.{false_of_not, to_access_scope-taken}

-- None of the scopes makes the resolution throw.
abbrev AreTaken : List AccessScope → Type 0
AreTaken scopes = any is_refused scopes ≡ false

or_false_of : (a b : Bool) → a ≡ false → b ≡ false → (a || b) ≡ false
or_false_of a b h k = ground arith

add_scope-taken :
    (a : Option AccessScope) (rest : Option (List AccessScope))
    → IfSome (λ s. is_refused s ≡ false) a
    → IfSome AreTaken rest
    → IfSome AreTaken (add_scope a rest)
add_scope-taken none rest h k = tt
add_scope-taken (some s) none h k = tt
add_scope-taken (some s) (some more) h k = or_false_of (is_refused s) (any is_refused more) h k

schema-taken :
    (scope : ScopeInput)
    → IfSome (λ s. is_refused s ≡ false) (canonical_access_scope_input_schema scope)
unfolding canonical_access_scope_input_schema
schema-taken scope = elim (Bool-cases (base_scope_is_valid scope)) [
  | inl t ↦ rw t (to_access_scope-taken scope t)
  | inr f ↦ rw f tt
]

parse_scopes-taken : (inputs : List ScopeInput) → IfSome AreTaken (parse_scopes inputs)
unfolding parse_scopes
parse_scopes-taken [] = refl
parse_scopes-taken (scope ∷ rest) =
    add_scope-taken (canonical_access_scope_input_schema scope) (parse_scopes rest)
      (schema-taken scope) (parse_scopes-taken rest)

check_scopes-IfSome :
    (P : List AccessScope → Type 0) (o : Option (List AccessScope))
    → IfSome P o
    → IfSome P (check_scopes o)
unfolding check_scopes
check_scopes-IfSome P none h = tt
check_scopes-IfSome P (some scopes) h =
    elim (Bool-cases (leb (length scopes) 100 && not (has_duplicate_context scopes))) [
      | inl t ↦ rw t h
      | inr f ↦ rw f tt
    ]

scopes_schema-taken :
    (inputs : List ScopeInput) → IfSome AreTaken (canonical_access_scopes_schema inputs)
unfolding canonical_access_scopes_schema
scopes_schema-taken inputs =
    check_scopes-IfSome AreTaken (parse_scopes inputs) (parse_scopes-taken inputs)

-- Scopes that the schema accepts always resolve to an access: `resolveEffectiveAccess` does not throw on
-- them, so no user can be stored with scopes that cannot be read back.
pub canonical_access_scopes_schema-IsResolved :
    (inputs : List ScopeInput) (scopes : List AccessScope)
    → canonical_access_scopes_schema inputs ≡ some scopes
    → is_some (resolve_effective_access scopes) ≡ true
canonical_access_scopes_schema-IsResolved inputs scopes e =
    let taken : any is_refused scopes ≡ false = rw e at (scopes_schema-taken inputs) in
    resolve_effective_access-throws scopes ∙ rw taken refl

-- Each scope is of the location.
abbrev AreAt : ℕ → List AccessScope → Type 0
AreAt id scopes = any (scope_is_elsewhere id) scopes ≡ false

replace-AreAt :
    (id : ℕ) (o : Option (List AccessScope))
    → IfSome (AreAt id) (replace_checked (replace_location (some id)) o)
unfolding replace_is_valid
replace-AreAt id none = tt
replace-AreAt id (some scopes) =
    elim (Bool-cases
      (ltb 0 id && leb (length scopes) 1 && not (any (scope_is_elsewhere id) scopes))) [
        | inl t ↦ rw t (false_of_not _ (last_part (ltb 0 id) (leb (length scopes) 1) _ t))
        | inr f ↦ rw f tt
      ]
  where
    last_part : (a b c : Bool) → (a && b && c) ≡ true → c ≡ true
    last_part a b c h = ground arith

elsewhere_cases : (a b : Bool) → (a || b) ≡ false → (a ≡ false) × (b ≡ false)
elsewhere_cases a b h = ground arith

kind_no_global :
    (c : CapabilityCode) (id : ℕ) (kind : ScopeKind) (codes : List CapabilityCode)
    → is_elsewhere id kind ≡ false
    → grants_all c kind codes ≡ false
kind_no_global c id global codes h = absurd (ground arith)
kind_no_global c id (location other) codes h = refl

kind_no_local :
    (c : CapabilityCode) (id n : ℕ) (kind : ScopeKind) (codes : List CapabilityCode)
    → n ≢ id
    → is_elsewhere id kind ≡ false
    → grants_at c n kind codes ≡ false
kind_no_local c id n global codes d h = refl
kind_no_local c id n (location other) codes d h =
    let same : other ≡ id = ground arith in
    let differs : (other == n) ≡ false = differ other id n same d in rw differs refl
  where
    differ : (a b m : ℕ) → a ≡ b → m ≢ b → (a == m) ≡ false
    differ a b m e d = ground arith

no_global :
    (c : CapabilityCode) (id : ℕ) (scopes : List AccessScope)
    → AreAt id scopes
    → any (grants_globally c) scopes ≡ false
no_global c id [] h = refl
no_global c id (s ∷ scopes) h =
    let (here, later) = elsewhere_cases (scope_is_elsewhere id s) _ h in
    or_false_of (grants_globally c s) _ (kind_no_global c id s.kind (scope_capabilities s) here)
      (no_global c id scopes later)

no_local :
    (c : CapabilityCode) (id n : ℕ) (scopes : List AccessScope)
    → n ≢ id
    → AreAt id scopes
    → any (grants_locally c n) scopes ≡ false
no_local c id n [] d h = refl
no_local c id n (s ∷ scopes) d h =
    let (here, later) = elsewhere_cases (scope_is_elsewhere id s) _ h in
    or_false_of (grants_locally c n s) _ (kind_no_local c id n s.kind (scope_capabilities s) d here)
      (no_local c id n scopes d later)

-- Replacing the access at one location grants nothing elsewhere: if the schema accepts the request, the
-- access that its scopes resolve to holds no capability globally, and none at any other location.
pub canonical_access_replace_schema-IsLocal :
    (id : ℕ) (inputs : List ScopeInput) (scopes : List AccessScope) (access : EffectiveAccess)
    (c : CapabilityCode) (n : ℕ)
    → canonical_access_replace_schema (replace_location (some id)) inputs ≡ some scopes
    → resolve_effective_access scopes ≡ some access
    → n ≢ id
    → (has_capability access c ≡ false) × (has_capability_at_location access c n ≡ false)
unfolding canonical_access_replace_schema
canonical_access_replace_schema-IsLocal id inputs scopes access c n e f d =
    let here : AreAt id scopes =
      rw e at (replace-AreAt id (canonical_access_scopes_schema inputs)) in
    let exact = rw f at (resolve_effective_access-IsExact scopes c) in
    let nowhere = no_global c id scopes here in
    (exact.0 ∙ nowhere, exact.1 n ∙ or_false_of _ _ nowhere (no_local c id n scopes d here))
