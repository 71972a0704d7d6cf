-- ===== src/Access/Validated/Inputs.antt =====
-- One scope of a request (shared/auth/user-management.ts) and the resolution of its access.
use barber_bookings.Common.{
  ℕ, Bool, true, false, not, ◌&&◌, ◌||◌, List, [], ◌∷◌, ◌++◌, Option, none, some, all, ◌≡◌, refl,
  arith, ltb, ◌==◌,
}
use barber_bookings.Access.Capabilities.{
  AccessPresetKey, CapabilityCode, administrator, can_grant_capability_at_location, professional,
}
use barber_bookings.Access.Scopes.{is_misplaced, preset_capabilities}
use barber_bookings.Access.Grants.{is_refused}
use barber_bookings.Access.Validation.{
  InputKind, ScopeInput, base_scope_is_valid, global_input, is_administrator, kind_is_valid,
  location_input, to_access_scope,
}

misplaced-append :
    (xs ys : List CapabilityCode)
    → is_misplaced xs ≡ false
    → is_misplaced ys ≡ false
    → is_misplaced (xs ++ ys) ≡ false
misplaced-append [] ys h k = k
misplaced-append (x ∷ xs) ys h k = ground (arith, misplaced-append xs ys)

grantable :
    (cs : List CapabilityCode)
    → all can_grant_capability_at_location cs ≡ true
    → is_misplaced cs ≡ false
grantable [] h = refl
grantable (c ∷ cs) h = ground (arith, grantable cs)

-- A preset but for the administrator's can be given at a location.
preset_grantable :
    (preset : Option AccessPresetKey)
    → is_administrator preset ≡ false
    → is_misplaced (preset_capabilities preset) ≡ false
preset_grantable none h = refl
preset_grantable (some administrator) h = absurd (ground arith)
preset_grantable (some professional) h = refl

pub false_of_not : (b : Bool) → not b ≡ true → b ≡ false
false_of_not b h = ground arith

and_parts : (a b c d : Bool) → (a && b && c && d) ≡ true → (a ≡ true) × (b ≡ true)
and_parts a b c d h = ground arith

and_three : (a b c : Bool) → (a && b && c) ≡ true → (b ≡ true) × (c ≡ true)
and_three a b c h = ground arith

positive_refuses : (n : ℕ) (m : Bool) → ltb 0 n ≡ true → m ≡ false → ((n == 0) || m) ≡ false
positive_refuses n m h k = ground arith

input : InputKind → Option ℕ → Option AccessPresetKey → List CapabilityCode → ScopeInput
input kind id preset codes = record {
  kind = kind;
  location_id = id;
  preset = preset;
  capabilities = codes;
}

input-taken :
    (kind : InputKind) (id : Option ℕ) (preset : Option AccessPresetKey)
    (codes : List CapabilityCode)
    → base_scope_is_valid (input kind id preset codes) ≡ true
    → is_refused (to_access_scope (input kind id preset codes)) ≡ false
unfolding base_scope_is_valid to_access_scope kind_is_valid input
input-taken global_input id preset codes h = refl
input-taken location_input none preset codes h = absurd (ground arith)
input-taken location_input (some id) preset codes h =
    let (positive, kind_fits) = and_parts _ _ _ _ h in
    let (no_administrator, local) = and_three true _ _ kind_fits in
    positive_refuses id _ positive (
      misplaced-append (preset_capabilities preset) codes
        (preset_grantable preset (false_of_not _ no_administrator)) (grantable codes local))

-- A scope that was checked is one that the resolution takes.
pub to_access_scope-taken :
    (scope : ScopeInput)
    → base_scope_is_valid scope ≡ true
    → is_refused (to_access_scope scope) ≡ false
unfolding input
to_access_scope-taken scope h =
    input-taken scope.kind scope.location_id scope.preset scope.capabilities h
