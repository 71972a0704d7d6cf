-- ===== src/Examples/Access.antt =====
-- Access at concrete scopes (shared/auth/access.ts).
use barber_bookings.Common.{
  ℕ, true, false, not, ◌&&◌, ◌||◌, List, [], ◌∷◌, none, some, any, ◌≡◌, refl, arith, opt_eq,
  is_some, if◌then◌else◌,
}
use barber_bookings.Access.Capabilities.{
  administrator, code_eq, finance_view_own, finance_view_team, professional,
}
use barber_bookings.Access.Scopes.{
  AccessScope, EffectiveAccess, add_all, add_at, add_scope_to, add_scopes, global, has_capability,
  has_capability_at_location, location, resolve_effective_access,
}
use barber_bookings.Access.Grants.{
  IfSome, grants_globally, grants_locally, is_refused, resolve_effective_access-IsExact,
  resolve_effective_access-throws,
}
use barber_bookings.Access.Validation.{
  ScopeInput, base_scope_is_valid, canonical_access_replace_schema,
  canonical_access_scope_input_schema, canonical_access_scopes_schema, check_scopes,
  has_duplicate_context, has_repeats, kind_is_valid, location_input, parse_scopes, replace_is_valid,
  to_access_scope,
}
use barber_bookings.Access.Validated.{
  canonical_access_replace_schema-IsLocal, canonical_access_scopes_schema-IsResolved,
}
use barber_bookings.Access.Middleware.{
  OwnOrTeam, enforce_canonical_own_or_team_capability, next, require_capability_at_location, status,
}
use barber_bookings.Access.Replies.{
  enforce_canonical_own_or_team_capability-IsExact, is_granted_at,
  require_capability_at_location-IsExact, user,
}

-- A professional everywhere who sees the finances of the team at location 2.
abbrev scopes : List AccessScope
scopes =
    record { kind = global; preset = some professional; capabilities = [] }
    ∷ record { kind = location 2; preset = none; capabilities = finance_view_team ∷ [] }
    ∷ []

-- An administrator at one location, which there is not.
abbrev local_administrator : List AccessScope
local_administrator =
    record { kind = location 2; preset = some administrator; capabilities = [] } ∷ []

resolve_effective_access-IsExact_example :
    IfSome
      (λ access.
        (has_capability access finance_view_team ≡ any (grants_globally finance_view_team) scopes)
        × ((n : ℕ)
            → has_capability_at_location access finance_view_team n
              ≡ any (grants_globally finance_view_team) scopes
                || any (grants_locally finance_view_team n) scopes))
      (resolve_effective_access scopes)
resolve_effective_access-IsExact_example = resolve_effective_access-IsExact scopes finance_view_team

resolve_effective_access-throws_example :
    is_some (resolve_effective_access local_administrator)
    ≡ not (any is_refused local_administrator)
resolve_effective_access-throws_example = resolve_effective_access-throws local_administrator

-- One scope at location 2, as a request and as it is stored.
abbrev at_two : ScopeInput
at_two = record {
  kind = location_input;
  location_id = some 2;
  preset = none;
  capabilities = finance_view_team ∷ [];
}

abbrev stored : List AccessScope
stored = record { kind = location 2; preset = none; capabilities = finance_view_team ∷ [] } ∷ []

abbrev stored_access : EffectiveAccess
stored_access = record {
  global_capabilities = [];
  location_capabilities = record { location_id = 2; capabilities = finance_view_team ∷ [] } ∷ [];
  presets = [];
}

stored_resolves : resolve_effective_access stored ≡ some stored_access
unfolding resolve_effective_access add_scopes add_scope_to add_at add_all code_eq
stored_resolves = refl

canonical_access_scopes_schema-IsResolved_example : is_some (resolve_effective_access stored) ≡ true
unfolding canonical_access_scopes_schema parse_scopes check_scopes has_duplicate_context
    canonical_access_scope_input_schema base_scope_is_valid kind_is_valid has_repeats
    to_access_scope code_eq
canonical_access_scopes_schema-IsResolved_example =
    canonical_access_scopes_schema-IsResolved (at_two ∷ []) stored refl

canonical_access_replace_schema-IsLocal_example :
    (has_capability stored_access finance_view_team ≡ false)
    × (has_capability_at_location stored_access finance_view_team 3 ≡ false)
unfolding canonical_access_replace_schema replace_is_valid canonical_access_scopes_schema
    parse_scopes check_scopes has_duplicate_context canonical_access_scope_input_schema
    base_scope_is_valid kind_is_valid has_repeats to_access_scope code_eq
canonical_access_replace_schema-IsLocal_example =
    canonical_access_replace_schema-IsLocal 2 (at_two ∷ []) stored stored_access finance_view_team 3
      refl stored_resolves (λ e. omega (arith, e))

require_capability_at_location-IsExact_example :
    require_capability_at_location finance_view_team true (some 2) (some (user none stored_access))
    ≡ (if is_granted_at stored 2 finance_view_team then next else status 403)
require_capability_at_location-IsExact_example =
    require_capability_at_location-IsExact stored stored_access none finance_view_team 2
      stored_resolves

-- The finances of professional 9.
abbrev finances : OwnOrTeam
finances = record {
  own_capability = finance_view_own;
  team_capability = finance_view_team;
  owner_professional_id = 9;
  location_id = 2;
}

enforce_canonical_own_or_team_capability-IsExact_example :
    enforce_canonical_own_or_team_capability true (some (user (some 7) stored_access)) finances ≡ (
      if is_granted_at stored 2 finance_view_team
        || (opt_eq (some 7) (some 9) && is_granted_at stored 2 finance_view_own)
      then none
      else some 403)
enforce_canonical_own_or_team_capability-IsExact_example =
    enforce_canonical_own_or_team_capability-IsExact stored stored_access (some 7) finances
      stored_resolves
