-- ===== src/Access/Middleware.antt =====
-- The middleware that guards the routes (server/auth-authorization.ts). The context is what the `WeakMap`
-- keeps for the request, `none` if it has none; of it only the fields that are read here. A location id
-- that is no positive integer is `none`. The legacy middleware is code of the routes, and its reply is
-- one that is not computed here.
use barber_bookings.Common.{
  ℕ, Bool, true, false, not, ◌&&◌, ◌||◌, List, [], ◌∷◌, Option, none, some, any, all, map, filter,
  opt_eq, ◌==◌, if◌then◌else◌,
}
use barber_bookings.Access.Capabilities.{CapabilityCode}
use barber_bookings.Access.Scopes.{
  EffectiveAccess, LocationAccess, has_capability, has_capability_at_location, has_own_capability,
}

pub record CanonicalAuthContext : Type 0 where
  pub professional_id : Option ℕ
  pub access : EffectiveAccess

pub record OwnOrTeam : Type 0 where
  pub own_capability : CapabilityCode
  pub team_capability : CapabilityCode
  pub owner_professional_id : ℕ
  pub location_id : ℕ

pub data Reply : Type 0 where
  next : Reply
  status : ℕ → Reply
  legacy : Reply

abbrev pub is_empty : List CapabilityCode → Bool
is_empty [] = true
is_empty (c ∷ cs) = false

abbrev gives_at : ℕ → LocationAccess → Bool
gives_at id entry = (entry.location_id == id) && not (is_empty entry.capabilities)

unfoldable pub has_any_canonical_access_at_location : CanonicalAuthContext → ℕ → Bool
has_any_canonical_access_at_location context id =
    not (is_empty context.access.global_capabilities)
    || any (gives_at id) context.access.location_capabilities

abbrev gives_some : LocationAccess → Bool
gives_some entry = not (is_empty entry.capabilities)

abbrev entry_location : LocationAccess → ℕ
entry_location entry = entry.location_id

-- `none` stands for null, every location.
unfoldable pub get_canonical_accessible_location_ids : CanonicalAuthContext → Option (List ℕ)
get_canonical_accessible_location_ids context =
    if not (is_empty context.access.global_capabilities)
    then none
    else some (map entry_location (filter gives_some context.access.location_capabilities))

unfoldable pub has_canonical_capability : CanonicalAuthContext → Option ℕ → CapabilityCode → Bool
has_canonical_capability context none capability = has_capability context.access capability
has_canonical_capability context (some id) capability =
    has_capability_at_location context.access capability id

unfoldable pub has_canonical_own_capability : CanonicalAuthContext → CapabilityCode → ℕ → ℕ → Bool
has_canonical_own_capability context capability owner id =
    opt_eq context.professional_id (some owner)
    && has_own_capability context.access capability (some id)

unfoldable pub has_canonical_own_or_team_capability : CanonicalAuthContext → OwnOrTeam → Bool
unfolding has_canonical_own_capability
has_canonical_own_or_team_capability context options =
    has_capability_at_location context.access options.team_capability options.location_id
    || has_canonical_own_capability context options.own_capability options.owner_professional_id
        options.location_id

unfoldable pub has_canonical_any_own_or_team_capability :
    CanonicalAuthContext → List OwnOrTeam → Bool
unfolding has_canonical_own_or_team_capability
has_canonical_any_own_or_team_capability context options =
    any (has_canonical_own_or_team_capability context) options

-- The common course of the five `enforce…` functions: `none` stands for their `true`, and a status for
-- the reply that comes with their `false`.
unfoldable pub enforce :
    Bool → Option CanonicalAuthContext → (CanonicalAuthContext → Bool) → Option ℕ
enforce canonical context test =
    if not canonical
    then none
    else elim context [ none ↦ some 401 | some c ↦ if test c then none else some 403 ]

unfoldable pub enforce_canonical_capability :
    Bool → Option CanonicalAuthContext → CapabilityCode → Option ℕ → Option ℕ
unfolding enforce has_canonical_capability
enforce_canonical_capability canonical context capability id =
    enforce canonical context (λ c. has_canonical_capability c id capability)

unfoldable pub enforce_canonical_any_capability :
    Bool → Option CanonicalAuthContext → List CapabilityCode → Option ℕ → Option ℕ
unfolding enforce has_canonical_capability
enforce_canonical_any_capability canonical context capabilities id =
    enforce canonical context (λ c. any (has_canonical_capability c id) capabilities)

unfoldable pub enforce_canonical_all_capabilities :
    Bool → Option CanonicalAuthContext → List CapabilityCode → Option ℕ → Option ℕ
unfolding enforce has_canonical_capability
enforce_canonical_all_capabilities canonical context capabilities id =
    enforce canonical context (λ c. all (has_canonical_capability c id) capabilities)

unfoldable pub enforce_canonical_own_or_team_capability :
    Bool → Option CanonicalAuthContext → OwnOrTeam → Option ℕ
unfolding enforce has_canonical_own_or_team_capability
enforce_canonical_own_or_team_capability canonical context options =
    enforce canonical context (λ c. has_canonical_own_or_team_capability c options)

unfoldable pub enforce_canonical_any_own_or_team_capability :
    Bool → Option CanonicalAuthContext → List OwnOrTeam → Option ℕ
unfolding enforce has_canonical_any_own_or_team_capability
enforce_canonical_any_own_or_team_capability canonical context options =
    enforce canonical context (λ c. has_canonical_any_own_or_team_capability c options)

abbrev pub reply : Option ℕ → Reply
reply none = next
reply (some code) = status code

unfoldable pub require_capability_at_location :
    CapabilityCode → Bool → Option ℕ → Option CanonicalAuthContext → Reply
unfolding enforce_canonical_capability
require_capability_at_location capability false location_id context = legacy
require_capability_at_location capability true none context = status 400
require_capability_at_location capability true (some id) context =
    reply (enforce_canonical_capability true context capability (some id))

unfoldable pub require_any_capability_at_location :
    List CapabilityCode → Bool → Option ℕ → Option CanonicalAuthContext → Reply
unfolding enforce_canonical_any_capability
require_any_capability_at_location capabilities false location_id context = legacy
require_any_capability_at_location capabilities true none context = status 400
require_any_capability_at_location capabilities true (some id) context =
    reply (enforce_canonical_any_capability true context capabilities (some id))

unfoldable pub require_global_capability :
    CapabilityCode → Bool → Option CanonicalAuthContext → Reply
unfolding enforce_canonical_capability
require_global_capability capability false context = legacy
require_global_capability capability true context =
    reply (enforce_canonical_capability true context capability none)

unfoldable pub require_all_global_capabilities :
    List CapabilityCode → Bool → Option CanonicalAuthContext → Reply
unfolding enforce_canonical_all_capabilities
require_all_global_capabilities capabilities false context = legacy
require_all_global_capabilities capabilities true context =
    reply (enforce_canonical_all_capabilities true context capabilities none)
