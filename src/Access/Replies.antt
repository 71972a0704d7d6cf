-- ===== src/Access/Replies.antt =====
-- What the guards of the routes (server/auth-authorization.ts) reply to a user with stored scopes.
use barber_bookings.Common.{
  ℕ, Bool, true, false, ◌&&◌, ◌||◌, List, [], ◌∷◌, Option, none, some, any, all, opt_eq, ◌≡◌, refl,
  if◌then◌else◌,
}
use barber_bookings.Access.Capabilities.{CapabilityCode}
use barber_bookings.Access.Scopes.{
  AccessScope, EffectiveAccess, has_capability, has_capability_at_location, has_own_capability,
  resolve_effective_access,
}
use barber_bookings.Access.Grants.{
  grants_globally, grants_locally, resolve_effective_access-IsExact,
}
use barber_bookings.Access.Middleware.{
  CanonicalAuthContext, OwnOrTeam, enforce, enforce_canonical_capability,
  enforce_canonical_own_or_team_capability, has_canonical_capability, has_canonical_own_capability,
  has_canonical_own_or_team_capability, next, reply, enforce_canonical_all_capabilities,
  require_all_global_capabilities, require_capability_at_location, status,
}

-- Some scope grants the capability globally or at the location.
abbrev pub is_granted_at : List AccessScope → ℕ → CapabilityCode → Bool
is_granted_at scopes id capability =
    any (grants_globally capability) scopes || any (grants_locally capability id) scopes

-- The context of a user whose scopes resolve to an access.
abbrev pub user : Option ℕ → EffectiveAccess → CanonicalAuthContext
user professional_id access = record { professional_id = professional_id; access = access }

held_at :
    (scopes : List AccessScope) (access : EffectiveAccess) (c : CapabilityCode) (id : ℕ)
    → resolve_effective_access scopes ≡ some access
    → has_capability_at_location access c id ≡ is_granted_at scopes id c
held_at scopes access c id e = (rw e at (resolve_effective_access-IsExact scopes c)).1 id

replied : (b : Bool) → reply (if b then none else some 403) ≡ (if b then next else status 403)
replied true = refl
replied false = refl

-- A route that needs a capability at a location goes on for a user if and only if one of the user's scopes
-- grants the capability, globally or at that location; to any other user it replies 403.
pub require_capability_at_location-IsExact :
    (scopes : List AccessScope) (access : EffectiveAccess) (professional_id : Option ℕ)
    (capability : CapabilityCode) (id : ℕ)
    → resolve_effective_access scopes ≡ some access
    → require_capability_at_location capability true (some id) (some (user professional_id access))
      ≡ (if is_granted_at scopes id capability then next else status 403)
unfolding require_capability_at_location enforce_canonical_capability enforce
    has_canonical_capability
require_capability_at_location-IsExact scopes access professional_id capability id e =
    rw (held_at scopes access capability id e) (replied (is_granted_at scopes id capability))

all_held :
    (scopes : List AccessScope) (access : EffectiveAccess) (cs : List CapabilityCode)
    → resolve_effective_access scopes ≡ some access
    → all (has_capability access) cs ≡ all (λ c. any (grants_globally c) scopes) cs
all_held scopes access [] e = refl
all_held scopes access (c ∷ cs) e =
    let held : has_capability access c ≡ any (grants_globally c) scopes =
      (rw e at (resolve_effective_access-IsExact scopes c)).0 in
    rw (held, all_held scopes access cs e) refl

-- A route that needs several global capabilities goes on for a user if and only if each of them is granted
-- by a global scope of the user; grants at locations do not count, and to any other user it replies 403.
pub require_all_global_capabilities-IsExact :
    (scopes : List AccessScope) (access : EffectiveAccess) (professional_id : Option ℕ)
    (capabilities : List CapabilityCode)
    → resolve_effective_access scopes ≡ some access
    → require_all_global_capabilities capabilities true (some (user professional_id access))
      ≡ (if all (λ c. any (grants_globally c) scopes) capabilities then next else status 403)
unfolding require_all_global_capabilities enforce_canonical_all_capabilities enforce
    has_canonical_capability
require_all_global_capabilities-IsExact scopes access professional_id capabilities e =
    rw (all_held scopes access capabilities e)
      (replied (all (λ c. any (grants_globally c) scopes) capabilities))

-- A guard on the own or the team's records lets a user through if and only if a scope grants the team's
-- capability globally or at the location of the record, or the record is the user's own and a scope
-- grants the own capability so; any other user gets 403.
pub enforce_canonical_own_or_team_capability-IsExact :
    (scopes : List AccessScope) (access : EffectiveAccess) (professional_id : Option ℕ)
    (options : OwnOrTeam)
    → resolve_effective_access scopes ≡ some access
    → enforce_canonical_own_or_team_capability true (some (user professional_id access)) options ≡ (
        if is_granted_at scopes options.location_id options.team_capability
          || (opt_eq professional_id (some options.owner_professional_id)
              && is_granted_at scopes options.location_id options.own_capability)
        then none
        else some 403)
unfolding enforce_canonical_own_or_team_capability enforce has_canonical_own_or_team_capability
    has_canonical_own_capability has_own_capability
enforce_canonical_own_or_team_capability-IsExact scopes access professional_id options e =
    rw
      (
        held_at scopes access options.team_capability options.location_id e,
        held_at scopes access options.own_capability options.location_id e,
      )
      refl
