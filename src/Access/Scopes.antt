-- ===== src/Access/Scopes.antt =====
-- Scopes of access and what they come to (shared/auth/access.ts, shared/auth/types.ts). A location id
-- that is no integer, or below 1, is refused like 0; labels of presets, which are text for display,
-- are the presets.
use barber_bookings.Common.{
  ℕ, Bool, true, false, not, ◌&&◌, ◌||◌, List, [], ◌∷◌, ◌++◌, Option, none, some, any, ◌==◌,
  if◌then◌else◌,
}
use barber_bookings.Access.Capabilities.{
  AccessPresetKey, CapabilityCode, can_grant_capability_at_location, includes,
  resolve_preset_capabilities,
}

pub data ScopeKind : Type 0 where
  global : ScopeKind
  location : ℕ → ScopeKind

pub record AccessScope : Type 0 where
  pub kind : ScopeKind
  pub preset : Option AccessPresetKey
  pub capabilities : List CapabilityCode

pub record LocationAccess : Type 0 where
  pub location_id : ℕ
  pub capabilities : List CapabilityCode

pub record EffectiveAccess : Type 0 where
  pub global_capabilities : List CapabilityCode
  pub location_capabilities : List LocationAccess
  pub presets : List AccessPresetKey

abbrev pub preset_capabilities : Option AccessPresetKey → List CapabilityCode
preset_capabilities none = []
preset_capabilities (some preset) = resolve_preset_capabilities preset

-- The capabilities of a scope: those of its preset, then those that it names.
abbrev pub scope_capabilities : AccessScope → List CapabilityCode
scope_capabilities scope = preset_capabilities scope.preset ++ scope.capabilities

-- `target.add(capability)` for each.
unfoldable pub add_all : List CapabilityCode → List CapabilityCode → List CapabilityCode
add_all target [] = target
add_all target (c ∷ cs) = add_all (if includes c target then target else target ++ c ∷ []) cs

-- The entry of a location, made if it has none, with more capabilities.
unfoldable pub add_at : ℕ → List CapabilityCode → List LocationAccess → List LocationAccess
add_at id codes [] = record { location_id = id; capabilities = add_all [] codes } ∷ []
add_at id codes (entry ∷ rest) =
    if entry.location_id == id
    then record entry { capabilities = add_all entry.capabilities codes } ∷ rest
    else entry ∷ add_at id codes rest

abbrev preset_eq : AccessPresetKey → AccessPresetKey → Bool
preset_eq AccessPresetKey.administrator AccessPresetKey.administrator = true
preset_eq AccessPresetKey.professional AccessPresetKey.professional = true
preset_eq _ _ = false

abbrev pub add_preset : Option AccessPresetKey → List AccessPresetKey → List AccessPresetKey
add_preset none presets = presets
add_preset (some preset) presets =
    if any (preset_eq preset) presets then presets else presets ++ preset ∷ []

-- A local grant of a capability that is only granted globally.
abbrev pub is_misplaced : List CapabilityCode → Bool
is_misplaced codes = any (λ c. not (can_grant_capability_at_location c)) codes

abbrev pub add_global : AccessScope → EffectiveAccess → EffectiveAccess
add_global scope access = record {
  global_capabilities = add_all access.global_capabilities (scope_capabilities scope);
  location_capabilities = access.location_capabilities;
  presets = add_preset scope.preset access.presets;
}

abbrev pub add_local : ℕ → AccessScope → EffectiveAccess → EffectiveAccess
add_local id scope access = record {
  global_capabilities = access.global_capabilities;
  location_capabilities = add_at id (scope_capabilities scope) access.location_capabilities;
  presets = add_preset scope.preset access.presets;
}

-- One round of the loop; `none` stands for the error that it throws.
unfoldable pub add_scope_to : ScopeKind → AccessScope → EffectiveAccess → Option EffectiveAccess
add_scope_to global scope access = some (add_global scope access)
add_scope_to (location id) scope access =
    if (id == 0) || is_misplaced (scope_capabilities scope)
    then none
    else some (add_local id scope access)

unfoldable pub add_scopes : List AccessScope → EffectiveAccess → Option EffectiveAccess
add_scopes [] access = some access
add_scopes (scope ∷ rest) access = elim (add_scope_to scope.kind scope access) [
  | none ↦ none
  | some more ↦ add_scopes rest more
]

abbrev pub no_access : EffectiveAccess
no_access = record { global_capabilities = []; location_capabilities = []; presets = [] }

unfoldable pub resolve_effective_access : List AccessScope → Option EffectiveAccess
resolve_effective_access scopes = add_scopes scopes no_access

unfoldable pub has_capability : EffectiveAccess → CapabilityCode → Bool
has_capability access code = includes code access.global_capabilities

abbrev pub is_held_at : CapabilityCode → ℕ → List LocationAccess → Bool
is_held_at code id entries =
    any (λ e. (e.location_id == id) && includes code e.capabilities) entries

unfoldable pub has_capability_at_location : EffectiveAccess → CapabilityCode → ℕ → Bool
has_capability_at_location access code id =
    has_capability access code || is_held_at code id access.location_capabilities

-- The type of own capabilities is a part of the codes; any code is taken here.
unfoldable pub has_own_capability : EffectiveAccess → CapabilityCode → Option ℕ → Bool
has_own_capability access code none = has_capability access code
has_own_capability access code (some id) = has_capability_at_location access code id
