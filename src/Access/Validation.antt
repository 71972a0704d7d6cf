-- ===== src/Access/Validation.antt =====
-- The requests on the access of a user (shared/auth/user-management.ts). Codes and presets are read
-- already, since a text that is none is refused before; a location id that is no positive integer is
-- 0. `none` is the result of a schema that reports an issue.
use barber_bookings.Common.{
  ℕ, Bool, true, false, not, ◌&&◌, ◌||◌, List, [], ◌∷◌, Option, none, some, any, all, length, leb,
  ltb, ◌==◌, is_some, if◌then◌else◌,
}
use barber_bookings.Access.Capabilities.{
  AccessPresetKey, CapabilityCode, administrator, can_grant_capability_at_location, includes,
  professional,
}
use barber_bookings.Access.Scopes.{AccessScope, ScopeKind, global, location}

pub data InputKind : Type 0 where
  global_input location_input : InputKind

pub record ScopeInput : Type 0 where
  pub kind : InputKind
  pub location_id : Option ℕ
  pub preset : Option AccessPresetKey
  pub capabilities : List CapabilityCode

-- `new Set(capabilities).size !== capabilities.length`
unfoldable pub has_repeats : List CapabilityCode → Bool
has_repeats [] = false
has_repeats (c ∷ cs) = includes c cs || has_repeats cs

abbrev pub is_administrator : Option AccessPresetKey → Bool
is_administrator none = false
is_administrator (some administrator) = true
is_administrator (some professional) = false

abbrev is_positive : Option ℕ → Bool
is_positive none = true
is_positive (some id) = ltb 0 id

abbrev is_empty : List CapabilityCode → Bool
is_empty [] = true
is_empty (c ∷ cs) = false

-- The parts of the check that depend on the kind.
unfoldable pub kind_is_valid : InputKind → ScopeInput → Bool
kind_is_valid global_input scope = not (is_some scope.location_id)
kind_is_valid location_input scope =
    is_some scope.location_id
    && not (is_administrator scope.preset)
    && all can_grant_capability_at_location scope.capabilities

unfoldable pub base_scope_is_valid : ScopeInput → Bool
unfolding kind_is_valid has_repeats
base_scope_is_valid scope =
    is_positive scope.location_id
    && kind_is_valid scope.kind scope
    && not (not (is_some scope.preset) && is_empty scope.capabilities)
    && not (has_repeats scope.capabilities)

-- `locationId!` of a location scope that was checked.
abbrev kind_of : InputKind → Option ℕ → ScopeKind
kind_of global_input id = global
kind_of location_input none = location 0
kind_of location_input (some id) = location id

unfoldable pub to_access_scope : ScopeInput → AccessScope
to_access_scope scope = record {
  kind = kind_of scope.kind scope.location_id;
  preset = scope.preset;
  capabilities = scope.capabilities;
}

unfoldable pub canonical_access_scope_input_schema : ScopeInput → Option AccessScope
unfolding base_scope_is_valid to_access_scope
canonical_access_scope_input_schema scope =
    if base_scope_is_valid scope then some (to_access_scope scope) else none

abbrev pub add_scope : Option AccessScope → Option (List AccessScope) → Option (List AccessScope)
add_scope none rest = none
add_scope (some scope) none = none
add_scope (some scope) (some rest) = some (scope ∷ rest)

-- Each item of the array.
unfoldable pub parse_scopes : List ScopeInput → Option (List AccessScope)
unfolding canonical_access_scope_input_schema
parse_scopes [] = some []
parse_scopes (scope ∷ rest) =
    add_scope (canonical_access_scope_input_schema scope) (parse_scopes rest)

-- Equal keys: both global, or of one location.
abbrev pub same_context : ScopeKind → ScopeKind → Bool
same_context global global = true
same_context global (location id) = false
same_context (location id) global = false
same_context (location id) (location other) = id == other

abbrev has_context : ScopeKind → AccessScope → Bool
has_context kind scope = same_context kind scope.kind

unfoldable pub has_duplicate_context : List AccessScope → Bool
has_duplicate_context [] = false
has_duplicate_context (scope ∷ rest) =
    any (has_context scope.kind) rest || has_duplicate_context rest

unfoldable pub check_scopes : Option (List AccessScope) → Option (List AccessScope)
unfolding has_duplicate_context
check_scopes none = none
check_scopes (some scopes) =
    if leb (length scopes) 100 && not (has_duplicate_context scopes) then some scopes else none

unfoldable pub canonical_access_scopes_schema : List ScopeInput → Option (List AccessScope)
unfolding parse_scopes check_scopes
canonical_access_scopes_schema inputs = check_scopes (parse_scopes inputs)

-- `mode`, with the location id that it came with.
pub data ReplaceMode : Type 0 where
  replace_all : Option ℕ → ReplaceMode
  replace_location : Option ℕ → ReplaceMode

abbrev pub is_elsewhere : ℕ → ScopeKind → Bool
is_elsewhere id global = true
is_elsewhere id (location other) = not (other == id)

abbrev pub scope_is_elsewhere : ℕ → AccessScope → Bool
scope_is_elsewhere id scope = is_elsewhere id scope.kind

unfoldable pub replace_is_valid : ReplaceMode → List AccessScope → Bool
replace_is_valid (replace_all id) scopes = not (is_some id)
replace_is_valid (replace_location none) scopes = false
replace_is_valid (replace_location (some id)) scopes =
    ltb 0 id && leb (length scopes) 1 && not (any (scope_is_elsewhere id) scopes)

abbrev pub replace_checked : ReplaceMode → Option (List AccessScope) → Option (List AccessScope)
replace_checked mode none = none
replace_checked mode (some scopes) = if replace_is_valid mode scopes then some scopes else none

unfoldable pub canonical_access_replace_schema :
    ReplaceMode → List ScopeInput → Option (List AccessScope)
unfolding canonical_access_scopes_schema replace_is_valid
canonical_access_replace_schema mode inputs =
    replace_checked mode (canonical_access_scopes_schema inputs)
