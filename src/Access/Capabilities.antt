-- ===== src/Access/Capabilities.antt =====
-- The capabilities and presets (shared/auth/capabilities.ts, shared/auth/presets.ts). A code's dot is
-- an underscore here.
use barber_bookings.Common.{ℕ, Bool, true, false, ◌||◌, List, [], ◌∷◌, ◌==◌}

pub data CapabilityCode : Type 0 where
  agenda_view_own agenda_view_team appointments_create_manual appointments_block_time :
      CapabilityCode
  appointments_manage_own appointments_manage_team appointments_change_status_own : CapabilityCode
  appointments_change_status_team customers_view_own customers_view_team customers_notes_own :
      CapabilityCode
  customers_notes_team customers_block team_view team_manage_global team_assign_location :
      CapabilityCode
  catalog_view catalog_manage_global catalog_manage_location hours_manage_own : CapabilityCode
  hours_manage_team hours_manage_establishment extras_manage finance_view_own : CapabilityCode
  finance_view_team finance_manage_expenses finance_manage_compensation reports_export_own :
      CapabilityCode
  reports_export_team locations_manage users_manage access_manage settings_manage audit_view :
      CapabilityCode
  system_diagnostics : CapabilityCode

-- `locationGrantAllowed`
abbrev pub can_grant_capability_at_location : CapabilityCode → Bool
can_grant_capability_at_location team_manage_global = false
can_grant_capability_at_location catalog_manage_global = false
can_grant_capability_at_location locations_manage = false
can_grant_capability_at_location users_manage = false
can_grant_capability_at_location settings_manage = false
can_grant_capability_at_location system_diagnostics = false
can_grant_capability_at_location _ = true

abbrev pub capability_codes : List CapabilityCode
capability_codes =
    agenda_view_own ∷ agenda_view_team ∷ appointments_create_manual ∷ appointments_block_time
    ∷ appointments_manage_own ∷ appointments_manage_team ∷ appointments_change_status_own
    ∷ appointments_change_status_team ∷ customers_view_own ∷ customers_view_team
    ∷ customers_notes_own ∷ customers_notes_team ∷ customers_block ∷ team_view ∷ team_manage_global
    ∷ team_assign_location ∷ catalog_view ∷ catalog_manage_global ∷ catalog_manage_location
    ∷ hours_manage_own ∷ hours_manage_team ∷ hours_manage_establishment ∷ extras_manage
    ∷ finance_view_own ∷ finance_view_team ∷ finance_manage_expenses ∷ finance_manage_compensation
    ∷ reports_export_own ∷ reports_export_team ∷ locations_manage ∷ users_manage ∷ access_manage
    ∷ settings_manage ∷ audit_view ∷ system_diagnostics ∷ []

-- The position of a code in the registry.
abbrev pub code_rank : CapabilityCode → ℕ
code_rank agenda_view_own = 0
code_rank agenda_view_team = 1
code_rank appointments_create_manual = 2
code_rank appointments_block_time = 3
code_rank appointments_manage_own = 4
code_rank appointments_manage_team = 5
code_rank appointments_change_status_own = 6
code_rank appointments_change_status_team = 7
code_rank customers_view_own = 8
code_rank customers_view_team = 9
code_rank customers_notes_own = 10
code_rank customers_notes_team = 11
code_rank customers_block = 12
code_rank team_view = 13
code_rank team_manage_global = 14
code_rank team_assign_location = 15
code_rank catalog_view = 16
code_rank catalog_manage_global = 17
code_rank catalog_manage_location = 18
code_rank hours_manage_own = 19
code_rank hours_manage_team = 20
code_rank hours_manage_establishment = 21
code_rank extras_manage = 22
code_rank finance_view_own = 23
code_rank finance_view_team = 24
code_rank finance_manage_expenses = 25
code_rank finance_manage_compensation = 26
code_rank reports_export_own = 27
code_rank reports_export_team = 28
code_rank locations_manage = 29
code_rank users_manage = 30
code_rank access_manage = 31
code_rank settings_manage = 32
code_rank audit_view = 33
code_rank system_diagnostics = 34

-- `===` on codes.
unfoldable pub code_eq : CapabilityCode → CapabilityCode → Bool
code_eq c d = code_rank c == code_rank d

-- `codes.includes(code)`
abbrev pub includes : CapabilityCode → List CapabilityCode → Bool
includes code [] = false
includes code (c ∷ cs) = code_eq c code || includes code cs

pub data AccessPresetKey : Type 0 where
  administrator professional : AccessPresetKey

abbrev pub professional_capability_codes : List CapabilityCode
professional_capability_codes =
    agenda_view_own ∷ agenda_view_team ∷ appointments_create_manual ∷ appointments_manage_own
    ∷ appointments_change_status_own ∷ customers_view_own ∷ customers_notes_own ∷ catalog_view
    ∷ finance_view_own ∷ reports_export_own ∷ []

abbrev pub resolve_preset_capabilities : AccessPresetKey → List CapabilityCode
resolve_preset_capabilities administrator = capability_codes
resolve_preset_capabilities professional = professional_capability_codes
