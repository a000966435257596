-- ===== src/Lead/Update.antt =====
-- `updateLead` of apps/api/src/repository.ts: a change under the version that the client has seen.
use cylizerapp.Base.{
  ℕ, ◌+◌, String, Bool, true, false, not, ◌&&◌, Option, none, some, List, [], ◌∷◌, ◌==◌, str_eq,
  is_some, or_default, if◌then◌else◌,
}
use cylizerapp.Base.Text.{truthy, concat}
use cylizerapp.Base.Dict.{Dict, get, set}
use cylizerapp.Base.Outcome.{Outcome, done, run_if, conflict, require, throw_if, ◌>>=◌, ◌>>◌}
use cylizerapp.Contracts.Organizations.{IsoDateTime}
use cylizerapp.Contracts.Leads.{Lead, LeadStatus, LeadTemperature, LeadActivityKind, JsonValue}
use cylizerapp.Domain.{LeadAccessScope}
use cylizerapp.Repository.{Repository}
use cylizerapp.Lead.Access.{
  find_accessible_lead, status_for_lead, validate_lead_assignment, employee_team,
}
use cylizerapp.Lead.Detail.{Locale, LeadDetail, build_lead_detail}
use cylizerapp.Lead.Entries.{add_activity}
use cylizerapp.Lead.Create.{set_team}

-- A field that a change may set or clear.
pub data Change (A : Type 0) : Type 0 where
  keep_field clear_field : Change A
  set_field : A → Change A

pub record UpdateLeadInput : Type 0 where
  pub first_name : Option String
  pub last_name : Change String
  pub company_name : Change String
  pub phone_number : Option String
  pub alternate_phone_number : Change String
  pub email : Change String
  pub status_id : Option String
  pub temperature : Change LeadTemperature
  pub assigned_employee_id : Change String
  pub tag_ids : Option (List String)
  pub custom_fields : Option (Dict JsonValue)
  pub archived : Option Bool

pub record UpdateLeadOptions : Type 0 where
  pub organization_id : String
  pub scope : LeadAccessScope
  pub lead_id : String
  pub expected_version : ℕ
  pub changes : UpdateLeadInput
  pub actor_user_id : String
  pub can_assign : Bool
  pub at : IsoDateTime

-- `setOptional`.
abbrev pub set_optional : {A : Type 0} → Change A → Option A → Option A
set_optional keep_field old = old
set_optional clear_field old = none
set_optional (set_field value) old = some value

unfoldable pub status_admits : Repository → String → Option String → Bool
status_admits s organization_id none = true
status_admits s organization_id (some id) = elim (get id s.lead_statuses) [
  | none ↦ false
  | some status ↦ str_eq status.organization_id organization_id && status.is_active
]

unfoldable pub assignment_admits : Repository → UpdateLeadOptions → Change String → Bool
assignment_admits s o keep_field = true
assignment_admits s o clear_field = o.can_assign
assignment_admits s o (set_field id) =
    o.can_assign && is_some (validate_lead_assignment s o.organization_id o.scope id)

unfoldable pub admit_update : Repository → UpdateLeadOptions → Outcome Lead
admit_update s o = do
  lead ← find_accessible_lead s o.organization_id o.scope o.lead_id
  throw_if (not (lead.version == o.expected_version))
      (conflict "The lead changed; refresh and retry")
  require (status_admits s o.organization_id o.changes.status_id)
  require (assignment_admits s o o.changes.assigned_employee_id)
  done lead

abbrev archive : Option Bool → IsoDateTime → Option IsoDateTime → Option IsoDateTime
archive none at old = old
archive (some true) at old = some at
archive (some false) at old = none

unfoldable pub apply_changes : UpdateLeadInput → IsoDateTime → Lead → Lead
apply_changes changes at lead = record lead {
  first_name = or_default changes.first_name lead.first_name;
  phone_number = or_default changes.phone_number lead.phone_number;
  status_id = or_default changes.status_id lead.status_id;
  tag_ids = or_default changes.tag_ids lead.tag_ids;
  custom_fields = or_default changes.custom_fields lead.custom_fields;
  last_name = set_optional changes.last_name lead.last_name;
  company_name = set_optional changes.company_name lead.company_name;
  alternate_phone_number = set_optional changes.alternate_phone_number lead.alternate_phone_number;
  email = set_optional changes.email lead.email;
  temperature = set_optional changes.temperature lead.temperature;
  assigned_employee_id = set_optional changes.assigned_employee_id lead.assigned_employee_id;
  archived_at = archive changes.archived at lead.archived_at;
}

-- The team of an assignee whom the change names.
abbrev changed_team : Repository → Change String → Option String
changed_team s (set_field id) = truthy (employee_team s (truthy (some id)))
changed_team s _ = none

abbrev stamp : Bool → IsoDateTime → Option IsoDateTime → Option IsoDateTime
stamp now at old = if now && not (is_some old) then some at else old

unfoldable pub close_update : UpdateLeadOptions → LeadStatus → Lead → Lead
close_update o status lead = record lead {
  converted_at = stamp status.is_won o.at lead.converted_at;
  lost_at = stamp status.is_lost o.at lead.lost_at;
  version = lead.version + 1;
  updated_at = o.at;
  updated_by = some o.actor_user_id;
}

abbrev same_text : Option String → Option String → Bool
same_text none none = true
same_text (some a) (some b) = str_eq a b
same_text _ _ = false

unfoldable pub update_kind : Lead → Lead → LeadActivityKind
update_kind old lead =
    if not (str_eq old.status_id lead.status_id)
    then LeadActivityKind.status_changed
    else if not (same_text old.assigned_employee_id lead.assigned_employee_id)
    then (if is_some (truthy lead.assigned_employee_id)
        then LeadActivityKind.assigned
        else LeadActivityKind.unassigned)
    else LeadActivityKind.updated

abbrev update_summary : LeadActivityKind → LeadStatus → String
update_summary LeadActivityKind.status_changed status = concat "Status changed to " status.name
update_summary LeadActivityKind.assigned status = "Lead assigned"
update_summary LeadActivityKind.unassigned status = "Lead unassigned"
update_summary _ status = "Lead updated"

abbrev json_or_null : Option String → JsonValue
json_or_null none = JsonValue.null
json_or_null (some text) = JsonValue.text text

abbrev update_metadata : Lead → Lead → Dict JsonValue
update_metadata old lead =
    ("oldStatusId", JsonValue.text old.status_id)
    ∷ ("newStatusId", JsonValue.text lead.status_id)
    ∷ ("oldAssignedEmployeeId", json_or_null old.assigned_employee_id)
    ∷ ("newAssignedEmployeeId", json_or_null lead.assigned_employee_id)
    ∷ []

-- The lead with the changed fields, before its new status is looked up.
unfoldable pub write_changes : Repository → UpdateLeadOptions → Lead → Repository
write_changes s o old = record s {
  leads = set o.lead_id (apply_changes o.changes o.at old) s.leads;
  lead_teams = set_team old.id (changed_team s o.changes.assigned_employee_id) s.lead_teams;
}

unfoldable pub write_update : Repository → UpdateLeadOptions → Lead → Lead → LeadStatus → Repository
write_update s o old lead status =
    add_activity (record s { leads = set o.lead_id lead s.leads })
      (record { organization_id = o.organization_id; actor_user_id = o.actor_user_id; at = o.at })
      lead.id (update_kind old lead) (update_summary (update_kind old lead) status)
      (some (update_metadata old lead))

-- The changed fields are already in the map when the lookup of the new status fails.
unfoldable pub update_lead :
    Repository → Locale → UpdateLeadOptions → Repository × Outcome LeadDetail
update_lead s locale o = run_if s (admit_update s o) (λ old.
    let changed = apply_changes o.changes o.at old in
    let s' = write_changes s o old in
    run_if s' (status_for_lead s' changed) (λ status.
      let lead = close_update o status changed in
      let t = write_update s' o old lead status in (t, build_lead_detail t locale lead o.at)))
