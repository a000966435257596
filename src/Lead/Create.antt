-- ===== src/Lead/Create.antt =====
-- `createLead` of apps/api/src/repository.ts.
use cylizerapp.Base.{
  String, Bool, true, ◌&&◌, Option, none, some, List, [], str_eq, is_some, or_default, find, head?,
}
use cylizerapp.Base.Text.{truthy}
use cylizerapp.Base.Dict.{Dict, get, set, values}
use cylizerapp.Base.Outcome.{Outcome, done, run_if, lookup_or_missing, require, ◌>>=◌, ◌>>◌}
use cylizerapp.Contracts.Organizations.{IsoDateTime}
use cylizerapp.Contracts.Employees.{Employee}
use cylizerapp.Contracts.Leads.{
  Lead, LeadStatus, LeadSource, LeadTemperature, LeadActivityKind, JsonValue,
}
use cylizerapp.Domain.{LeadAccessScope}
use cylizerapp.Repository.{Repository, next_id, tick_id}
use cylizerapp.Lead.Access.{default_lead_status, validate_lead_assignment, is_employee}
use cylizerapp.Lead.Detail.{Locale, LeadDetail, build_lead_detail}
use cylizerapp.Lead.Entries.{add_activity}

pub record CreateLeadInput : Type 0 where
  pub first_name : String
  pub last_name : Option String
  pub company_name : Option String
  pub phone_number : String
  pub alternate_phone_number : Option String
  pub email : Option String
  pub source : Option LeadSource
  pub source_reference : Option String
  pub status_id : Option String
  pub temperature : Option LeadTemperature
  pub assigned_employee_id : Option String
  pub tag_ids : Option (List String)
  pub custom_fields : Option (Dict JsonValue)

pub record CreateLeadOptions : Type 0 where
  pub organization_id : String
  pub scope : LeadAccessScope
  pub input : CreateLeadInput
  pub actor_user_id : String
  pub at : IsoDateTime

unfoldable pub requested_status : Repository → CreateLeadOptions → Option LeadStatus
requested_status s o = elim (truthy o.input.status_id) [
  | none ↦ default_lead_status s o.organization_id
  | some id ↦ get id s.lead_statuses
]

-- An assignee, when one is named, must be one that the scope may assign to.
unfoldable pub assignable : Repository → String → LeadAccessScope → Option String → Bool
assignable s organization_id scope assignee = elim (truthy assignee) [
  | none ↦ true
  | some id ↦ is_some (validate_lead_assignment s organization_id scope id)
]

-- One who sees only assigned leads creates them for no other.
abbrev pub own_lead : LeadAccessScope → Option String → Bool
own_lead (LeadAccessScope.assigned employee_id) assignee = is_employee assignee employee_id
own_lead LeadAccessScope.organization assignee = true
own_lead (LeadAccessScope.teams names) assignee = true

unfoldable pub admit_create : Repository → CreateLeadOptions → Outcome LeadStatus
admit_create s o = do
  status ← lookup_or_missing (requested_status s o)
  require (str_eq status.organization_id o.organization_id && status.is_active)
  require (assignable s o.organization_id o.scope o.input.assigned_employee_id)
  require (own_lead o.scope o.input.assigned_employee_id)
  done status

unfoldable pub new_lead : Repository → CreateLeadOptions → LeadStatus → Lead
unfolding next_id
new_lead s o status = record {
  id = next_id "lead" s;
  organization_id = o.organization_id;
  first_name = o.input.first_name;
  last_name = o.input.last_name;
  company_name = o.input.company_name;
  phone_number = o.input.phone_number;
  alternate_phone_number = o.input.alternate_phone_number;
  email = o.input.email;
  source = or_default o.input.source LeadSource.manual;
  source_reference = o.input.source_reference;
  status_id = status.id;
  temperature = o.input.temperature;
  assigned_employee_id = o.input.assigned_employee_id;
  tag_ids = or_default o.input.tag_ids [];
  custom_fields = or_default o.input.custom_fields [];
  last_contacted_at = none;
  next_follow_up_at = none;
  converted_at = none;
  lost_at = none;
  archived_at = none;
  version = 1;
  created_at = o.at;
  updated_at = o.at;
  created_by = some o.actor_user_id;
  updated_by = some o.actor_user_id;
}

abbrev has_team : String → Employee → Bool
has_team organization_id e = str_eq e.organization_id organization_id && is_some (truthy e.team)

abbrev pub fallback_team : Repository → CreateLeadOptions → LeadAccessScope → Option String
fallback_team s o (LeadAccessScope.teams names) = head? names
fallback_team s o _ = elim (find (has_team o.organization_id) (values s.employees)) [
  | none ↦ none
  | some e ↦ e.team
]

abbrev pub assigned_team : Repository → Option String → Option String
assigned_team s none = none
assigned_team s (some id) = elim (get id s.employees) [ none ↦ none | some e ↦ e.team ]

abbrev pub or_else : Option String → Option String → Option String
or_else none other = other
or_else (some text) other = some text

-- The team that a new lead is put into, when it is not empty.
unfoldable pub new_lead_team : Repository → CreateLeadOptions → Option String
new_lead_team s o =
    truthy
      (or_else (assigned_team s (truthy o.input.assigned_employee_id)) (fallback_team s o o.scope))

abbrev pub set_team : String → Option String → Dict String → Dict String
set_team id none teams = teams
set_team id (some team) teams = set id team teams

unfoldable pub write_lead : Repository → CreateLeadOptions → Lead → Repository
write_lead s o lead =
    add_activity
      (record (tick_id s) {
        leads = set lead.id lead s.leads;
        lead_teams = set_team lead.id (new_lead_team s o) s.lead_teams;
      })
      (record { organization_id = o.organization_id; actor_user_id = o.actor_user_id; at = o.at })
      lead.id LeadActivityKind.created "Lead created" none

unfoldable pub create_lead :
    Repository → Locale → CreateLeadOptions → Repository × Outcome LeadDetail
create_lead s locale o = run_if s (admit_create s o) (λ status.
    let lead = new_lead s o status in
    let t = write_lead s o lead in (t, build_lead_detail t locale lead o.at))
