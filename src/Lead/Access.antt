-- ===== src/Lead/Access.antt =====
-- `canAccessLead`, `canAccessTeam`, `statusForLead`, `defaultLeadStatus` and
-- `validateLeadAssignment` of apps/api/src/repository.ts.
use cylizerapp.Base.{
  ℕ, String, Bool, true, false, not, ◌&&◌, ◌||◌, Option, none, some, List, ltb, leb, ◌==◌, str_eq,
  any, keep, sort, head?, if◌then◌else◌,
}
use cylizerapp.Base.Dict.{get, values}
use cylizerapp.Base.Text.{truthy}
use cylizerapp.Base.Outcome.{Outcome, done, throws, plain, lookup_or_missing, require, ◌>>=◌, ◌>>◌}
use cylizerapp.Contracts.Employees.{Employee, is_active_employee}
use cylizerapp.Contracts.Leads.{Lead, LeadStatus}
use cylizerapp.Domain.{LeadAccessScope}
use cylizerapp.Repository.{Repository}

abbrev pub includes : List String → String → Bool
includes names name = any (λ candidate. str_eq candidate name) names

abbrev pub employee_team : Repository → Option String → Option String
employee_team s none = none
employee_team s (some id) = elim (get id s.employees) [ none ↦ none | some e ↦ e.team ]

-- `leadTeams.get(lead.id) ?? employees.get(lead.assignedEmployeeId)?.team`.
unfoldable pub team_of_lead : Repository → Lead → Option String
team_of_lead s lead = elim (get lead.id s.lead_teams) [
  | some team ↦ some team
  | none ↦ employee_team s (truthy lead.assigned_employee_id)
]

abbrev pub in_teams : List String → Option String → Bool
in_teams names team = elim (truthy team) [ none ↦ false | some name ↦ includes names name ]

abbrev pub is_employee : Option String → String → Bool
is_employee none id = false
is_employee (some assigned) id = str_eq assigned id

unfoldable pub can_access_lead : Repository → LeadAccessScope → Lead → Bool
can_access_lead s LeadAccessScope.organization lead = true
can_access_lead s (LeadAccessScope.assigned employee_id) lead =
    not (str_eq employee_id "") && is_employee lead.assigned_employee_id employee_id
can_access_lead s (LeadAccessScope.teams names) lead = in_teams names (team_of_lead s lead)

-- The lead of an organization that the scope reaches; `missing` for any other.
unfoldable pub find_accessible_lead : Repository → String → LeadAccessScope → String → Outcome Lead
find_accessible_lead s organization_id scope lead_id = do
  lead ← lookup_or_missing (get lead_id s.leads)
  require (str_eq lead.organization_id organization_id && can_access_lead s scope lead)
  done lead

unfoldable pub status_for_lead : Repository → Lead → Outcome LeadStatus
status_for_lead s lead = elim (get lead.status_id s.lead_statuses) [
  | none ↦ throws (plain "Lead status is missing or belongs to another organization")
  | some status ↦
      if str_eq status.organization_id lead.organization_id
      then done status
      else throws (plain "Lead status is missing or belongs to another organization")
]

abbrev initial_rank : LeadStatus → ℕ
initial_rank status = if status.is_initial then 0 else 1

-- Initial statuses first, then by position.
abbrev pub status_before : LeadStatus → LeadStatus → Bool
status_before left right =
    ltb (initial_rank left) (initial_rank right)
    || (initial_rank left == initial_rank right) && leb left.position right.position

unfoldable pub default_lead_status : Repository → String → Option LeadStatus
default_lead_status s organization_id = head? (
    sort status_before (
      keep (λ status. str_eq status.organization_id organization_id && status.is_active)
        (values s.lead_statuses)))

abbrev pub scope_assigns : LeadAccessScope → Employee → Bool
scope_assigns LeadAccessScope.organization employee = true
scope_assigns (LeadAccessScope.assigned employee_id) employee = str_eq employee_id employee.id
scope_assigns (LeadAccessScope.teams names) employee = in_teams names employee.team

-- An active employee of the organization to whom the scope may assign leads.
unfoldable pub validate_lead_assignment :
    Repository → String → LeadAccessScope → String → Option Employee
validate_lead_assignment s organization_id scope employee_id = elim (get employee_id s.employees) [
  | none ↦ none
  | some employee ↦
      if str_eq employee.organization_id organization_id
        && is_active_employee employee.status
        && scope_assigns scope employee
      then some employee
      else none
]
