-- ===== src/Rules/Match.antt =====
-- `canAccessTeam`, `ruleMatchesLead`, `matchingRules` and `listLeadAssignmentRules` of
-- apps/api/src/repository.ts. Priorities are natural numbers.
use cylizerapp.Base.{
  String, Bool, true, false, ◌&&◌, ◌||◌, Option, none, some, List, [], ◌∷◌, ltb, ◌==◌, str_eq, any,
  every, keep, sort,
}
use cylizerapp.Base.Dict.{get, values}
use cylizerapp.Base.Text.{truthy, text_is}
use cylizerapp.Contracts.Employees.{is_active_employee}
use cylizerapp.Contracts.Leads.{Lead, LeadTemperature}
use cylizerapp.Contracts.LeadOperations.{LeadAssignmentRule, source_text, temperature_text}
use cylizerapp.Domain.{LeadAccessScope}
use cylizerapp.Domain.Operations.{LeadAssignmentOperationOptions}
use cylizerapp.Repository.{Repository}
use cylizerapp.Lead.Access.{employee_team, includes, team_of_lead}
use cylizerapp.Lead.Detail.{Locale}

unfoldable pub can_access_team : Repository → LeadAccessScope → Option String → Bool
can_access_team s LeadAccessScope.organization team = true
can_access_team s (LeadAccessScope.teams names) team = elim (truthy team) [
  | none ↦ false
  | some name ↦ includes names name
]
can_access_team s (LeadAccessScope.assigned employee_id) team = elim (truthy team) [
  | none ↦ false
  | some name ↦ text_is (employee_team s (some employee_id)) name
]

-- A condition that is absent or names nothing admits every lead.
abbrev admits {ℓ} : {A : Type ℓ} → Option (List A) → (A → Bool) → Bool
admits none test = true
admits (some []) test = true
admits (some (x ∷ xs)) test = any test (x ∷ xs)

abbrev temperature_is : Option LeadTemperature → LeadTemperature → Bool
temperature_is none wanted = false
temperature_is (some t) wanted = str_eq (temperature_text t) (temperature_text wanted)

unfoldable pub rule_matches_lead : LeadAssignmentRule → Lead → Bool
rule_matches_lead rule lead =
    admits rule.conditions.sources (λ x. str_eq (source_text x) (source_text lead.source))
    && admits rule.conditions.temperatures (temperature_is lead.temperature)
    && admits rule.conditions.status_ids (λ id. str_eq id lead.status_id)

-- `left === right` of two values that may be absent.
abbrev pub same_team : Option String → Option String → Bool
same_team none none = true
same_team none (some b) = false
same_team (some a) other = text_is other a

-- An active employee of the organization in the team.
unfoldable pub is_member : Repository → String → Option String → String → Bool
is_member s organization_id team id = elim (get id s.employees) [
  | none ↦ false
  | some e ↦
      str_eq e.organization_id organization_id
      && is_active_employee e.status
      && same_team e.team team
]

abbrev pub nonempty {ℓ} : {A : Type ℓ} → List A → Bool
nonempty [] = false
nonempty (x ∷ xs) = true

unfoldable pub is_matching :
    Repository → String → LeadAccessScope → Lead → LeadAssignmentRule → Bool
is_matching s organization_id scope lead rule =
    str_eq rule.organization_id organization_id
    && rule.active
    && same_team (get rule.id s.lead_assignment_rule_teams) (team_of_lead s lead)
    && can_access_team s scope (team_of_lead s lead)
    && nonempty rule.employee_ids
    && every (is_member s organization_id (team_of_lead s lead)) rule.employee_ids
    && rule_matches_lead rule lead

-- The rule with the least priority number first.
abbrev pub rule_before : Locale → LeadAssignmentRule → LeadAssignmentRule → Bool
rule_before locale left right =
    ltb left.priority right.priority
    || (left.priority == right.priority) && locale.at_most left.id right.id

unfoldable pub matching_rules :
    Repository → Locale → String → LeadAccessScope → Lead → List LeadAssignmentRule
matching_rules s locale organization_id scope lead =
    sort (rule_before locale)
      (keep (is_matching s organization_id scope lead) (values s.lead_assignment_rules))

unfoldable pub list_lead_assignment_rules :
    Repository → Locale → LeadAssignmentOperationOptions → List LeadAssignmentRule
list_lead_assignment_rules s locale o = sort (rule_before locale) (
    keep
      (λ rule.
        str_eq rule.organization_id o.organization_id
        && can_access_team s o.scope (get rule.id s.lead_assignment_rule_teams))
      (values s.lead_assignment_rules))
